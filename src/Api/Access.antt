-- ===== src/Api/Access.antt =====
-- What the token of apps/sample-fastapi/main.py guards.
use practical_project.Base.{
  ◌≡◌, refl, true, false, Option, none, some, String, ◌⊎◌, inl, inr, Bool-cases, Option-cases, ◌&&◌,
  ap, ◌∙◌,
}
use practical_project.Base.Classes.{Eq, ◌==◌, string_eq}
use practical_project.Float.Literal.{codes}
use practical_project.Redis.{Redis}
use practical_project.Queue.{Key, key_eq, Wire, Outcome}
use practical_project.Queue.Service.{QueueSettings}
use practical_project.Api.{
  Try, done, redis_error, other_error, http_exception, App, Action, token_verdict,
  require_test_token, compare_digest, is_ascii, and_then,
}
use practical_project.Api.Endpoints.{
  Route, health, ready, normal, cpu_load, memory_load, slow, error, join, bulk, process, status,
  reset, metrics, is_protected, is_malformed, Surroundings, serve,
}

-- The header is the token that is configured, which is not empty.
abbrev pub IsConfigured : Option String → Option String → Type 0
IsConfigured header token =
    (t : String) × (header ≡ some t) × (token ≡ some t) × ((t == "") ≡ false)

-- 403 and 503, or the exception of a comparison with a text beyond ASCII.
abbrev pub IsRefusal : {A : Type 0} → Try A → Type 0
IsRefusal (done a) = ⊥
IsRefusal redis_error = ⊥
IsRefusal other_error = Unit
IsRefusal (http_exception code) = (code ≡ 403) ⊎ (code ≡ 503)

compare_digest-cases :
    (sent expected : String)
    → (sent ≡ expected) ⊎ IsRefusal (token_verdict (compare_digest sent expected))
unfolding compare_digest
compare_digest-cases sent expected =
    elim (Bool-cases (is_ascii (codes sent) && is_ascii (codes expected))) [
      | inl ascii ↦ elim (Bool-cases (sent == expected)) [
        | inl same ↦ inl ((string_eq.equal_iff sent expected).0 same)
        | inr other ↦ inr (rw (ascii, other) (inl refl))
      ]
      | inr beyond ↦ inr (rw beyond tt)
    ]

require_test_token-cases :
    (header token : Option String)
    → IsConfigured header token ⊎ IsRefusal (require_test_token header token)
unfolding require_test_token
require_test_token-cases header none = inr (inr refl)
require_test_token-cases header (some expected) = elim (Bool-cases (expected == "")) [
  | inl empty ↦ inr (rw empty (inr refl))
  | inr set ↦ elim (Option-cases header) [
    | inl missing ↦ inr (rw (set, missing) (inl refl))
    | inr (sent, e) ↦ elim (compare_digest-cases sent expected) [
      | inl same ↦ inl (expected, e ∙ ap some same, refl, set)
      | inr refused ↦ inr (rw (set, e) refused)
    ]
  ]
]

-- The routes that only look: liveness, readiness, the plain answer, the lengths and the metrics.
abbrev pub IsOpen : Route → Type 0
IsOpen health = Unit
IsOpen ready = Unit
IsOpen normal = Unit
IsOpen status = Unit
IsOpen metrics = Unit
IsOpen _ = ⊥

protected_or_IsOpen : (route : Route) → (is_protected route ≡ true) ⊎ IsOpen route
unfolding is_protected
protected_or_IsOpen health = inr tt
protected_or_IsOpen ready = inr tt
protected_or_IsOpen normal = inr tt
protected_or_IsOpen cpu_load = inl refl
protected_or_IsOpen memory_load = inl refl
protected_or_IsOpen slow = inl refl
protected_or_IsOpen (error failed) = inl refl
protected_or_IsOpen (join body) = inl refl
protected_or_IsOpen (bulk body) = inl refl
protected_or_IsOpen process = inl refl
protected_or_IsOpen status = inr tt
protected_or_IsOpen reset = inl refl
protected_or_IsOpen metrics = inr tt

module _ {Db : Type 0} where
  -- The request is refused, and neither the database nor a metric of the queue changes.
  abbrev pub IsTurnedAway : {A : Type 0} → App Db → Try A × App Db → Type 0
  IsTurnedAway app result = IsRefusal result.0 × (result.1 ≡ app)

  turned_away :
      {A B : Type 0} (r : Try A) (k : A → Action Db B) (app : App Db)
      → IsRefusal r
      → IsTurnedAway app (and_then r app k)
  turned_away (done a) k app h = elim h [ ]
  turned_away redis_error k app h = elim h [ ]
  turned_away other_error k app h = (tt, refl)
  turned_away (http_exception code) k app h = (h, refl)

module _ {Raw : Type 0} ⦃raw_eq : Eq Raw⦄ (wire : Wire Raw) (redis : Redis Key Raw)
    (settings : QueueSettings) (ping : redis.Db → Outcome (Unit {0})) where
  pub serve-NeedsToken :
      (token header : Option String) (s : Surroundings redis.Db) (route : Route)
      (app : App redis.Db)
      → ¬ IsOpen route
      → IsConfigured header token
        ⊎ IsTurnedAway app (serve wire redis settings ping token header s route app)
        ⊎ (is_malformed route ≡ true)
          × (serve wire redis settings ping token header s route app ≡ (http_exception 422, app))
  unfolding serve
  serve-NeedsToken token header s route app guarded_route = elim (Bool-cases (is_malformed route)) [
    | inl broken ↦ inr (inr (broken, rw broken))
    | inr readable ↦ elim (protected_or_IsOpen route) [
      | inr open_route ↦ elim (guarded_route open_route) [ ]
      | inl protected ↦ elim (require_test_token-cases header token) [
        | inl configured ↦ inl configured
        | inr refused ↦ inr (
            inl (
              rw (readable, protected)
                (turned_away (require_test_token header token) _ app refused)))
      ]
    ]
  ]
