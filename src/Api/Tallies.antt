-- ===== src/Api/Tallies.antt =====
-- The HTTP metrics of apps/sample-fastapi/main.py against the requests that were answered.
use practical_project.Base.{
  ℕ, ◌+◌, ◌≡◌, sym, ap, List, [], ◌∷◌, Option, none, some, leb, length, Bool-cases, inl, inr, arith,
  if◌then◌else◌,
}
use practical_project.Base.Classes.{Eq, ◌==◌, string_eq, nat_eq}
use practical_project.Base.Equality.{pair_eq}
use practical_project.Redis.{Redis}
use practical_project.Queue.{Key, key_eq, Wire, Outcome}
use practical_project.Queue.Service.{QueueSettings}
use practical_project.Api.Endpoints.{serve}
use practical_project.Api.Middleware.{
  Target, Labels, HttpMetrics, inc, collect_http_metrics, response_status, method_and_path, Visit,
  Site, handle, handle_all,
}

-- How often a label, and a target with any status, is in a list of labels.
abbrev pub times : Labels → List Labels → ℕ
times l [] = 0
times l (k ∷ ks) = (if k == l then 1 else 0) + times l ks

abbrev pub times_at : Target → List Labels → ℕ
times_at t [] = 0
times_at t (k ∷ ks) = (if k.0 == t then 1 else 0) + times_at t ks

-- Between two states of the metrics, a list of labels was counted: each request once, as an error
-- where its status is one, and with its duration.
pub record IsTally (before after : HttpMetrics) (labels : List Labels) : Type 0 where
  pub requests_lem :
      (l : Labels) → after.requests_total l ≡ before.requests_total l + times l labels
  pub errors_lem :
      (l : Labels)
      → after.errors_total l ≡ before.errors_total l + (if leb 400 l.1 then times l labels else 0)
  pub durations_lem :
      (t : Target)
      → length (after.request_durations t) ≡ length (before.request_durations t) + times_at t labels

abbrev pub code_of : Option ℕ → ℕ
code_of none = 500
code_of (some code) = code

counted_error :
    (target : Target) (code : ℕ) (errors : Labels → ℕ) (l : Labels)
    → (if leb 400 code then inc (target, code) errors else errors) l
      ≡ errors l + (if leb 400 l.1 then times l ((target, code) ∷ []) else 0)
counted_error target code errors l = elim (Bool-cases ((target, code) == l)) [
  | inl same ↦
      let e : leb 400 l.1 ≡ leb 400 code =
        ap (λ (k : Labels). leb 400 k.1) (sym ((pair_eq.equal_iff (target, code) l).0 same)) in
      elim (Bool-cases (leb 400 code)) [
        | inl bad ↦ rw (same, e, bad) (ground arith)
        | inr good ↦ rw (same, e, good) (ground arith)
      ]
  | inr other ↦ elim (Bool-cases (leb 400 code)) [
    | inl bad ↦ rw (other, bad) (ground arith)
    | inr good ↦ rw (other, good) (ground arith)
  ]
]

collect_http_metrics-IsTally :
    (target : Target) (started_at finished_at : ℕ) (status : Option ℕ) (m : HttpMetrics)
    → IsTally m
        (collect_http_metrics target started_at finished_at status m)
        ((target, code_of status) ∷ [])
unfolding collect_http_metrics
collect_http_metrics-IsTally target started_at finished_at none m = record {
  requests_lem = λ l. ground arith;
  errors_lem = counted_error target 500 m.errors_total;
  durations_lem = λ t. ground arith;
}
collect_http_metrics-IsTally target started_at finished_at (some code) m = record {
  requests_lem = λ l. ground arith;
  errors_lem = counted_error target code m.errors_total;
  durations_lem = λ t. ground arith;
}

IsTally-here : (m : HttpMetrics) → IsTally m m []
IsTally-here m = record {
  requests_lem = λ l. omega arith;
  errors_lem = λ l. ground arith;
  durations_lem = λ t. omega arith;
}

IsTally-next :
    (a b c : HttpMetrics) (label : Labels) (labels : List Labels)
    → IsTally a b (label ∷ [])
    → IsTally b c labels
    → IsTally a c (label ∷ labels)
IsTally-next a b c label labels p q = record {
  requests_lem = λ l. ground (arith, p.requests_lem l, q.requests_lem l);
  errors_lem = λ l. ground (arith, p.errors_lem l, q.errors_lem l);
  durations_lem = λ t. ground (arith, p.durations_lem t, q.durations_lem t);
}

module _ {Raw : Type 0} ⦃raw_eq : Eq Raw⦄ (wire : Wire Raw) (redis : Redis Key Raw)
    (settings : QueueSettings) (ping : redis.Db → Outcome (Unit {0})) where
  abbrev pub label_of : Visit wire redis settings ping → Site wire redis settings ping → Labels
  label_of v site = (
    method_and_path v.route,
    code_of (
        response_status
          (serve wire redis settings ping v.token v.header v.surroundings v.route site.app).0),
  )

  -- What each visit was answered with; 500 for an exception that nothing caught.
  abbrev pub answers :
      List (Visit wire redis settings ping) → Site wire redis settings ping → List Labels
  answers [] site = []
  answers (v ∷ visits) site =
      label_of v site ∷ answers visits (handle wire redis settings ping v site)

  -- The HTTP metrics are those of the requests: over any sequence of them, whether they are
  -- answered, refused or end in an exception, each is counted once under its method, path and
  -- status, an error is counted where the status is 400 or above and nowhere else, and each leaves
  -- one duration.
  pub handle_all-IsTally :
      (visits : List (Visit wire redis settings ping)) (site : Site wire redis settings ping)
      → IsTally site.http
          (handle_all wire redis settings ping visits site).http
          (answers visits site)
  unfolding handle_all handle
  handle_all-IsTally [] site = IsTally-here site.http
  handle_all-IsTally (v ∷ visits) site =
      IsTally-next _ _ _ (label_of v site) _
        (collect_http_metrics-IsTally (method_and_path v.route) v.started_at v.finished_at _
          site.http)
        (handle_all-IsTally visits (handle wire redis settings ping v site))
