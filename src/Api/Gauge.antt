-- ===== src/Api/Gauge.antt =====
-- The gauge `sample_queue_length` of apps/sample-fastapi/main.py, by which the workers are scaled.
use practical_project.Base.{
  ℕ, ◌≡◌, refl, sym, ap, ◌∙◌, true, false, List, Option, none, some, String, Bool-cases, ◌⊎◌, inl,
  inr, length,
}
use practical_project.Base.Classes.{Eq}
use practical_project.Redis.{Redis}
use practical_project.Queue.{
  Key, key_eq, Job, Wire, Outcome, ok, raised, response_error, json_decode_error, timeout_error,
  value_error,
}
use practical_project.Queue.Service.{QueueSettings, queue_length}
use practical_project.Queue.Leases.{clear_effect}
use practical_project.Api.{
  QueueMetrics, of_outcome, Try, done, redis_error, other_error, http_exception, Link, works_after,
  fails, malformed, given, require_test_token, QueueJoinRequest, QueueBulkJoinRequest,
  queue_bulk_join_request, App, Action, pure, fail_with, and_then, ◌>>=◌, ◌>>◌, over, tell,
  count_failure, guarded,
}
use practical_project.Api.Results.{Holds, Holds-any, Holds-bind, Holds-guarded}
use practical_project.Api.Endpoints.{
  Reply, message, joined, bulk_joined, processed, job_ids, set_length, count_entered,
  count_processed, Route, health, ready, normal, cpu_load, memory_load, slow, error, join, bulk,
  process, status, reset, metrics, is_protected, is_malformed, Surroundings, ask, then_length,
  join_request, validated, readiness_check, join_queue, bulk_join_queue, process_queue,
  queue_status, reset_queue, read_metrics, endpoint, serve,
}

module _ {Raw : Type 0} ⦃raw_eq : Eq Raw⦄ (wire : Wire Raw) (redis : Redis Key Raw)
    (settings : QueueSettings) (ping : redis.Db → Outcome (Unit {0})) where
  open redis use {Db, view}

  abbrev pub IsShown : App Db → Type 0
  IsShown app = app.metrics.queue_length ≡ queue_length wire redis settings app.db

  -- Nobody acts before a call: no other client, and no attempt whose reply was lost.
  abbrev pub IsQuiet : Link Db → Type 0
  IsQuiet (works_after before) = (db : Db) → before db ≡ db
  IsQuiet (fails left) = Unit

  abbrev pub AreQuiet : Surroundings Db → Type 0
  AreQuiet s = IsQuiet s.first × IsQuiet s.second × IsQuiet s.third

  -- A reading of the database, which it does not change.
  Holds-ask :
      (link : Link Db) (f : Db → ℕ) (app : App Db)
      → Holds (λ n app'. n ≡ f app'.db) (ask wire redis settings ping link f app)
  unfolding over
  Holds-ask (works_after before) f app = refl
  Holds-ask (fails left) f app = tt

  abbrev IsLength : {A : Type 0} → A × ℕ → App Db → Type 0
  IsLength result app = result.1 ≡ queue_length wire redis settings app.db

  -- The call's result with the length, as the endpoints guard them.
  Holds-then_length :
      {A : Type 0} (m : Action Db A) (link : Link Db) (app : App Db)
      → Holds IsLength (then_length wire redis settings ping m link app)
  unfolding then_length
  Holds-then_length m link app =
      Holds-bind (λ a app'. Unit {0}) IsLength m _ app (Holds-any (m app).0 (m app).1)
        (λ a app' u.
          Holds-bind (λ n app''. n ≡ queue_length wire redis settings app''.db) IsLength
            (ask wire redis settings ping link (queue_length wire redis settings)) _ app'
            (Holds-ask link (queue_length wire redis settings) app') (λ n app'' p. p))

  -- An answer, after which the gauge is right.
  abbrev pub Answers : Try Reply × App Db → Type 0
  Answers result = Holds (λ reply app. IsShown app) result

  after_length :
      {A : Type 0} (count : A → QueueMetrics → QueueMetrics) (reply : A → ℕ → Reply)
      (r : Try (A × ℕ)) (app : App Db)
      → Holds IsLength (r, app)
      → Answers (
          and_then r app (λ result. tell (count result.0) >>= λ _.
          tell (set_length result.1) >>= λ _. pure (reply result.0 result.1)))
  after_length count reply (done result) app e = e
  after_length count reply redis_error app e = tt
  after_length count reply other_error app e = tt
  after_length count reply (http_exception code) app e = tt

  guarded-IsLength :
      {A : Type 0} (first second : Link Db) (f : Db → Outcome A × Db) (app : App Db)
      → Holds IsLength
          (guarded count_failure (then_length wire redis settings ping (over first f) second) app)
  guarded-IsLength first second f app =
      Holds-guarded IsLength count_failure
        (then_length wire redis settings ping (over first f) second) app
        (Holds-then_length (over first f) second app)

  join-IsShown :
      (s : Surroundings Db) (request : QueueJoinRequest) (app : App Db)
      → Answers (join_queue wire redis settings ping s request app)
  unfolding join_queue
  join-IsShown s request app =
      after_length (λ (job : Job). count_entered 1) (λ job n. joined job.id n) _ _
        (guarded-IsLength s.first s.second _ app)

  bulk-IsShown :
      (s : Surroundings Db) (request : QueueBulkJoinRequest) (app : App Db)
      → Answers (bulk_join_queue wire redis settings ping s request app)
  unfolding bulk_join_queue
  bulk-IsShown s request app =
      after_length (λ (jobs : List Job). count_entered request.count)
        (λ jobs n. bulk_joined (length (job_ids jobs)) (job_ids jobs) n) _ _
        (guarded-IsLength s.first s.second _ app)

  process-IsShown :
      (s : Surroundings Db) (app : App Db) → Answers (process_queue wire redis settings ping s app)
  unfolding process_queue
  process-IsShown s app =
      after_length count_processed (λ job n. processed job n) _ _
        (guarded-IsLength s.first s.second _ app)

  Link-cases :
      (link : Link Db)
      → IsQuiet link
      → ((before : Db → Db) × (link ≡ works_after before) × ((db : Db) → before db ≡ db))
        ⊎ ((left : Db → Db) × (link ≡ fails left))
  Link-cases (works_after before) q = inl (before, refl, q)
  Link-cases (fails left) q = inr (left, refl)

  -- The other two lengths are read, which changes neither the database nor the first gauge.
  status-IsShown :
      (s : Surroundings Db) (app : App Db)
      → AreQuiet s
      → Answers (queue_status wire redis settings ping s app)
  unfolding queue_status guarded over
  status-IsShown s app (q1, q2, q3) = elim (Link-cases s.first q1) [
    | inr (left, down) ↦ rw down tt
    | inl (b1, up, same) ↦ elim (Link-cases s.second q2) [
      | inr (left, down) ↦ rw (up, down) tt
      | inl (b2, up2, same2) ↦ elim (Link-cases s.third q3) [
        | inr (left, down) ↦ rw (up, up2, down) tt
        | inl (b3, up3, same3) ↦
            rw (up, up2, up3)
              (sym (
                ap (queue_length wire redis settings) (same3 (b2 (b1 app.db)) ∙ same2 (b1 app.db))))
      ]
    ]
  ]

  metrics-IsShown :
      (s : Surroundings Db) (app : App Db)
      → AreQuiet s
      → Answers (read_metrics wire redis settings ping s app)
  unfolding read_metrics guarded over
  metrics-IsShown s app (q1, q2, q3) = elim (Link-cases s.first q1) [
    | inr (left, down) ↦ rw down tt
    | inl (b1, up, same) ↦ elim (Link-cases s.second q2) [
      | inr (left, down) ↦ rw (up, down) tt
      | inl (b2, up2, same2) ↦ elim (Link-cases s.third q3) [
        | inr (left, down) ↦ rw (up, up2, down) tt
        | inl (b3, up3, same3) ↦
            rw (up, up2, up3)
              (sym (
                ap (queue_length wire redis settings) (same3 (b2 (b1 app.db)) ∙ same2 (b1 app.db))))
      ]
    ]
  ]

  reset-IsShown :
      (s : Surroundings Db) (app : App Db)
      → AreQuiet s
      → Answers (reset_queue wire redis settings ping s app)
  unfolding reset_queue guarded over queue_length
  reset-IsShown s app (q1, q2, q3) = elim (Link-cases s.first q1) [
    | inr (left, down) ↦ rw down tt
    | inl (before, up, same) ↦
        rw up (sym (ap length (clear_effect wire redis settings (before app.db)).1))
  ]

  validated-IsShown :
      {A : Type 0} (o : Option A) (k : A → Action Db Reply) (app : App Db)
      → ((a : A) → Answers (k a app))
      → Answers (validated wire redis settings ping o k app)
  validated-IsShown none k app h = tt
  validated-IsShown (some a) k app h = h a

  kept_shown :
      (r : Outcome (Unit {0})) (app : App Db)
      → IsShown app
      → Holds (λ (u : Unit {0}) app'. IsShown app') (of_outcome r, app)
  kept_shown (ok u) app p = p
  kept_shown (raised response_error) app p = tt
  kept_shown (raised json_decode_error) app p = tt
  kept_shown (raised timeout_error) app p = tt
  kept_shown (raised value_error) app p = tt

  asked :
      (link : Link Db) (app : App Db)
      → IsQuiet link
      → IsShown app
      → Holds (λ (u : Unit {0}) app'. IsShown app') (over link (λ db. (ping db, db)) app)
  unfolding over
  asked (works_after before) app q p =
      kept_shown (ping (before app.db)) (record app { db = before app.db })
        (p ∙ sym (ap (queue_length wire redis settings) (q app.db)))
  asked (fails left) app q p = tt

  ready-IsShown :
      (s : Surroundings Db) (app : App Db)
      → AreQuiet s
      → IsShown app
      → Answers (readiness_check wire redis settings ping s app)
  unfolding readiness_check
  ready-IsShown s app quiet shown =
      Holds-bind (λ (u : Unit {0}) app'. IsShown app') (λ reply app'. IsShown app')
        (guarded (λ m. m) (over s.first (λ db. (ping db, db)))) (λ u. pure message) app
        (Holds-guarded (λ (u : Unit {0}) app'. IsShown app') (λ m. m)
          (over s.first (λ db. (ping db, db))) app (asked s.first app quiet.0 shown))
        (λ u app' p. p)

  endpoint-IsShown :
      (s : Surroundings Db) (route : Route) (app : App Db)
      → AreQuiet s
      → IsShown app
      → Answers (endpoint wire redis settings ping s route app)
  unfolding endpoint
  endpoint-IsShown s health app quiet shown = shown
  endpoint-IsShown s ready app quiet shown = ready-IsShown s app quiet shown
  endpoint-IsShown s normal app quiet shown = shown
  endpoint-IsShown s cpu_load app quiet shown = shown
  endpoint-IsShown s memory_load app quiet shown = shown
  endpoint-IsShown s slow app quiet shown = shown
  endpoint-IsShown s (error true) app quiet shown = tt
  endpoint-IsShown s (error false) app quiet shown = shown
  endpoint-IsShown s (join malformed) app quiet shown = tt
  endpoint-IsShown s (join (given body)) app quiet shown =
      validated-IsShown (join_request wire redis settings ping body) _ app
        (λ request. join-IsShown s request app)
  endpoint-IsShown s (bulk malformed) app quiet shown = tt
  endpoint-IsShown s (bulk (given body)) app quiet shown =
      validated-IsShown (queue_bulk_join_request body) _ app (λ request. bulk-IsShown s request app)
  endpoint-IsShown s process app quiet shown = process-IsShown s app
  endpoint-IsShown s status app quiet shown = status-IsShown s app quiet
  endpoint-IsShown s reset app quiet shown = reset-IsShown s app quiet
  endpoint-IsShown s metrics app quiet shown = metrics-IsShown s app quiet

  token_then :
      (r : Try (Unit {0})) (m : Action Db Reply) (app : App Db)
      → Answers (m app)
      → Answers ((fail_with r >> m) app)
  token_then (done a) m app h = h
  token_then redis_error m app h = tt
  token_then other_error m app h = tt
  token_then (http_exception code) m app h = tt

  pub serve-IsShown :
      (token header : Option String) (s : Surroundings Db) (route : Route) (app : App Db)
      → AreQuiet s
      → IsShown app
      → Answers (serve wire redis settings ping token header s route app)
  unfolding serve
  serve-IsShown token header s route app quiet shown =
      let served = endpoint-IsShown s route app quiet shown in
      elim (Bool-cases (is_malformed route)) [
        | inl broken ↦ rw broken tt
        | inr readable ↦ elim (Bool-cases (is_protected route)) [
          | inl protected ↦
              rw (readable, protected)
                (token_then (require_test_token header token)
                  (endpoint wire redis settings ping s route) app served)
          | inr open_route ↦ rw (readable, open_route) served
        ]
      ]
