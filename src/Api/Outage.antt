-- ===== src/Api/Outage.antt =====
-- The endpoints of apps/sample-fastapi/main.py when a call of Redis fails.
use practical_project.Base.{◌≡◌, sym, Bool, true, false, Option, none, some}
use mathlib.Core.Bool.{true≢false}
use practical_project.Base.Classes.{Eq}
use practical_project.Redis.{Redis, is_some}
use practical_project.Queue.{Key, key_eq, Wire, Outcome}
use practical_project.Queue.Service.{QueueSettings, queue_length}
use practical_project.Api.{
  Try, redis_error, http_exception, works_after, fails, malformed, given, queue_bulk_join_request,
  App, Action, over, count_failure, guarded,
}
use practical_project.Api.Endpoints.{
  Reply, Route, health, ready, normal, cpu_load, memory_load, slow, error, join, bulk, process,
  status, reset, metrics, Surroundings, set_length, then_length, join_request, validated,
  join_queue, bulk_join_queue, process_queue, queue_status, reset_queue, read_metrics, endpoint,
}

module _ {Raw : Type 0} ⦃raw_eq : Eq Raw⦄ (wire : Wire Raw) (redis : Redis Key Raw)
    (settings : QueueSettings) (ping : redis.Db → Outcome (Unit {0})) where
  open redis use {Db}

  -- The requests that call the queue: those whose body is accepted.
  abbrev pub calls_queue : Route → Bool
  calls_queue (join (given body)) = is_some (join_request wire redis settings ping body)
  calls_queue (bulk (given body)) = is_some (queue_bulk_join_request body)
  calls_queue process = true
  calls_queue status = true
  calls_queue reset = true
  calls_queue metrics = true
  calls_queue _ = false

  -- 503, and one more failure on the counter.
  abbrev pub unavailable : (Db → Db) → App Db → Try Reply × App Db
  unavailable left app =
      (http_exception 503, record { db = left app.db; metrics = count_failure app.metrics })

  validated-unavailable :
      {A : Type 0} (o : Option A) (k : A → Action Db Reply) (left : Db → Db) (app : App Db)
      → is_some o ≡ true
      → ((a : A) → k a app ≡ unavailable left app)
      → validated wire redis settings ping o k app ≡ unavailable left app
  validated-unavailable none k left app h p = elim (true≢false (sym h)) [ ]
  validated-unavailable (some a) k left app h p = p a

  -- When the first call of Redis fails, every endpoint of the queue answers 503 and counts one
  -- failure; no other metric changes, and the database is what the failed call left.
  pub endpoint-Outage :
      (s : Surroundings Db) (route : Route) (app : App Db) (left : Db → Db)
      → s.first ≡ fails left
      → calls_queue route ≡ true
      → endpoint wire redis settings ping s route app ≡ unavailable left app
  unfolding endpoint join_queue bulk_join_queue process_queue queue_status reset_queue read_metrics
      guarded over then_length
  endpoint-Outage s (join (given body)) app left broken calls =
      validated-unavailable (join_request wire redis settings ping body) _ left app calls
        (λ request. rw broken)
  endpoint-Outage s (bulk (given body)) app left broken calls =
      validated-unavailable (queue_bulk_join_request body) _ left app calls (λ request. rw broken)
  endpoint-Outage s process app left broken calls = rw broken
  endpoint-Outage s status app left broken calls = rw broken
  endpoint-Outage s reset app left broken calls = rw broken
  endpoint-Outage s metrics app left broken calls = rw broken
  endpoint-Outage s (join malformed) app left broken calls = elim (true≢false (sym calls)) [ ]
  endpoint-Outage s (bulk malformed) app left broken calls = elim (true≢false (sym calls)) [ ]
  endpoint-Outage s health app left broken calls = elim (true≢false (sym calls)) [ ]
  endpoint-Outage s ready app left broken calls = elim (true≢false (sym calls)) [ ]
  endpoint-Outage s normal app left broken calls = elim (true≢false (sym calls)) [ ]
  endpoint-Outage s cpu_load app left broken calls = elim (true≢false (sym calls)) [ ]
  endpoint-Outage s memory_load app left broken calls = elim (true≢false (sym calls)) [ ]
  endpoint-Outage s slow app left broken calls = elim (true≢false (sym calls)) [ ]
  endpoint-Outage s (error failed) app left broken calls = elim (true≢false (sym calls)) [ ]

  -- The status endpoint guards its first call only: a failure of the second is no 503 but an
  -- exception that nothing catches, and is not counted.
  pub queue_status-Escapes :
      (s : Surroundings Db) (app : App Db) (before left : Db → Db)
      → s.first ≡ works_after before
      → s.second ≡ fails left
      → queue_status wire redis settings ping s app ≡ (
        redis_error,
        record {
          db = left (before app.db);
          metrics = set_length (queue_length wire redis settings (before app.db)) app.metrics;
        },
      )
  unfolding queue_status guarded over
  queue_status-Escapes s app before left up broken = rw (up, broken)
