-- ===== src/Api/Lost.antt =====
-- `process_queue` of apps/sample-fastapi/main.py when the connection fails behind its first call.
use practical_project.Base.{◌+◌, ◌≡◌, refl, true, false, List, ◌∷◌, some}
use practical_project.Base.Int.{pos}
use practical_project.Base.Classes.{Eq}
use practical_project.Redis.{Redis}
use practical_project.Queue.{Key, pending, completed, key_eq, Job, Wire, Outcome}
use practical_project.Queue.Service.{QueueSettings}
use practical_project.Queue.Count.{held}
use practical_project.Queue.Taken.{dequeue-IsTaken}
use practical_project.Api.{
  Try, http_exception, works_after, fails, App, over, count_failure, guarded,
}
use practical_project.Api.Endpoints.{Reply, Surroundings, then_length, process_queue}

module _ {Raw : Type 0} ⦃raw_eq : Eq Raw⦄ (wire : Wire Raw) (redis : Redis Key Raw)
    (settings : QueueSettings) (ping : redis.Db → Outcome (Unit {0})) where
  open redis use {Db, view}

  -- The answer is 503 without a job; the job is off the pending list, marked as completed and held
  -- once less than in `db`, and of the metrics the failure counter alone has changed.
  pub record IsLost (rest : List Raw) (job : Job) (app : App Db) (db : Db)
      (result : Try Reply × App Db) : Type 0 where
    pub answer_lem : result.0 ≡ http_exception 503
    pub waiting : (view result.1.db).items pending ≡ rest
    pub recorded : (view result.1.db).flag (completed job.id) ≡ true
    pub held_lem : held wire job.id (view result.1.db) + 1 ≡ held wire job.id (view db)
    pub metrics_lem : result.1.metrics ≡ count_failure app.metrics

  -- A 503 of the endpoint that consumes a job does not say that none was consumed: if a job waits and
  -- the connection fails when the length is asked for, then the oldest job is off the queue and marked
  -- as completed, and is neither returned nor counted as processed.
  pub process_queue-Lost :
      (s : Surroundings Db) (app : App Db) (before : Db → Db) (raw : Raw) (rest : List Raw)
      (job : Job)
      → s.first ≡ works_after before
      → s.second ≡ fails (λ db. db)
      → (view (before app.db)).items pending ≡ raw ∷ rest
      → wire.is_blank raw ≡ false
      → wire.loads raw ≡ some job
      → IsLost rest job app (before app.db) (process_queue wire redis settings ping s app)
  unfolding process_queue guarded over then_length
  process_queue-Lost s app before raw rest job up broken first full loaded =
      let taken =
        dequeue-IsTaken wire redis settings (pos 0) s.now (before app.db) raw rest job first full
          loaded in
      rw (up, broken, taken.returned)
        (record {
          answer_lem = refl;
          waiting = taken.waiting;
          recorded = taken.recorded;
          held_lem = taken.held_lem;
          metrics_lem = refl;
        })
