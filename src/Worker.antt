-- ===== src/Worker.antt =====
-- The worker of apps/sample-fastapi/worker.py, a client of the job queue, with the metrics of
-- apps/sample-fastapi/metrics.py that it keeps. Durations are whole microseconds.
pub mod Rounds
pub mod Counters
mod Tests
use practical_project.Base.{
  ℕ, ◌+◌, ◌-◌, String, Bool, true, false, List, [], ◌∷◌, ◌++◌, Option, none, some, if◌then◌else◌,
}
use practical_project.Base.Int.{ℤ, pos, ◌-ℤ◌, ltb_ℤ}
use practical_project.Base.Classes.{Eq}
use practical_project.Redis.{Redis}
use practical_project.Queue.{
  Key, key_eq, Seconds, micros, not_a_number, Job, Wire, ReservedJob, Outcome, ok, raised, Disposal,
  retry, dead_lettered, missing,
}
use practical_project.Queue.Service.{
  QueueSettings, Recovered, recover_stale, reserve, acknowledge, is_completed, retry_or_dead_letter,
  queue_length, processing_length, dead_letter_length,
}

pub record WorkerSettings : Type 0 where
  pub processing_seconds : ℤ
  pub job_timeout_seconds : ℤ
  pub recovery_interval_seconds : ℤ

pub record Metrics : Type 0 where
  pub queue_failed_total : ℕ
  pub queue_processed_total : ℕ
  pub queue_retry_total : ℕ
  pub queue_recovered_total : ℕ
  pub queue_dead_letter_total : ℕ
  pub worker_processed_total : ℕ
  pub worker_active_jobs : ℕ
  pub queue_length_gauge : ℕ
  pub queue_processing_gauge : ℕ
  pub queue_dead_letter_gauge : ℕ
  pub processing_durations : List ℕ

-- `max(float(requested), 0.0)` against the timeout: the class of the exception that is raised, if any.
unfoldable pub time_allowed : WorkerSettings → Seconds → Option String
time_allowed w not_a_number = some "ValueError"
time_allowed w (micros m) =
    let seconds = if ltb_ℤ m (pos 0) then pos 0 else m in
    if ltb_ℤ w.job_timeout_seconds seconds then some "TimeoutError" else none

abbrev pub requested_seconds : WorkerSettings → Option Seconds → Seconds
requested_seconds w none = micros w.processing_seconds
requested_seconds w (some s) = s

unfoldable pub process_job : WorkerSettings → Job → Option String
unfolding time_allowed
process_job w job = time_allowed w (requested_seconds w job.payload.processing_seconds)

-- `if recovered[...]: counter.inc(...)`, which adds nothing where the count is 0.
unfoldable pub count_recovered : Recovered → Metrics → Metrics
count_recovered r m = record m {
  queue_recovered_total = m.queue_recovered_total + r.retried + r.dead_lettered;
  queue_retry_total = m.queue_retry_total + r.retried;
  queue_dead_letter_total = m.queue_dead_letter_total + r.dead_lettered;
}

unfoldable pub count_failed : Disposal → Metrics → Metrics
count_failed retry m = record m {
  queue_failed_total = m.queue_failed_total + 1;
  queue_retry_total = m.queue_retry_total + 1;
}
count_failed dead_lettered m = record m {
  queue_failed_total = m.queue_failed_total + 1;
  queue_dead_letter_total = m.queue_dead_letter_total + 1;
}
count_failed missing m = record m { queue_failed_total = m.queue_failed_total + 1 }

module _ {Raw : Type 0} ⦃raw_eq : Eq Raw⦄ (wire : Wire Raw) (redis : Redis Key Raw)
    (settings : QueueSettings) (w : WorkerSettings) where
  open redis use {Db}

  -- What a round meets: the clocks, how long a job takes, and what other clients do to the watched
  -- list between the WATCH and the EXEC of a job that is handed back.
  pub record Round : Type 0 where
    pub timeout : ℤ
    pub monotonic : ℤ
    pub recovered_at : ℕ
    pub reserved_at : ℕ
    pub failed_at : ℕ
    pub elapsed : ℕ
    pub recovery_conflicts : Raw → List (Db → Db)
    pub failure_conflicts : List (Db → Db)

  pub record WorkerState : Type 0 where
    pub db : Db
    pub last_recovery_at : ℤ
    pub metrics : Metrics

  abbrev pub after_recovery : Round → Outcome Recovered → WorkerState → Outcome Bool × WorkerState
  after_recovery round (raised e) s = (raised e, s)
  after_recovery round (ok recovered) s = (
    ok true,
    record s { last_recovery_at = round.monotonic; metrics = count_recovered recovered s.metrics },
  )

  -- The result tells whether it recovered, which the worker does not read.
  unfoldable pub recover_stale_jobs : Round → WorkerState → Outcome Bool × WorkerState
  unfolding ◌-ℤ◌ recover_stale count_recovered
  recover_stale_jobs round s =
      let (outcome, db) =
        recover_stale wire redis settings round.recovered_at round.failed_at
          round.recovery_conflicts s.db in
      if ltb_ℤ (round.monotonic -ℤ s.last_recovery_at) w.recovery_interval_seconds
      then (ok false, s)
      else after_recovery round outcome (record s { db = db })

  -- The `finally` block.
  unfoldable pub observe : Round → WorkerState → WorkerState
  unfolding queue_length processing_length dead_letter_length
  observe round s = record s {
    metrics = record (s.metrics) {
      processing_durations = s.metrics.processing_durations ++ round.elapsed ∷ [];
      worker_active_jobs = s.metrics.worker_active_jobs - 1;
      queue_length_gauge = queue_length wire redis settings s.db;
      queue_processing_gauge = processing_length wire redis settings s.db;
      queue_dead_letter_gauge = dead_letter_length wire redis settings s.db;
    };
  }

  abbrev pub finish_job : Round → ReservedJob Raw → Option String → WorkerState → WorkerState
  finish_job round r none s = record s {
    db = (acknowledge wire redis settings r s.db).1;
    metrics = record (s.metrics) {
      queue_processed_total = s.metrics.queue_processed_total + 1;
      worker_processed_total = s.metrics.worker_processed_total + 1;
    };
  }
  finish_job round r (some reason) s =
      let (disposal, db) =
        retry_or_dead_letter wire redis settings r reason round.failed_at round.failure_conflicts
          s.db in
      record s { db = db; metrics = count_failed disposal s.metrics }

  abbrev pub started : WorkerState → WorkerState
  started s = record s {
    metrics = record (s.metrics) { worker_active_jobs = s.metrics.worker_active_jobs + 1 };
  }

  unfoldable pub handle_job : Round → ReservedJob Raw → WorkerState → WorkerState
  unfolding is_completed acknowledge retry_or_dead_letter process_job count_failed observe
  handle_job round r s =
      if is_completed wire redis settings r.job.id s.db
      then record s { db = (acknowledge wire redis settings r s.db).1 }
      else observe round (finish_job round r (process_job w r.job) (started s))

  abbrev pub after_reserve :
      Round → Outcome (Option (ReservedJob Raw)) → WorkerState → Outcome Bool × WorkerState
  after_reserve round (raised e) s = (raised e, s)
  after_reserve round (ok none) s = (
    ok false,
    record s {
      metrics = record (s.metrics) { queue_length_gauge = queue_length wire redis settings s.db };
    },
  )
  after_reserve round (ok (some r)) s = (ok true, handle_job round r s)

  abbrev pub reserved : Round → Outcome Bool × WorkerState → Outcome Bool × WorkerState
  reserved round (raised e, s) = (raised e, s)
  reserved round (ok _, s) =
      let (reservation, db) = reserve wire redis settings round.timeout round.reserved_at s.db in
      after_reserve round reservation (record s { db = db })

  unfoldable pub run_once : Round → WorkerState → Outcome Bool × WorkerState
  unfolding recover_stale_jobs reserve handle_job queue_length
  run_once round s = reserved round (recover_stale_jobs round s)
