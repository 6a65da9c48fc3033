-- ===== src/Worker/Rounds.antt =====
-- A round of the worker of apps/sample-fastapi/worker.py: what it does to the queue and its counters.
use practical_project.Base.{◌≡◌, String, refl, Bool, Option, none, some, Bool-cases, inl, inr}
use practical_project.Base.Int.{◌-ℤ◌, ltb_ℤ}
use practical_project.Base.Classes.{Eq}
use practical_project.Redis.{Redis}
use practical_project.Queue.{Key, key_eq, Wire, ReservedJob, Outcome, ok, raised}
use practical_project.Queue.Service.{QueueSettings, Recovered, is_completed}
use practical_project.Queue.Steps.{Reach, here, Reach-trans}
use practical_project.Queue.Paths.{
  AreSteps, reserve-Reach, acknowledge-Reach, retry_or_dead_letter-Reach, recover_stale-Reach,
}
use practical_project.Queue.Loads.{carried, reserve-loads}
use practical_project.Worker.{
  WorkerSettings, process_job, Round, WorkerState, after_recovery, recover_stale_jobs, observe,
  finish_job, started, handle_job, after_reserve, reserved, run_once,
}

module _ {Raw : Type 0} ⦃raw_eq : Eq Raw⦄ (wire : Wire Raw) (redis : Redis Key Raw)
    (settings : QueueSettings) (w : WorkerSettings) (forgets : Bool) where
  open redis use {Db, view}

  after_db :
      (round : Round wire redis settings w) (outcome : Outcome Recovered)
      (s : WorkerState wire redis settings w) {db : Db}
      → Reach wire redis settings forgets db s.db
      → Reach wire redis settings forgets db
          (after_recovery wire redis settings w round outcome s).1.db
  after_db round (raised e) s p = p
  after_db round (ok recovered) s p = p

  recover-Reach :
      (round : Round wire redis settings w) (s : WorkerState wire redis settings w)
      → ((raw : Raw) → AreSteps wire redis settings forgets (round.recovery_conflicts raw))
      → Reach wire redis settings forgets s.db
          (recover_stale_jobs wire redis settings w round s).1.db
  unfolding recover_stale_jobs
  recover-Reach round s others =
      elim (Bool-cases
        (ltb_ℤ (round.monotonic -ℤ s.last_recovery_at) w.recovery_interval_seconds)) [
          | inl soon ↦ rw (recover_stale_jobs, soon) here
          | inr due ↦
              rw (recover_stale_jobs, due)
                (after_db round _ _ (
                  recover_stale-Reach wire redis settings forgets round.recovered_at round.failed_at
                    round.recovery_conflicts s.db others))
        ]

  finish-Reach :
      (round : Round wire redis settings w) (r : ReservedJob Raw) (failure : Option String)
      (s : WorkerState wire redis settings w)
      → wire.loads r.raw ≡ some r.job
      → AreSteps wire redis settings forgets round.failure_conflicts
      → Reach wire redis settings forgets s.db
          (finish_job wire redis settings w round r failure s).db
  finish-Reach round r none s loaded others =
      acknowledge-Reach wire redis settings forgets r s.db loaded
  finish-Reach round r (some reason) s loaded others =
      retry_or_dead_letter-Reach wire redis settings forgets r reason round.failed_at
        round.failure_conflicts s.db loaded others

  handle-Reach :
      (round : Round wire redis settings w) (r : ReservedJob Raw)
      (s : WorkerState wire redis settings w)
      → wire.loads r.raw ≡ some r.job
      → AreSteps wire redis settings forgets round.failure_conflicts
      → Reach wire redis settings forgets s.db (handle_job wire redis settings w round r s).db
  unfolding handle_job observe
  handle-Reach round r s loaded others =
      elim (Bool-cases (is_completed wire redis settings r.job.id s.db)) [
        | inl done ↦
            rw (handle_job, done) (acknowledge-Reach wire redis settings forgets r s.db loaded)
        | inr open_job ↦
            rw (handle_job, open_job)
              (finish-Reach round r (process_job w r.job) (started wire redis settings w s) loaded
                others)
      ]

  after_reserve-Reach :
      (round : Round wire redis settings w) (outcome : Outcome (Option (ReservedJob Raw)))
      (s : WorkerState wire redis settings w)
      → ((r : ReservedJob Raw) → carried outcome ≡ some r → wire.loads r.raw ≡ some r.job)
      → AreSteps wire redis settings forgets round.failure_conflicts
      → Reach wire redis settings forgets s.db
          (after_reserve wire redis settings w round outcome s).1.db
  after_reserve-Reach round (raised e) s loads others = here
  after_reserve-Reach round (ok none) s loads others = here
  after_reserve-Reach round (ok (some r)) s loads others =
      handle-Reach round r s (loads r refl) others

  reserved-Reach :
      (round : Round wire redis settings w) (recovered : Outcome Bool)
      (s : WorkerState wire redis settings w)
      → AreSteps wire redis settings forgets round.failure_conflicts
      → Reach wire redis settings forgets s.db
          (reserved wire redis settings w round (recovered, s)).1.db
  reserved-Reach round (raised e) s others = here
  reserved-Reach round (ok _) s others =
      Reach-trans wire redis settings forgets
        (reserve-Reach wire redis settings forgets round.timeout round.reserved_at s.db)
        (after_reserve-Reach round _ _
          (reserve-loads wire redis settings round.timeout round.reserved_at s.db) others)

  -- A round of the worker, with its recovery, is a sequence of steps of the queue whatever comes of
  -- the job, as long as other clients do steps too between the WATCH and the EXEC of a job that is
  -- handed back: so it forgets no job, makes no copy of one and keeps the retry budget.
  pub run_once-Reach :
      (round : Round wire redis settings w) (s : WorkerState wire redis settings w)
      → ((raw : Raw) → AreSteps wire redis settings forgets (round.recovery_conflicts raw))
      → AreSteps wire redis settings forgets round.failure_conflicts
      → Reach wire redis settings forgets s.db (run_once wire redis settings w round s).1.db
  unfolding run_once
  run_once-Reach round s recovery failure =
      let (recovered, s1) = recover_stale_jobs wire redis settings w round s in
      Reach-trans wire redis settings forgets (recover-Reach round s recovery)
        (reserved-Reach round recovered s1 failure)
