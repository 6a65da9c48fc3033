-- ===== src/Worker/Counters.antt =====
-- What a round of the worker of apps/sample-fastapi/worker.py does to its counters.
use practical_project.Base.{
  ◌+◌, ◌≡◌, String, refl, ◌∙◌, Bool, Option, none, some, arith, Bool-cases, inl, inr,
}
use practical_project.Base.Int.{◌-ℤ◌, ltb_ℤ}
use practical_project.Base.Classes.{Eq}
use practical_project.Redis.{Redis}
use practical_project.Queue.{
  Key, key_eq, Wire, ReservedJob, Outcome, ok, raised, Disposal, retry, dead_lettered, missing,
}
use practical_project.Queue.Service.{QueueSettings, Recovered, is_completed}
use practical_project.Worker.{
  WorkerSettings, Metrics, count_failed, count_recovered, process_job, Round, WorkerState,
  after_recovery, recover_stale_jobs, observe, finish_job, started, handle_job, after_reserve,
  reserved, run_once,
}

module _ {Raw : Type 0} ⦃raw_eq : Eq Raw⦄ (wire : Wire Raw) (redis : Redis Key Raw)
    (settings : QueueSettings) (w : WorkerSettings) where
  open redis use {Db, view}

  -- From one reading of the metrics to the next, as many jobs are active, and the two counters of
  -- processed jobs have grown alike.
  pub record IsBalanced (m m' : Metrics) : Type 0 where
    pub active_lem : m'.worker_active_jobs ≡ m.worker_active_jobs
    pub processed_lem :
        m'.queue_processed_total + m.worker_processed_total
        ≡ m.queue_processed_total + m'.worker_processed_total

  IsBalanced-trans : (a b c : Metrics) → IsBalanced a b → IsBalanced b c → IsBalanced a c
  IsBalanced-trans a b c p q = record {
    active_lem = q.active_lem ∙ p.active_lem;
    processed_lem = omega (arith, p.processed_lem, q.processed_lem);
  }

  after-IsBalanced :
      (round : Round wire redis settings w) (outcome : Outcome Recovered)
      (s : WorkerState wire redis settings w)
      → IsBalanced s.metrics (after_recovery wire redis settings w round outcome s).1.metrics
  unfolding count_recovered
  after-IsBalanced round (raised e) s = record { active_lem = refl; processed_lem = refl }
  after-IsBalanced round (ok recovered) s = record { active_lem = refl; processed_lem = refl }

  recover-IsBalanced :
      (round : Round wire redis settings w) (s : WorkerState wire redis settings w)
      → IsBalanced s.metrics (recover_stale_jobs wire redis settings w round s).1.metrics
  unfolding recover_stale_jobs count_recovered
  recover-IsBalanced round s =
      elim (Bool-cases
        (ltb_ℤ (round.monotonic -ℤ s.last_recovery_at) w.recovery_interval_seconds)) [
          | inl soon ↦
              rw (recover_stale_jobs, soon) (record { active_lem = refl; processed_lem = refl })
          | inr due ↦ rw (recover_stale_jobs, due) (after-IsBalanced round _ _)
        ]

  failed-IsBalanced : (d : Disposal) (m : Metrics) → IsBalanced m (count_failed d m)
  unfolding count_failed
  failed-IsBalanced retry m = record { active_lem = refl; processed_lem = refl }
  failed-IsBalanced dead_lettered m = record { active_lem = refl; processed_lem = refl }
  failed-IsBalanced missing m = record { active_lem = refl; processed_lem = refl }

  finish-IsBalanced :
      (round : Round wire redis settings w) (r : ReservedJob Raw) (failure : Option String)
      (s : WorkerState wire redis settings w)
      → IsBalanced s.metrics (finish_job wire redis settings w round r failure s).metrics
  finish-IsBalanced round r none s = record { active_lem = refl; processed_lem = omega arith }
  finish-IsBalanced round r (some reason) s = failed-IsBalanced _ s.metrics

  handle-IsBalanced :
      (round : Round wire redis settings w) (r : ReservedJob Raw)
      (s : WorkerState wire redis settings w)
      → IsBalanced s.metrics (handle_job wire redis settings w round r s).metrics
  unfolding handle_job observe
  handle-IsBalanced round r s = elim (Bool-cases (is_completed wire redis settings r.job.id s.db)) [
    | inl done ↦ rw (handle_job, done) (record { active_lem = refl; processed_lem = refl })
    | inr open_job ↦
        let b = finish-IsBalanced round r (process_job w r.job) (started wire redis settings w s) in
        rw (handle_job, open_job)
          (record { active_lem = omega (arith, b.active_lem); processed_lem = b.processed_lem })
  ]

  reserve-IsBalanced :
      (round : Round wire redis settings w) (outcome : Outcome (Option (ReservedJob Raw)))
      (s : WorkerState wire redis settings w)
      → IsBalanced s.metrics (after_reserve wire redis settings w round outcome s).1.metrics
  reserve-IsBalanced round (raised e) s = record { active_lem = refl; processed_lem = refl }
  reserve-IsBalanced round (ok none) s = record { active_lem = refl; processed_lem = refl }
  reserve-IsBalanced round (ok (some r)) s = handle-IsBalanced round r s

  reserved-IsBalanced :
      (round : Round wire redis settings w) (recovered : Outcome Bool)
      (s : WorkerState wire redis settings w)
      → IsBalanced s.metrics (reserved wire redis settings w round (recovered, s)).1.metrics
  reserved-IsBalanced round (raised e) s = record { active_lem = refl; processed_lem = refl }
  reserved-IsBalanced round (ok _) s = reserve-IsBalanced round _ _

  -- A round leaves the gauge of active jobs as it was, whether its job is processed, fails or is
  -- discarded or there is none, and the two counters of processed jobs grow alike.
  pub run_once-IsBalanced :
      (round : Round wire redis settings w) (s : WorkerState wire redis settings w)
      → IsBalanced s.metrics (run_once wire redis settings w round s).1.metrics
  unfolding run_once
  run_once-IsBalanced round s =
      let (recovered, s1) = recover_stale_jobs wire redis settings w round s in
      IsBalanced-trans s.metrics s1.metrics _ (recover-IsBalanced round s)
        (reserved-IsBalanced round recovered s1)
