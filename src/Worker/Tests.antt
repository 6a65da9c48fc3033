-- ===== src/Worker/Tests.antt =====
-- A round of the worker at a busy queue: job `b` is stale and given up, and job `a` is processed.
use practical_project.Base.{◌≡◌, refl, false, true, [], ◌∷◌}
use practical_project.Base.Int.{pos}
use practical_project.Base.Classes.{string_eq, nat_eq}
use practical_project.Base.Equality.{bool_eq, pair_eq, option_eq, list_eq}
use practical_project.Queue.{ok}
use practical_project.Queue.Sample.{wire, server, settings, busy}
use practical_project.Queue.Steps.{Reach}
use practical_project.Worker.{WorkerSettings, Metrics, Round, WorkerState, run_once}
use practical_project.Worker.Rounds.{run_once-Reach}
use practical_project.Worker.Counters.{IsBalanced, run_once-IsBalanced}

abbrev pace : WorkerSettings
pace = record {
  processing_seconds = pos 250_000;
  job_timeout_seconds = pos 30_000_000;
  recovery_interval_seconds = pos 10_000_000;
}

abbrev unread : Metrics
unread = record {
  queue_failed_total = 0;
  queue_processed_total = 0;
  queue_retry_total = 0;
  queue_recovered_total = 0;
  queue_dead_letter_total = 0;
  worker_processed_total = 0;
  worker_active_jobs = 0;
  queue_length_gauge = 0;
  queue_processing_gauge = 0;
  queue_dead_letter_gauge = 0;
  processing_durations = [];
}

abbrev first : Round wire server settings pace
first = record {
  timeout = pos 1;
  monotonic = pos 20_000_000;
  recovered_at = 100;
  reserved_at = 101;
  failed_at = 102;
  elapsed = 250_100;
  recovery_conflicts = λ raw. [];
  failure_conflicts = [];
}

abbrev idle : WorkerState wire server settings pace
idle = record { db = busy; last_recovery_at = pos 0; metrics = unread }

abbrev read : Metrics
read = record unread {
  queue_processed_total = 1;
  queue_recovered_total = 1;
  queue_dead_letter_total = 1;
  worker_processed_total = 1;
  queue_dead_letter_gauge = 2;
  processing_durations = 250_100 ∷ [];
}

test_first :
    ((run_once wire server settings pace first idle).0 ≡ ok true)
    × ((run_once wire server settings pace first idle).1.metrics ≡ read)
unfolding run_once
test_first = (refl, refl)

run_once-Reach_example :
    Reach wire server settings false busy (run_once wire server settings pace first idle).1.db
run_once-Reach_example = run_once-Reach wire server settings pace false first idle (λ raw. tt) tt

run_once-IsBalanced_example :
    IsBalanced wire server settings pace unread
      (run_once wire server settings pace first idle).1.metrics
run_once-IsBalanced_example = run_once-IsBalanced wire server settings pace first idle
