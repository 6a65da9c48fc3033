-- ===== src/K6/Tests.antt =====
-- Comparisons of two runs, and a run that is collected without Prometheus.
use practical_project.Base.{ℕ, ◌≡◌, refl, true, false, List, [], ◌∷◌, none, some, inl, All}
use practical_project.Base.Int.{ℤ, pos}
use practical_project.Base.Classes.{nat_eq}
use practical_project.Float.Fixed.{fixed}
use practical_project.Float.Literal.{codes}
use practical_project.K6.{WorkloadRun, Report}
use practical_project.K6.Compare.{Thresholds, items_of, cpu_limited}
use practical_project.K6.Compare.Verdict.{compare_passes}
use practical_project.K6.Compare.Rows.{throttling_stable}
use practical_project.K6.Compare.Passed.{
  IsAccepted, compare_passes-IsAccepted, compare_passes-Unlimited,
}
use practical_project.K6.Collect.{Answers, parse_duration_seconds, stats}
use practical_project.K6.Collect.Report.{Arguments, Summary, done, Window, validate, collect_run}
use practical_project.K6.Collect.Warned.{collect_run-Unanswered}
use practical_project.K6.Sample.{thresholds, pre, post, unlimited}

passing : compare_passes fixed thresholds pre post ≡ true
unfolding fixed compare_passes
passing = refl

compare_passes-IsAccepted_example : IsAccepted fixed thresholds pre post
compare_passes-IsAccepted_example = compare_passes-IsAccepted fixed thresholds pre post passing

compare_passes-Unlimited_example :
    (compare_passes fixed thresholds pre unlimited ≡ false)
    × All
        (λ (w : WorkloadRun ℤ). throttling_stable fixed thresholds w ≡ true)
        (items_of unlimited.workloads)
unfolding cpu_limited
compare_passes-Unlimited_example =
    compare_passes-Unlimited fixed thresholds pre unlimited
      (refl, (refl, (refl, (refl, (refl, (refl, (refl, (refl, (refl, (refl, (refl, tt)))))))))))

day : parse_duration_seconds (codes "24h") ≡ some 86400
unfolding parse_duration_seconds
day = refl

abbrev mean : List ℤ → ℤ
mean [] = pos 0
mean (x ∷ xs) = x

collected_stats :
    stats fixed mean mean (pos 3000000 ∷ pos 1000000 ∷ pos 2000000 ∷ [])
    ≡ some (record { avg = some (pos 3000000); p95 = some (pos 2900000); max = some (pos 3000000) })
unfolding fixed stats
collected_stats = refl

abbrev silent : Answers
silent = record { range = λ q. none; instant = λ q. none }

abbrev arguments : Arguments ℤ ℕ
arguments = record {
  run_id = codes "r1";
  phase = codes "pre";
  start = pos 0;
  end_at = pos 86400000000;
  application_commit = codes "c0ffee";
  scenario = codes "boa";
  scenario_sha256 = codes "0f";
  krr_history_duration = codes "24h";
  krr_executed_at = some (pos 86460000000);
  krr_max_end_offset_seconds = 300;
  has_krr_results = true;
  equivalence = λ key. some 1;
}

abbrev summary : Summary ℤ
summary = record {
  run_id = some (codes "r1");
  phase = some (codes "pre");
  offered_count = some (pos 1000);
  system_count = some (pos 1);
  business_count = none;
  dropped_count = none;
  offered_rate = some (pos 40000000);
  successful_rate = some (pos 39900000);
  latency_p95 = some (pos 120000000);
  latency_p99 = some (pos 250000000);
}

abbrev window : Window
window = record {
  executed_at = pos 86460000000;
  effective_started_at = pos 60000000;
  experiment_end_offset_seconds = pos 60;
}

accepted : validate arguments summary ≡ done (some window)
unfolding validate
accepted = refl

collect_run-Unanswered_example :
    (r : Report ℤ ℕ) × (collect_run fixed mean mean silent arguments summary
      ≡ done (r, some window))
    × ((t : Thresholds ℤ) (other : Report ℤ ℕ)
        → (compare_passes fixed t r other ≡ false) × (compare_passes fixed t other r ≡ false))
collect_run-Unanswered_example =
    collect_run-Unanswered fixed mean mean silent arguments summary (some window)
      (inl (inl (inl refl))) accepted
