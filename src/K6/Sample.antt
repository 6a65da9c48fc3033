-- ===== src/K6/Sample.antt =====
-- Two runs of a load test on eleven equal containers, in fixed-point numbers.
use practical_project.Base.{ℕ, List, [], ◌∷◌, Option, none, some, true}
use practical_project.Base.Int.{ℤ, pos}
use practical_project.Float.Literal.{codes}
use practical_project.K6.{Stats, WorkloadRun, Http, Report}
use practical_project.K6.Compare.{Thresholds}

abbrev pub thresholds : Thresholds ℤ
thresholds = record {
  system_error_rate_max = pos 10000;
  business_failure_rate_max = pos 10000;
  offered_rps_deviation_max = pos 10000;
  dropped_iterations_max = pos 0;
  p95_regression_max = pos 100000;
  p99_regression_max = pos 150000;
  successful_throughput_ratio_min = pos 950000;
  cpu_throttling_avg_max = pos 50000;
  cpu_throttling_p95_max = pos 200000;
  oom_increase_max = pos 0;
  restart_increase_max = pos 0;
  require_resource_reduction = true;
}

abbrev pub constantly : Option ℤ → Stats ℤ
constantly x = record { avg = x; p95 = x; max = x }

-- A container with a request and a limit for its CPU.
abbrev pub measured : ℤ → Option ℤ → WorkloadRun ℤ
measured cpu limit = record {
  cpu_usage_cores = constantly (some (pos 100000));
  memory_working_set_bytes = constantly (some (pos 1000000));
  cpu_request_cores_per_replica = constantly (some cpu);
  memory_request_bytes_per_replica = constantly (some (pos 2000000));
  cpu_limit_cores_per_replica = constantly limit;
  memory_limit_bytes_per_replica = constantly (some (pos 4000000));
  cpu_usage_request_ratio = constantly (some (pos 500000));
  memory_usage_request_ratio = constantly (some (pos 500000));
  cpu_throttling_ratio = constantly (some (pos 20000));
  restart_increase = some (pos 0);
  oom_killed_pods = some (pos 0);
  replicas = constantly (some (pos 1000000));
}

abbrev pub eleven : WorkloadRun ℤ → List (List ℕ × WorkloadRun ℤ)
eleven w =
    (codes "a", w)
    ∷ (codes "b", w)
    ∷ (codes "c", w)
    ∷ (codes "d", w)
    ∷ (codes "e", w)
    ∷ (codes "f", w)
    ∷ (codes "g", w)
    ∷ (codes "h", w)
    ∷ (codes "i", w)
    ∷ (codes "j", w)
    ∷ (codes "k", w)
    ∷ []

abbrev pub http : Http ℤ
http = record {
  offered_rps = some (pos 40000000);
  successful_rps = some (pos 39900000);
  dropped_iterations = some (pos 0);
  system_error_rate = some (pos 1000);
  business_failure_rate = some (pos 0);
  p95_ms = some (pos 120000000);
  p99_ms = some (pos 250000000);
}

abbrev pub run_of : List ℕ → WorkloadRun ℤ → Report ℤ ℕ
run_of id w = record {
  run_id = id;
  scenario = codes "boa";
  scenario_sha256 = codes "0f";
  duration_seconds = pos 86400000000;
  application_commit = codes "c0ffee";
  equivalence = λ key. some 1;
  http = http;
  workloads = eleven w;
  collection_warnings = [];
}

abbrev pub pre : Report ℤ ℕ
pre = run_of (codes "pre") (measured (pos 400000) (some (pos 1000000)))

abbrev pub post : Report ℤ ℕ
post = run_of (codes "post") (measured (pos 250000) (some (pos 1000000)))

abbrev pub unlimited : Report ℤ ℕ
unlimited = run_of (codes "post") (measured (pos 250000) none)
