-- ===== src/K6.antt =====
-- The reports of a load test of k6: what k6/collect_bank_krr_run.py writes and
-- k6/compare_bank_krr_runs.py reads. A number that is `None`, or a key that is missing, is `none`.
pub mod Collect
pub mod Compare
mod Sample
mod Tests
use practical_project.Base.{ℕ, List, Option}
use practical_project.Base.Int.{ℤ}

pub record Stats (F : Type 0) : Type 0 where
  pub avg : Option F
  pub p95 : Option F
  pub max : Option F

-- What is collected for one container.
pub record WorkloadRun (F : Type 0) : Type 0 where
  pub cpu_usage_cores : Stats F
  pub memory_working_set_bytes : Stats F
  pub cpu_request_cores_per_replica : Stats F
  pub memory_request_bytes_per_replica : Stats F
  pub cpu_limit_cores_per_replica : Stats F
  pub memory_limit_bytes_per_replica : Stats F
  pub cpu_usage_request_ratio : Stats F
  pub memory_usage_request_ratio : Stats F
  pub cpu_throttling_ratio : Stats F
  pub restart_increase : Option F
  pub oom_killed_pods : Option F
  pub replicas : Stats F

-- The numbers of the summary of k6 that a comparison reads.
pub record Http (F : Type 0) : Type 0 where
  pub offered_rps : Option F
  pub successful_rps : Option F
  pub dropped_iterations : Option ℤ
  pub system_error_rate : Option F
  pub business_failure_rate : Option F
  pub p95_ms : Option F
  pub p99_ms : Option F

-- What has to be the same in both runs, beside the scenario, the duration and the commit.
pub data EquivalenceKey : Type 0 where
  application_image loadgen_image scenario_config db_state_id autoscaling node_pool : EquivalenceKey

-- A report. The values of the equivalence metadata are of a type `V`, and those of identifiers of
-- workloads are texts.
pub record Report (F V : Type 0) : Type 0 where
  pub run_id : List ℕ
  pub scenario : List ℕ
  pub scenario_sha256 : List ℕ
  pub duration_seconds : F
  pub application_commit : List ℕ
  pub equivalence : EquivalenceKey → Option V
  pub http : Http F
  pub workloads : List (List ℕ × WorkloadRun F)
  pub collection_warnings : List (List ℕ)
