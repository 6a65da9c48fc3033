-- ===== src/K6/Compare/Verdict.antt =====
-- The checks of `compare` in k6/compare_bank_krr_runs.py, their verdict and the cost estimate.
use practical_project.Base.{Bool, false, not, ◌&&◌, ◌||◌, Option, none, some, if◌then◌else◌}
use practical_project.Base.Int.{ℤ, leb_ℤ}
use practical_project.Base.Classes.{Eq}
use practical_project.Float.{Floats, lit}
use practical_project.K6.{Stats, WorkloadRun, Report}
use practical_project.K6.Compare.{
  Thresholds, is_nil, items_of, equivalence_mismatches, zero_f, ratio, request_capacity,
  metrics_complete, aggregate_stability,
}

pub record Checks : Type 0 where
  pub equivalent_inputs : Bool
  pub complete_metrics : Bool
  pub system_error_rate : Bool
  pub business_failure_rate : Bool
  pub offered_rps : Bool
  pub dropped_iterations : Bool
  pub p95_latency : Bool
  pub p99_latency : Bool
  pub successful_throughput : Bool
  pub cpu_throttling_avg : Bool
  pub cpu_throttling_p95 : Bool
  pub oom : Bool
  pub restarts : Bool
  pub resource_reduction : Bool

-- `all(checks.values())`
unfoldable pub every_check : Checks → Bool
every_check c =
    c.equivalent_inputs && c.complete_metrics && c.system_error_rate && c.business_failure_rate
    && c.offered_rps && c.dropped_iterations && c.p95_latency && c.p99_latency
    && c.successful_throughput && c.cpu_throttling_avg && c.cpu_throttling_p95 && c.oom
    && c.restarts && c.resource_reduction

-- A value that is there and meets a test.
abbrev pub holds {ℓ} : {A : Type ℓ} → (A → Bool) → Option A → Bool
holds test none = false
holds test (some a) = test a

module _ {F : Type 0} (fl : Floats F) where
  open fl use {add, sub, mul, div, lt, le, eq}

  -- `abs(x)`
  abbrev pub abs : F → F
  abs x = if lt x (zero_f fl) then sub (zero_f fl) x else x

  -- `x >= y`
  abbrev pub at_least : F → F → Bool
  at_least y x = le y x

  abbrev pub throughput_ratio : Option F → Option F → Option F
  throughput_ratio none after = none
  throughput_ratio (some before) none = none
  throughput_ratio (some before) (some after) =
      if eq before (zero_f fl) then none else some (div after before)

  abbrev pub both_below : ℤ → Option ℤ → Option ℤ → Bool
  both_below limit none after = false
  both_below limit (some before) none = false
  both_below limit (some before) (some after) = leb_ℤ before limit && leb_ℤ after limit

  abbrev pub is_reduced : Option F → Option F → Option F → Option F → Bool
  is_reduced (some pre_cpu) (some post_cpu) (some pre_memory) (some post_memory) =
      lt post_cpu pre_cpu || lt post_memory pre_memory
  is_reduced _ _ _ _ = false

  abbrev pub cpu_request : WorkloadRun F → Stats F
  cpu_request w = w.cpu_request_cores_per_replica

  abbrev pub memory_request : WorkloadRun F → Stats F
  memory_request w = w.memory_request_bytes_per_replica

  module _ {V : Type 0} ⦃v_eq : Eq V⦄ (thresholds : Thresholds F) where
    unfoldable pub checks : Report F V → Report F V → Checks
    unfolding equivalence_mismatches ratio request_capacity metrics_complete aggregate_stability
    checks pre post =
        let pre_items = items_of pre.workloads in
        let post_items = items_of post.workloads in
        let stability = aggregate_stability fl post_items in
        record {
          equivalent_inputs = is_nil (equivalence_mismatches fl pre post);
          complete_metrics =
              metrics_complete fl pre_items pre.collection_warnings
              && metrics_complete fl post_items post.collection_warnings;
          system_error_rate =
              holds (λ (x : F). lt x thresholds.system_error_rate_max) post.http.system_error_rate;
          business_failure_rate =
              holds (λ (x : F). lt x thresholds.business_failure_rate_max)
                post.http.business_failure_rate;
          offered_rps =
              holds (λ (x : F). le (abs x) thresholds.offered_rps_deviation_max)
                (ratio fl post.http.offered_rps pre.http.offered_rps);
          dropped_iterations =
              both_below thresholds.dropped_iterations_max pre.http.dropped_iterations
                post.http.dropped_iterations;
          p95_latency =
              holds (λ (x : F). le x thresholds.p95_regression_max)
                (ratio fl post.http.p95_ms pre.http.p95_ms);
          p99_latency =
              holds (λ (x : F). le x thresholds.p99_regression_max)
                (ratio fl post.http.p99_ms pre.http.p99_ms);
          successful_throughput =
              holds (at_least thresholds.successful_throughput_ratio_min)
                (throughput_ratio pre.http.successful_rps post.http.successful_rps);
          cpu_throttling_avg =
              holds (λ (x : F). lt x thresholds.cpu_throttling_avg_max) stability.throttle_avg_max;
          cpu_throttling_p95 =
              holds (λ (x : F). lt x thresholds.cpu_throttling_p95_max) stability.throttle_p95_max;
          oom = holds (λ (x : F). le x thresholds.oom_increase_max) stability.oom;
          restarts = holds (λ (x : F). le x thresholds.restart_increase_max) stability.restarts;
          resource_reduction =
              not thresholds.require_resource_reduction
              || is_reduced (request_capacity fl cpu_request pre_items)
                  (request_capacity fl cpu_request post_items)
                  (request_capacity fl memory_request pre_items)
                  (request_capacity fl memory_request post_items);
        }

    -- Whether the verdict of `compare` is PASS.
    unfoldable pub compare_passes : Report F V → Report F V → Bool
    unfolding checks every_check
    compare_passes pre post = every_check (checks pre post)

-- `request_cost_estimate`: not calculated, or the costs before and after with their reduction.
pub data CostEstimate (F : Type 0) : Type 0 where
  no_prices no_metrics : CostEstimate F
  estimated : F → F → Option F → CostEstimate F

module _ {F : Type 0} (fl : Floats F) where
  abbrev pub cost_of : F → F → F → F → F → F
  cost_of hours cpu_price memory_price cores bytes =
      fl.mul
        (fl.add (fl.mul cores cpu_price) (fl.mul (fl.div bytes (lit fl 1073741824 0)) memory_price))
        hours

  abbrev pub reduction_of : Option F → Option F
  reduction_of none = none
  reduction_of (some x) = some (fl.sub (zero_f fl) x)

  abbrev pub estimate_from : F → F → F → Option F → Option F → Option F → Option F → CostEstimate F
  estimate_from hours cpu_price memory_price (some cpu_before) (some cpu_after) (some memory_before)
        (some memory_after) =
      let before = cost_of hours cpu_price memory_price cpu_before memory_before in
      let after = cost_of hours cpu_price memory_price cpu_after memory_after in
      estimated before after (reduction_of (ratio fl (some after) (some before)))
  estimate_from hours cpu_price memory_price _ _ _ _ = no_metrics

  -- `estimate_cost`, of the capacities before and after.
  unfoldable pub estimate_cost :
      F → Option F → Option F → Option F → Option F → Option F → Option F → CostEstimate F
  unfolding ratio
  estimate_cost hours none memory_price cpu_before cpu_after memory_before memory_after = no_prices
  estimate_cost hours (some cpu_price) none cpu_before cpu_after memory_before memory_after =
      no_prices
  estimate_cost hours (some cpu_price) (some memory_price) cpu_before cpu_after memory_before
        memory_after =
      estimate_from hours cpu_price memory_price cpu_before cpu_after memory_before memory_after
