-- ===== src/K6/Compare.antt =====
-- The comparison of two load tests in k6/compare_bank_krr_runs.py: the checks and the verdict.
pub mod Verdict
pub mod Inputs
pub mod Stability
pub mod Rows
pub mod Passed
use practical_project.Base.{
  ℕ, Bool, true, false, not, ◌&&◌, ◌||◌, List, [], ◌∷◌, ◌++◌, Option, none, some, length, ◌==◌,
  if◌then◌else◌,
}
use practical_project.Base.Int.{ℤ, leb_ℤ}
use practical_project.Base.Raises.{◌>>=◌}
use practical_project.Base.Classes.{Eq, nat_eq, ◌==◌ as equals}
use practical_project.Base.Equality.{list_eq, option_eq}
use practical_project.Float.{Floats, lit}
use practical_project.K6.{
  Stats, WorkloadRun, Http, EquivalenceKey, application_image, loadgen_image, scenario_config,
  db_state_id, autoscaling, node_pool, Report,
}

pub record Thresholds (F : Type 0) : Type 0 where
  pub system_error_rate_max : F
  pub business_failure_rate_max : F
  pub offered_rps_deviation_max : F
  pub dropped_iterations_max : ℤ
  pub p95_regression_max : F
  pub p99_regression_max : F
  pub successful_throughput_ratio_min : F
  pub cpu_throttling_avg_max : F
  pub cpu_throttling_p95_max : F
  pub oom_increase_max : F
  pub restart_increase_max : F
  pub require_resource_reduction : Bool

-- What `aggregate_stability` returns.
pub record Aggregates (F : Type 0) : Type 0 where
  pub oom : Option F
  pub restarts : Option F
  pub throttle_avg_max : Option F
  pub throttle_p95_max : Option F

-- An entry of `equivalence_mismatches`.
pub data Mismatch : Type 0 where
  scenario scenario_sha256 duration_seconds application_commit : Mismatch
  equivalence : EquivalenceKey → Mismatch

abbrev pub equivalence_keys : List EquivalenceKey
equivalence_keys =
    application_image ∷ loadgen_image ∷ scenario_config ∷ db_state_id ∷ autoscaling ∷ node_pool ∷ []

abbrev pub is_some : {A : Type 0} → Option A → Bool
is_some none = false
is_some (some a) = true

abbrev pub is_nil : {A : Type 0} → List A → Bool
is_nil [] = true
is_nil (x ∷ xs) = false

-- A mismatch is listed where its test fails.
abbrev pub noted_unless : Bool → Mismatch → List Mismatch
noted_unless true m = []
noted_unless false m = m ∷ []

abbrev pub items_of : {F : Type 0} → List (List ℕ × WorkloadRun F) → List (WorkloadRun F)
items_of [] = []
items_of ((id, item) ∷ rest) = item ∷ items_of rest

module _ {F : Type 0} where
  abbrev pub throttle_avg : WorkloadRun F → Option F
  throttle_avg item = item.cpu_throttling_ratio.avg

  abbrev pub throttle_p95 : WorkloadRun F → Option F
  throttle_p95 item = item.cpu_throttling_ratio.p95

  -- The values of all items, and `none` if one is missing.
  abbrev pub each_value : (WorkloadRun F → Option F) → List (WorkloadRun F) → Option (List F)
  each_value value [] = some []
  each_value value (item ∷ items) = do x ← value item; xs ← each_value value items; some (x ∷ xs)

module _ {F V : Type 0} (fl : Floats F) ⦃v_eq : Eq V⦄ where
  abbrev pub key_mismatches :
      (EquivalenceKey → Option V)
      → (EquivalenceKey → Option V)
      → List EquivalenceKey
      → List Mismatch
  key_mismatches before after [] = []
  key_mismatches before after (key ∷ keys) =
      noted_unless (equals (before key) (after key)) (equivalence key)
      ++ key_mismatches before after keys

  unfoldable pub equivalence_mismatches : Report F V → Report F V → List Mismatch
  equivalence_mismatches pre post =
      noted_unless (equals pre.scenario post.scenario) scenario
      ++ (noted_unless (equals pre.scenario_sha256 post.scenario_sha256) scenario_sha256
          ++ (noted_unless (fl.eq pre.duration_seconds post.duration_seconds) duration_seconds
              ++ (noted_unless (equals pre.application_commit post.application_commit)
                    application_commit
                  ++ key_mismatches pre.equivalence post.equivalence equivalence_keys)))

module _ {F : Type 0} (fl : Floats F) where
  open fl use {add, sub, mul, div, lt, le, eq}

  abbrev pub zero_f : F
  zero_f = lit fl 0 0

  -- `ratio(after, before)`
  unfoldable pub ratio : Option F → Option F → Option F
  ratio none before = none
  ratio (some after) none = none
  ratio (some after) (some before) =
      if eq before zero_f then none else some (div (sub after before) before)

  abbrev pub capacity_from : (WorkloadRun F → Stats F) → F → List (WorkloadRun F) → Option F
  capacity_from resource total [] = some total
  capacity_from resource total (item ∷ items) = do
    request ← (resource item).avg
    replicas ← item.replicas.avg
    capacity_from resource (add total (mul request replicas)) items

  -- `request_capacity`
  unfoldable pub request_capacity : (WorkloadRun F → Stats F) → List (WorkloadRun F) → Option F
  request_capacity resource items =
      if length items == 11 then capacity_from resource zero_f items else none

  abbrev pub is_set : Option F → Bool
  is_set none = false
  is_set (some x) = not (eq x zero_f)

  unfoldable pub cpu_limited : WorkloadRun F → Bool
  cpu_limited item = is_set item.cpu_limit_cores_per_replica.avg

  -- Whether an item has every metric that is required.
  abbrev pub item_complete : WorkloadRun F → Bool
  item_complete item =
      is_some item.cpu_request_cores_per_replica.avg
      && is_some item.memory_request_bytes_per_replica.avg
      && is_some item.oom_killed_pods
      && is_some item.restart_increase
      && is_some item.replicas.avg
      && (not (cpu_limited item)
          || is_some item.cpu_throttling_ratio.avg && is_some item.cpu_throttling_ratio.p95)

  abbrev pub every_complete : List (WorkloadRun F) → Bool
  every_complete [] = true
  every_complete (item ∷ items) = item_complete item && every_complete items

  unfoldable pub metrics_complete : List (WorkloadRun F) → List (List ℕ) → Bool
  unfolding cpu_limited
  metrics_complete items warnings = length items == 11 && is_nil warnings && every_complete items

  abbrev pub limited : List (WorkloadRun F) → List (WorkloadRun F)
  limited [] = []
  limited (item ∷ items) =
      let others = limited items in if cpu_limited item then item ∷ others else others

  abbrev pub sum_from : F → List F → F
  sum_from acc [] = acc
  sum_from acc (x ∷ xs) = sum_from (add acc x) xs

  -- `max` of Python, which keeps the first of equal values.
  abbrev pub max_from : F → List F → F
  max_from m [] = m
  max_from m (x ∷ xs) = max_from (if lt m x then x else m) xs

  abbrev pub max_of : List F → Option F
  max_of [] = none
  max_of (x ∷ xs) = some (max_from x xs)

  abbrev pub total_of : (WorkloadRun F → Option F) → List (WorkloadRun F) → Option F
  total_of value [] = none
  total_of value (item ∷ items) = do xs ← each_value value (item ∷ items); some (sum_from zero_f xs)

  unfoldable pub aggregate_stability : List (WorkloadRun F) → Aggregates F
  unfolding cpu_limited
  aggregate_stability items = record {
    oom = total_of (λ (w : WorkloadRun F). w.oom_killed_pods) items;
    restarts = total_of (λ (w : WorkloadRun F). w.restart_increase) items;
    throttle_avg_max = each_value throttle_avg (limited items) >>= max_of;
    throttle_p95_max = each_value throttle_p95 (limited items) >>= max_of;
  }
