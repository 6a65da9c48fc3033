-- ===== src/K6/Collect.antt =====
-- The collection of one run in k6/collect_bank_krr_run.py. A query is a constructor with the container
-- that is put into its text; what Prometheus answers is an arbitrary function of the query. `fmean`
-- of the statistics library and `sum` of floats are parameters.
pub mod Report
pub mod Warned
use practical_project.Base.{
  ℕ, zero, suc, ◌-◌, ◌*◌, ◌<◌, Bool, true, false, not, ◌&&◌, List, [], ◌∷◌, ◌++◌, Option, none,
  some, length, ltb, ◌==◌, if◌then◌else◌,
}
use practical_project.Base.Int.{ℤ, pos, negsuc}
use practical_project.Base.Classes.{nat_eq}
use practical_project.Base.Raises.{◌>>=◌}
use practical_project.Float.{Floats, lit, decimal}
use practical_project.Float.Literal.{codes, span_digits, value, value_from, float_of}
use practical_project.Chronos.Series.{Payload, merge_results, sort, values_of}
use practical_project.K6.{Stats, WorkloadRun}

-- `parse_duration_seconds`, and `none` where it raises.
abbrev pub unit_seconds : List ℕ → Option ℕ
unit_seconds (c ∷ []) =
    if c == 109
    then some 60
    else if c == 104
    then some 3600
    else if c == 100
    then some 86400
    else if c == 119
    then some 604800
    else none
unit_seconds _ = none

abbrev pub starts_with_zero : List ℕ → Bool
starts_with_zero [] = true
starts_with_zero (c ∷ cs) = c == 48

unfoldable pub parse_duration_seconds : List ℕ → Option ℕ
unfolding span_digits value_from
parse_duration_seconds text =
    let (digits, unit) = span_digits text in
    if starts_with_zero digits
    then none
    else elim (unit_seconds unit) [ none ↦ none | some seconds ↦ some (value digits * seconds) ]

-- A container of `WORKLOADS`.
pub record Container : Type 0 where
  pub namespace : List ℕ
  pub workload : List ℕ
  pub container : List ℕ

pub data RangeQuery : Type 0 where
  cpu_usage memory_usage cpu_request memory_request cpu_limit memory_limit cpu_ratio memory_ratio
        throttle replicas :
      Container → RangeQuery
  worker_nodes karpenter_nodes : RangeQuery

pub data InstantQuery : Type 0 where
  restart oom : Container → InstantQuery

-- The answer to an instant query: whether its status is `success`, and the text of each series.
pub record Instant : Type 0 where
  pub is_success : Bool
  pub values : List (Option (List ℕ))

-- What Prometheus answers, `none` where the request fails or its body is no JSON.
pub record Answers : Type 0 where
  pub range : RangeQuery → Option Payload
  pub instant : InstantQuery → Option Instant

module _ {F : Type 0} (fl : Floats F) where
  open fl use {add, sub, mul, lt, is_finite}

  abbrev pub finite : List F → List F
  finite [] = []
  finite (x ∷ xs) = let rest = finite xs in if is_finite x then x ∷ rest else rest

  abbrev pub insert_value : F → List F → List F
  insert_value x [] = x ∷ []
  insert_value x (y ∷ ys) =
      let behind = insert_value x ys in if lt y x then y ∷ behind else x ∷ y ∷ ys

  -- `sorted(values)` of numbers that are finite.
  unfoldable pub sorted : List F → List F
  sorted [] = []
  sorted (x ∷ xs) = insert_value x (sorted xs)

  abbrev pub element : List F → ℕ → Option F
  element [] i = none
  element (x ∷ xs) zero = some x
  element (x ∷ xs) (suc i) = element xs i

  abbrev pub element_at : List F → ℤ → Option F
  element_at xs (pos i) = element xs i
  element_at xs (negsuc i) = none

  abbrev pub float_of_ℤ : ℤ → F
  float_of_ℤ (pos n) = fl.of_numeral (decimal false n (pos 0))
  float_of_ℤ (negsuc n) = fl.of_numeral (decimal true (suc n) (pos 0))

  abbrev pub is_same : ℤ → ℤ → Bool
  is_same (pos a) (pos b) = a == b
  is_same (negsuc a) (negsuc b) = a == b
  is_same _ _ = false

  abbrev pub between : List F → F → ℤ → ℤ → Option F
  between ordered position lower upper = do
    low ← element_at ordered lower
    high ← element_at ordered upper
    some (
        if is_same lower upper
        then low
        else add low (mul (sub high low) (sub position (float_of_ℤ lower))))

  -- `percentile` of values that are there; `floor` of a position, which is not negative, drops its
  -- fraction.
  unfoldable pub percentile : List F → F → Option F
  unfolding sorted
  percentile values fraction =
      let position = mul (float_of_ℤ (pos (length values - 1))) fraction in
      do
        lower ← fl.truncate position
        upper ← fl.ceil position
        between (sorted values) position lower upper

  abbrev pub max_from : F → List F → F
  max_from m [] = m
  max_from m (x ∷ xs) = max_from (if lt m x then x else m) xs

  module _ (fmean float_sum : List F → F) where
    abbrev pub stats_of : List F → Option (Stats F)
    stats_of [] = some (record { avg = none; p95 = none; max = none })
    stats_of (x ∷ xs) = do
      p ← percentile (x ∷ xs) (lit fl 95 2)
      some (record {
        avg = some (fl.round_to 6 (fmean (x ∷ xs)));
        p95 = some (fl.round_to 6 p);
        max = some (fl.round_to 6 (max_from x xs));
      })

    -- `stats`
    unfoldable pub stats : List F → Option (Stats F)
    unfolding percentile
    stats values = stats_of (finite values)

    abbrev pub values_in : Payload → Option (List F)
    values_in payload =
        let series = merge_results fl payload.results [] in
        if payload.is_success then (series >>= λ s. some (values_of (sort s))) else none

    -- The values of an instant query that are finite; `none` where a text is no number.
    abbrev pub instant_values : List (Option (List ℕ)) → Option (List F)
    instant_values [] = some []
    instant_values (none ∷ rest) = instant_values rest
    instant_values (some raw ∷ rest) = do
      n ← float_of raw
      xs ← instant_values rest
      some (if is_finite (fl.of_numeral n) then fl.of_numeral n ∷ xs else xs)

    abbrev pub total : List F → Option F
    total [] = none
    total (x ∷ xs) = some (float_sum (x ∷ xs))

    module _ (answers : Answers) where
      -- `range_stats` and `instant_value`, `none` where they raise.
      unfoldable pub range_stats : RangeQuery → Option (Stats F)
      unfolding merge_results sort stats
      range_stats q = do payload ← answers.range q; values ← values_in payload; stats values

      unfoldable pub instant_value : InstantQuery → Option (Option F)
      unfolding float_of
      instant_value q = do
        answer ← answers.instant q
        values ← instant_values answer.values
        if answer.is_success then some (total values) else none

      -- `collect_workload`
      unfoldable pub collect_workload : Container → Option (WorkloadRun F)
      unfolding range_stats instant_value
      collect_workload c = do
        usage ← range_stats (cpu_usage c)
        memory ← range_stats (memory_usage c)
        requested_cpu ← range_stats (cpu_request c)
        requested_memory ← range_stats (memory_request c)
        limit_cpu ← range_stats (cpu_limit c)
        limit_memory ← range_stats (memory_limit c)
        used_cpu ← range_stats (cpu_ratio c)
        used_memory ← range_stats (memory_ratio c)
        throttled ← range_stats (throttle c)
        restarts ← instant_value (restart c)
        kills ← instant_value (oom c)
        copies ← range_stats (replicas c)
        some (record {
          cpu_usage_cores = usage;
          memory_working_set_bytes = memory;
          cpu_request_cores_per_replica = requested_cpu;
          memory_request_bytes_per_replica = requested_memory;
          cpu_limit_cores_per_replica = limit_cpu;
          memory_limit_bytes_per_replica = limit_memory;
          cpu_usage_request_ratio = used_cpu;
          memory_usage_request_ratio = used_memory;
          cpu_throttling_ratio = throttled;
          restart_increase = restarts;
          oom_killed_pods = kills;
          replicas = copies;
        })
