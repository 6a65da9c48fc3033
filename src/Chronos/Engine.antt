-- ===== src/Chronos/Engine.antt =====
-- `ForecastSettings.validate` and `ForecastEngine.forecast` of chronos/chronos_prometheus.py.
pub mod Bounds
use practical_project.Base.{
  ℕ, suc, ◌*◌, Bool, true, false, not, ◌&&◌, List, [], ◌∷◌, Option, none, some, length, ltb,
  and_then, if◌then◌else◌,
}
use practical_project.Base.Int.{ℤ, pos, negsuc, ◌+ℤ◌, ltb_ℤ, leb_ℤ}
use practical_project.Float.{Floats, lit, decimal, fmax}
use practical_project.Chronos.{
  Mode, disabled, shadow, active, other, ForecastSettings, ForecastResult,
}

-- The checks of `validate` that can fail, in its order.
pub data SettingsError : Type 0 where
  bad_mode bad_bounds bad_ttl bad_fake : SettingsError

abbrev pub is_valid_mode : Mode → Bool
is_valid_mode (other _) = false
is_valid_mode _ = true

abbrev pub fake_is_bad : Option ℤ → Bool
fake_is_bad none = false
fake_is_bad (some n) = leb_ℤ n (pos 0)

unfoldable pub validate : {F : Type 0} → ForecastSettings F → Option SettingsError
validate s =
    if not (is_valid_mode s.mode)
    then some bad_mode
    else if ltb_ℤ s.max_replicas s.min_replicas
    then some bad_bounds
    else if ltb s.forecast_ttl_seconds s.forecast_interval_seconds
    then some bad_ttl
    else if fake_is_bad s.fake_replicas
    then some bad_fake
    else none

abbrev pub max_ℤ : ℤ → ℤ → ℤ
max_ℤ a b = if ltb_ℤ a b then b else a

abbrev pub min_ℤ : ℤ → ℤ → ℤ
min_ℤ a b = if ltb_ℤ b a then b else a

-- The arguments of the constructor that choose between the service and the command line.
pub record Options : Type 0 where
  pub preserve_current_when_below_threshold : Bool
  pub clamp_to_max_replicas : Bool

module _ {F : Type 0} (fl : Floats F) where
  open fl use {of_numeral, mul, div, lt, round_to, ceil}

  -- An integer as a float.
  abbrev pub float_of_int : ℤ → F
  float_of_int (pos n) = of_numeral (decimal false n (pos 0))
  float_of_int (negsuc n) = of_numeral (decimal true (suc n) (pos 0))

  -- `Chronos2Model.predict_max`, over the largest median that the model forecasts.
  unfoldable pub predict_max : (List F → ℕ → F) → List F → ℕ → F
  predict_max largest_median values prediction_length =
      fmax fl (lit fl 0 0) (largest_median values prediction_length)

  abbrev pub bounded : ForecastSettings F → Options → ℤ → ℤ
  bounded s options needed =
      let enough = max_ℤ s.min_replicas needed in
      if options.clamp_to_max_replicas then min_ℤ s.max_replicas enough else enough

  -- The replicas for a demand, `none` where `math.ceil` raises.
  unfoldable pub replicas_for : ForecastSettings F → Options → ℤ → F → Option ℤ
  replicas_for s options current predicted_cpu =
      if options.preserve_current_when_below_threshold && not (lt s.threshold_cores predicted_cpu)
      then some current
      else and_then (ceil (div predicted_cpu s.capacity_per_replica_cores))
          (λ (needed : ℤ). some (bounded s options needed))

  abbrev pub result_of : ForecastSettings F → ℤ → ℤ → ℕ → F → ℤ → ForecastResult F
  result_of s now current points predicted_cpu replicas = record {
    timestamp = now;
    forecast_start_time = now;
    forecast_end_time = now +ℤ pos (s.prediction_length * s.step_seconds * 1000000);
    namespace = s.target_namespace;
    deployment = s.target_deployment;
    predicted_cpu_usage = round_to 6 predicted_cpu;
    predicted_max_cpu_pct =
        round_to 3 (mul (div predicted_cpu s.capacity_per_replica_cores) (lit fl 100 0));
    scale_out_needed = lt s.threshold_cores predicted_cpu;
    current_replicas = current;
    predicted_replicas = replicas;
    source_points = points;
  }

  -- The values and the demand: those of a fixed count of replicas if there is one, or else those of
  -- the series, `none` where fetching it raises.
  unfoldable pub demand :
      ForecastSettings F → Option (List F) → (List F → ℕ → F) → Option (List F × F)
  unfolding predict_max
  demand s fetched model = elim (s.fake_replicas) [
    | some n ↦ some ([], mul (float_of_int n) s.capacity_per_replica_cores)
    | none ↦ elim fetched [
      | none ↦ none
      | some values ↦ some (values, predict_max model values s.prediction_length)
    ]
  ]

  abbrev pub replicas_now : ForecastSettings F → Option ℤ → ℤ
  replicas_now s none = s.min_replicas
  replicas_now s (some n) = n

  -- `provided` is the count that `current_replicas_provider` returns, if the engine has one.
  unfoldable pub finished :
      ForecastSettings F → Options → Option ℤ → ℤ → List F × F → Option (ForecastResult F)
  unfolding ◌+ℤ◌ replicas_for
  finished s options provided now (values, predicted_cpu) =
      let current = replicas_now s provided in
      and_then (replicas_for s options current predicted_cpu)
        (λ (replicas : ℤ). some (result_of s now current (length values) predicted_cpu replicas))

  unfoldable pub forecast :
      ForecastSettings F
      → Options
      → Option (List F)
      → (List F → ℕ → F)
      → Option ℤ
      → ℤ
      → Option (ForecastResult F)
  unfolding demand finished
  forecast s options fetched model provided now =
      and_then (demand s fetched model) (finished s options provided now)
