-- ===== src/Chronos/Tests.antt =====
-- A service with two targets, in fixed-point arithmetic.
use practical_project.Base.{
  ℕ, ◌≡◌, ◌≤◌, length, refl, String, true, false, List, [], ◌∷◌, none, some, All, if◌then◌else◌,
}
use practical_project.Base.Classes.{◌==◌, string_eq}
use practical_project.Base.Int.{ℤ, pos, ◌≤ℤ◌}
use practical_project.Float.Fixed.{fixed}
use practical_project.Chronos.{active, shadow, ForecastSettings, ForecastResult}
use practical_project.Float.Literal.{codes}
use practical_project.Chronos.Series.{Payload, fetch_cpu_series, values_of, value_at}
use practical_project.Chronos.Series.Sorted.{IsIncreasing}
use practical_project.Chronos.Series.Merged.{sum_at, all_samples, fetch_cpu_series-Sums}
use practical_project.Chronos.Engine.{validate, Options, forecast}
use practical_project.Chronos.Engine.Bounds.{forecast-InBounds}
use practical_project.Chronos.Runtime.{
  Outcome, ok, raised, Cell, start, refresh_all_expiry, run_once, find, Prediction, predict,
}
use practical_project.Chronos.Sound.{IsFresh, IsLive, in_time}
use practical_project.Chronos.Served.{
  Event, round, scrape, history, scrape-IsFresh, predict-IsFresh,
}

abbrev worker : ForecastSettings ℤ
worker = record {
  target_deployment = "sample-worker";
  target_namespace = "sample-fastapi";
  mode = active;
  threshold_cores = pos 300000;
  capacity_per_replica_cores = pos 500000;
  prediction_length = 12;
  step_seconds = 60;
  min_replicas = pos 1;
  max_replicas = pos 3;
  forecast_interval_seconds = 60;
  forecast_ttl_seconds = 120;
  fake_replicas = none;
  model_id = "amazon/chronos-2";
}

abbrev frontend : ForecastSettings ℤ
frontend = record worker { target_deployment = "frontend"; mode = shadow }

abbrev service : Options
service = record { preserve_current_when_below_threshold = false; clamp_to_max_replicas = true }

-- A model that predicts 2.2 cores, for which five replicas would be needed.
abbrev surge : List ℤ → ℕ → ℤ
surge values n = pos 2200000

abbrev forecasted : ForecastResult ℤ
forecasted = record {
  timestamp = pos 1000000000;
  forecast_start_time = pos 1000000000;
  forecast_end_time = pos 1720000000;
  namespace = "sample-fastapi";
  deployment = "sample-worker";
  predicted_cpu_usage = pos 2200000;
  predicted_max_cpu_pct = pos 440000000;
  scale_out_needed = true;
  current_replicas = pos 1;
  predicted_replicas = pos 3;
  source_points = 2;
}

forecasted_lem :
    forecast fixed worker service (some (pos 100000 ∷ pos 200000 ∷ [])) surge none (pos 1000000000)
    ≡ some forecasted
unfolding forecast fixed
forecasted_lem = refl

forecast-InBounds_example :
    (pos 1 ≤ℤ forecasted.predicted_replicas) × (forecasted.predicted_replicas ≤ℤ pos 3)
unfolding validate
forecast-InBounds_example =
    forecast-InBounds fixed worker service (some (pos 100000 ∷ pos 200000 ∷ [])) surge none
      (pos 1000000000) forecasted refl refl refl forecasted_lem

-- The worker is forecast, and the forecast of the frontend fails.
abbrev outcomes : String × String → Outcome ℤ × ℤ
outcomes (_, deployment) =
    if deployment == "sample-worker"
    then (ok forecasted, pos 2000000)
    else (raised "no data", pos 1000000)

abbrev events : List (Event ℤ)
events = round outcomes ∷ scrape (pos 1010000000) ∷ []

scrape-IsFresh_example : All (IsFresh (pos 1200000000)) (
    refresh_all_expiry fixed
      (pos 1200000000)
      (history fixed events (start fixed worker (frontend ∷ worker ∷ []))))
scrape-IsFresh_example =
    scrape-IsFresh fixed worker (frontend ∷ worker ∷ []) events (pos 1200000000)

abbrev prediction : Prediction ℤ
prediction = record { result = forecasted; mode = active; model_id = "amazon/chronos-2" }

predict-IsFresh_example :
    (c : Cell ℤ) × (find fixed
        ("sample-fastapi", "sample-worker")
        (predict fixed
          ("sample-fastapi", "sample-worker")
          (pos 1060000000)
          (history fixed events (start fixed worker (frontend ∷ [])))).1
      ≡ some c)
    × IsLive c forecasted
    × (in_time (pos 1060000000) c forecasted ≡ true)
unfolding start run_once refresh_all_expiry predict
predict-IsFresh_example =
    predict-IsFresh fixed worker (frontend ∷ []) events ("sample-fastapi", "sample-worker")
      (pos 1060000000) prediction refl

-- Two results that share an instant.
abbrev payload : Payload
payload = record {
  is_success = true;
  results = ((pos 60, codes "0.2") ∷ (pos 0, codes "0.1") ∷ []) ∷ ((pos 60, codes "0.3") ∷ []) ∷ [];
}

fetch_cpu_series-Sums_example :
    (table : List (ℤ × ℤ)) × (pos 100000 ∷ pos 500000 ∷ [] ≡ values_of table)
    × IsIncreasing table
    × ((key : ℤ) → value_at key table ≡ sum_at fixed key (all_samples fixed payload.results) none)
    × (2 ≤ length (pos 100000 ∷ pos 500000 ∷ []))
unfolding fetch_cpu_series fixed
fetch_cpu_series-Sums_example =
    fetch_cpu_series-Sums fixed 2 payload (pos 100000 ∷ pos 500000 ∷ []) refl
