-- ===== src/Chronos.antt =====
-- The forecast service of chronos: settings and forecasts of chronos/chronos_prometheus.py, and the
-- runtime of chronos/app.py. Instants are whole microseconds.
pub mod Engine
pub mod Series
pub mod Runtime
pub mod Sound
pub mod Served
mod Tests
use practical_project.Base.{ℕ, String, Bool, List, Option}
use practical_project.Base.Int.{ℤ}

pub data Mode : Type 0 where
  disabled shadow active : Mode
  other : String → Mode

-- The settings that the forecast and the runtime read.
pub record ForecastSettings (F : Type 0) : Type 0 where
  pub target_deployment : String
  pub target_namespace : String
  pub mode : Mode
  pub threshold_cores : F
  pub capacity_per_replica_cores : F
  pub prediction_length : ℕ
  pub step_seconds : ℕ
  pub min_replicas : ℤ
  pub max_replicas : ℤ
  pub forecast_interval_seconds : ℕ
  pub forecast_ttl_seconds : ℕ
  pub fake_replicas : Option ℤ
  pub model_id : String

pub record ForecastResult (F : Type 0) : Type 0 where
  pub timestamp : ℤ
  pub forecast_start_time : ℤ
  pub forecast_end_time : ℤ
  pub namespace : String
  pub deployment : String
  pub predicted_cpu_usage : F
  pub predicted_max_cpu_pct : F
  pub scale_out_needed : Bool
  pub current_replicas : ℤ
  pub predicted_replicas : ℤ
  pub source_points : ℕ
