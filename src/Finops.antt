-- ===== src/Finops.antt =====
-- The policy engine and the API of finops/app. The records are those of finops/app/schemas.py, with
-- the texts made for readers (names and descriptions of rules) left out.
pub mod Quantity
pub mod Engine
pub mod Verdict
pub mod Service
pub mod Krr
pub mod Prometheus
pub mod Namespace
mod Tests
use practical_project.Base.{ℕ, String, Bool, List, Option}
use practical_project.Base.Int.{ℤ}

pub record ResourceSpec : Type 0 where
  pub cpu : List ℕ
  pub memory : List ℕ

pub data RuleStatus : Type 0 where
  pass warn fail : RuleStatus

pub record PolicyResult : Type 0 where
  pub rule_id : String
  pub status : RuleStatus

pub record PrometheusMetrics (F : Type 0) : Type 0 where
  pub oom_killed : Bool
  pub restart_count : ℤ
  pub avg_cpu_usage_pct : Option F
  pub throttled : Bool

pub record ChronosForecast (F : Type 0) : Type 0 where
  pub predicted_max_cpu_pct : Option F
  pub predicted_max_mem_pct : Option F
  pub predicted_req_per_sec : Option F

pub record RecommendationData : Type 0 where
  pub current : ResourceSpec
  pub krr : ResourceSpec
  pub final : ResourceSpec
  pub krr_cpu_data_insufficient : Bool
  pub krr_memory_data_insufficient : Bool

pub data Risk : Type 0 where
  safe medium high : Risk
