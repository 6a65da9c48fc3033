-- ===== src/Finops/Engine.antt =====
-- The rules of `PolicyEngine.evaluate_optimization` in finops/app/engine.py, each a step on the values
-- that the method builds up.
pub mod Kept
pub mod Order
pub mod Score
use practical_project.Base.{
  ℕ, ◌+◌, ◌-◌, Bool, true, false, not, ◌&&◌, ◌||◌, String, List, [], ◌∷◌, ◌++◌, Option, none, some,
  if◌then◌else◌,
}
use practical_project.Base.Int.{pos, leb_ℤ}
use practical_project.Float.{Floats, lit, fmax}
use practical_project.Finops.{
  PolicyResult, RuleStatus, pass, warn, fail, PrometheusMetrics, ChronosForecast,
}

-- The inputs of the method, its quantities parsed. `cpu_limit` and `memory_limit` are `None` where no
-- limit is given.
pub record Inputs (F : Type 0) : Type 0 where
  pub curr_cpu : F
  pub curr_mem : F
  pub krr_cpu : F
  pub krr_mem : F
  pub prom_metrics : Option (PrometheusMetrics F)
  pub chronos_forecast : Option (ChronosForecast F)
  pub cpu_data_insufficient : Bool
  pub mem_data_insufficient : Bool
  pub cpu_limit : Option F
  pub memory_limit : Option F

-- The local variables `final_cpu`, `final_mem`, `score` and `policy_evals`.
pub record Draft (F : Type 0) : Type 0 where
  pub final_cpu : F
  pub final_mem : F
  pub score : ℕ
  pub policy_evals : List PolicyResult

abbrev pub result : String → RuleStatus → PolicyResult
result id status = record { rule_id = id; status = status }

module _ {F : Type 0} where
  -- `score` grows by the penalty, and the rule is listed.
  abbrev pub noted : ℕ → String → RuleStatus → Draft F → Draft F
  noted penalty id status d = record d {
    score = d.score + penalty;
    policy_evals = d.policy_evals ++ result id status ∷ [];
  }

  abbrev pub with_current : Inputs F → Draft F → Draft F
  with_current i d = record d { final_cpu = i.curr_cpu; final_mem = i.curr_mem }

  abbrev pub predicted_cpu : Option (ChronosForecast F) → Option F
  predicted_cpu none = none
  predicted_cpu (some forecast) = forecast.predicted_max_cpu_pct

  -- The candidate values that the rules start from.
  abbrev pub candidate : Inputs F → Draft F
  candidate i = record {
    final_cpu = i.krr_cpu;
    final_mem = i.krr_mem;
    score = 0;
    policy_evals = [];
  }

module _ {F : Type 0} (fl : Floats F) where
  open fl use {sub, mul, div, lt, le}

  unfoldable pub reduction : F → F → F
  reduction current recommended =
      if lt (lit fl 0 0) current then div (sub current recommended) current else lit fl 0 0

  unfoldable pub rule_01 : Inputs F → Draft F → Draft F
  unfolding reduction
  rule_01 i d =
      if le (lit fl 5 1) (reduction i.curr_cpu i.krr_cpu)
      then noted 25 "RULE_01" warn (record d { final_cpu = mul i.curr_cpu (lit fl 7 1) })
      else noted 0 "RULE_01" pass d

  unfoldable pub rule_02 : Inputs F → Draft F → Draft F
  unfolding reduction
  rule_02 i d =
      if le (lit fl 6 1) (reduction i.curr_mem i.krr_mem)
      then noted 20 "RULE_02" warn (record d { final_mem = mul i.curr_mem (lit fl 6 1) })
      else noted 0 "RULE_02" pass d

  unfoldable pub rule_03 : Inputs F → Draft F → Draft F
  rule_03 i d = elim (i.prom_metrics) [
    | none ↦ noted 15 "RULE_03" warn d
    | some m ↦
        if m.oom_killed
        then noted 60 "RULE_03" fail (with_current i d)
        else noted 0 "RULE_03" pass d
  ]

  unfoldable pub rule_04 : Inputs F → Draft F → Draft F
  rule_04 i d = elim (i.prom_metrics) [
    | none ↦ noted 15 "RULE_04" warn d
    | some m ↦
        if leb_ℤ (pos 10) m.restart_count
        then noted 50 "RULE_04" fail (with_current i d)
        else noted 0 "RULE_04" pass d
  ]

  unfoldable pub rule_05 : Inputs F → Draft F → Draft F
  rule_05 i d = elim (predicted_cpu i.chronos_forecast) [
    | none ↦
        noted 30 "RULE_05" warn
          (record d { final_cpu = fmax fl d.final_cpu (mul i.curr_cpu (lit fl 85 2)) })
    | some pct ↦
        if le (lit fl 80 0) pct
        then noted 45 "RULE_05" warn (record d { final_cpu = i.curr_cpu })
        else noted 0 "RULE_05" pass d
  ]

  -- The condition of rule 6.
  abbrev pub is_idle : Option (PrometheusMetrics F) → Bool
  is_idle none = false
  is_idle (some m) = elim (m.avg_cpu_usage_pct) [
    | none ↦ false
    | some pct ↦ lt pct (lit fl 20 0) && not m.oom_killed
  ]

  -- `score` is a whole number, so `max(0, score - 15)` is the difference that stops at 0.
  unfoldable pub rule_06 : Inputs F → Draft F → Draft F
  rule_06 i d =
      if is_idle i.prom_metrics
      then noted 0 "RULE_06" pass (record d { score = d.score - 15 })
      else noted 0 "RULE_06" pass d

  unfoldable pub rule_07 : Inputs F → Draft F → Draft F
  rule_07 i d =
      if i.cpu_data_insufficient || i.mem_data_insufficient
      then noted 10 "RULE_07" warn d
      else noted 0 "RULE_07" pass d

  unfoldable pub judged : Inputs F → Draft F
  unfolding rule_01 rule_02 rule_03 rule_04 rule_05 rule_06 rule_07
  judged i =
      let cut = rule_02 i (rule_01 i (candidate i)) in
      let stable = rule_04 i (rule_03 i cut) in rule_07 i (rule_06 i (rule_05 i stable))
