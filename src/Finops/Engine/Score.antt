-- ===== src/Finops/Engine/Score.antt =====
-- The score of rules 1 to 7 as a sum of penalties.
use practical_project.Base.{
  ℕ, ◌+◌, ◌-◌, ◌≤◌, ◌≡◌, refl, true, ◌||◌, none, some, arith, Option-cases, inl, inr, if◌then◌else◌,
}
use practical_project.Base.Int.{pos, leb_ℤ}
use practical_project.Float.{Floats, lit}
use practical_project.Finops.{PrometheusMetrics}
use practical_project.Finops.Engine.{
  Inputs, Draft, candidate, reduction, predicted_cpu, is_idle, rule_01, rule_02, rule_03, rule_04,
  rule_05, rule_06, rule_07, judged,
}

module _ {F : Type 0} (fl : Floats F) (i : Inputs F) where
  open fl use {lt, le, mul}

  unfoldable pub cpu_penalty : ℕ
  unfolding reduction
  cpu_penalty = if le (lit fl 5 1) (reduction fl i.curr_cpu i.krr_cpu) then 25 else 0

  unfoldable pub mem_penalty : ℕ
  unfolding reduction
  mem_penalty = if le (lit fl 6 1) (reduction fl i.curr_mem i.krr_mem) then 20 else 0

  unfoldable pub oom_penalty : ℕ
  oom_penalty = elim (i.prom_metrics) [ none ↦ 15 | some m ↦ if m.oom_killed then 60 else 0 ]

  unfoldable pub restart_penalty : ℕ
  restart_penalty = elim (i.prom_metrics) [
    | none ↦ 15
    | some m ↦ if leb_ℤ (pos 10) m.restart_count then 50 else 0
  ]

  unfoldable pub forecast_penalty : ℕ
  forecast_penalty = elim (predicted_cpu i.chronos_forecast) [
    | none ↦ 30
    | some pct ↦ if le (lit fl 80 0) pct then 45 else 0
  ]

  unfoldable pub relief : ℕ
  relief = if is_idle fl i.prom_metrics then 15 else 0

  unfoldable pub data_penalty : ℕ
  data_penalty = if i.cpu_data_insufficient || i.mem_data_insufficient then 10 else 0

  rule_01-score : (d : Draft F) → (rule_01 fl i d).score ≡ d.score + cpu_penalty
  unfolding rule_01 cpu_penalty reduction
  rule_01-score d = ground arith

  rule_02-score : (d : Draft F) → (rule_02 fl i d).score ≡ d.score + mem_penalty
  unfolding rule_02 mem_penalty reduction
  rule_02-score d = ground arith

  rule_03-score : (d : Draft F) → (rule_03 fl i d).score ≡ d.score + oom_penalty
  unfolding rule_03 oom_penalty
  rule_03-score d = ground arith

  rule_04-score : (d : Draft F) → (rule_04 fl i d).score ≡ d.score + restart_penalty
  unfolding rule_04 restart_penalty
  rule_04-score d = ground arith

  rule_05-score : (d : Draft F) → (rule_05 fl i d).score ≡ d.score + forecast_penalty
  unfolding rule_05 forecast_penalty
  rule_05-score d = ground arith

  rule_06-score : (d : Draft F) → (rule_06 fl i d).score ≡ d.score - relief
  unfolding rule_06 relief
  rule_06-score d = ground arith

  rule_07-score : (d : Draft F) → (rule_07 fl i d).score ≡ d.score + data_penalty
  unfolding rule_07 data_penalty
  rule_07-score d = ground arith

  pub judged-score :
      (judged fl i).score
      ≡ cpu_penalty + mem_penalty + oom_penalty + restart_penalty + forecast_penalty - relief
        + data_penalty
  unfolding judged
  judged-score =
      let d1 = rule_01 fl i (candidate i) in
      let d2 = rule_02 fl i d1 in
      let d3 = rule_03 fl i d2 in
      let d4 = rule_04 fl i d3 in
      let d5 = rule_05 fl i d4 in
      let d6 = rule_06 fl i d5 in
      omega (
        arith,
        rule_01-score (candidate i),
        rule_02-score d1,
        rule_03-score d2,
        rule_04-score d3,
        rule_05-score d4,
        rule_06-score d5,
        rule_07-score d6,
      )

  pub relief_le : relief ≤ 15
  unfolding relief
  relief_le = ground arith

  pub oom_case :
      (m : PrometheusMetrics F)
      → i.prom_metrics ≡ some m
      → m.oom_killed ≡ true
      → (oom_penalty ≡ 60) × (relief ≡ 0)
  unfolding oom_penalty relief
  oom_case m found oom = (
    rw (oom_penalty, found, oom) refl,
    elim (Option-cases (m.avg_cpu_usage_pct)) [
      | inl unknown ↦ rw (relief, found, unknown) refl
      | inr (pct, known) ↦ rw (relief, found, known, oom) (ground arith)
    ],
  )

  pub often_case :
      (m : PrometheusMetrics F)
      → i.prom_metrics ≡ some m
      → leb_ℤ (pos 10) m.restart_count ≡ true
      → restart_penalty ≡ 50
  unfolding restart_penalty
  often_case m found often = rw (restart_penalty, found, often) refl

  pub blind_case :
      i.prom_metrics ≡ none
      → predicted_cpu i.chronos_forecast ≡ none
      → (oom_penalty + restart_penalty + forecast_penalty ≡ 60) × (relief ≡ 0)
  unfolding oom_penalty restart_penalty forecast_penalty relief
  blind_case found blind = (
    rw (oom_penalty, restart_penalty, forecast_penalty, found, blind) refl,
    rw (relief, found) refl,
  )

  -- Without metrics, a forecast of 80% or more.
  pub surge_case :
      (pct : F)
      → i.prom_metrics ≡ none
      → predicted_cpu i.chronos_forecast ≡ some pct
      → le (lit fl 80 0) pct ≡ true
      → (oom_penalty + restart_penalty + forecast_penalty ≡ 75) × (relief ≡ 0)
  unfolding oom_penalty restart_penalty forecast_penalty relief
  surge_case pct found known surge = (
    rw (oom_penalty, restart_penalty, forecast_penalty, found, known, surge) refl,
    rw (relief, found) refl,
  )
