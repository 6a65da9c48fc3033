-- ===== src/Finops/Verdict/Outcomes.antt =====
-- What the score means: the risk, the verdict and the values that go with them.
use practical_project.Base.{
  ℕ, ◌+◌, ◌-◌, ◌≤◌, ◌≡◌, ◌∙◌, ap, true, false, ◌⊎◌, none, some, arith, Bool-cases, Option-cases,
  inl, inr,
}
use practical_project.Base.Int.{pos, leb_ℤ}
use practical_project.Float.{Floats, lit}
use practical_project.Finops.{PrometheusMetrics, safe}
use practical_project.Finops.Engine.{Inputs, Draft, predicted_cpu, judged}
use practical_project.Finops.Engine.Kept.{judged-KeepsCurrent}
use practical_project.Finops.Engine.Score.{
  judged-score, cpu_penalty, mem_penalty, oom_penalty, restart_penalty, forecast_penalty, relief,
  data_penalty, relief_le, oom_case, often_case, blind_case, surge_case,
}
use practical_project.Finops.Verdict.{capped, restored, rule_08, decided, risk_of}
use practical_project.Finops.Verdict.Limits.{decided-cpu, decided-mem}

module _ {F : Type 0} (fl : Floats F) (i : Inputs F) where
  open fl use {lt, le, mul}

  restored-cpu : (d : Draft F) → d.final_cpu ≡ i.curr_cpu → (restored i d).final_cpu ≡ i.curr_cpu
  unfolding restored
  restored-cpu d k = ground arith

  restored-mem : (d : Draft F) → d.final_mem ≡ i.curr_mem → (restored i d).final_mem ≡ i.curr_mem
  unfolding restored
  restored-mem d k = ground arith

  -- When an out-of-memory kill or ten or more restarts were measured, and the current CPU request is
  -- not negative, the engine decides on the current requests, lowered to the limits at most: no
  -- recommendation, forecast or later rule changes them.
  pub decided-KeepsCurrent :
      (m : PrometheusMetrics F)
      → i.prom_metrics ≡ some m
      → (m.oom_killed ≡ true) ⊎ (leb_ℤ (pos 10) m.restart_count ≡ true)
      → le (lit fl 0 0) i.curr_cpu ≡ true
      → ((decided fl i).final_cpu ≡ capped fl i.cpu_limit i.curr_cpu)
        × ((decided fl i).final_mem ≡ capped fl i.memory_limit i.curr_mem)
  decided-KeepsCurrent m found bad h =
      let k = judged-KeepsCurrent fl i m found bad h in
      (
        decided-cpu fl i ∙ ap (capped fl i.cpu_limit) (restored-cpu (judged fl i) k.cpu_kept),
        decided-mem fl i ∙ ap (capped fl i.memory_limit) (restored-mem (judged fl i) k.mem_kept),
      )

  restored-score : (d : Draft F) → (restored i d).score ≡ d.score
  unfolding restored
  restored-score d = ground arith

  rule_08-score : (d : Draft F) → (rule_08 fl i d).score ≡ d.score
  unfolding rule_08
  rule_08-score d = omega arith

  pub decided-judged : (decided fl i).score ≡ (judged fl i).score
  unfolding decided
  decided-judged = rule_08-score (restored i (judged fl i)) ∙ restored-score (judged fl i)

  -- The score is the sum of the penalties of rules 1 to 5, less 15 for an idle workload but not below
  -- 0, and then 10 more where the recommendation lacks data.
  pub decided-score :
      (decided fl i).score
      ≡ cpu_penalty fl i
        + mem_penalty fl i
        + oom_penalty fl i
        + restart_penalty fl i
        + forecast_penalty fl i
        - relief fl i
        + data_penalty fl i
  decided-score = decided-judged ∙ judged-score fl i

  safe_lem : (score : ℕ) → risk_of score ≡ safe → score ≤ 34
  unfolding risk_of
  safe_lem score h = ground arith

  measured_case :
      (m : PrometheusMetrics F)
      → i.prom_metrics ≡ some m
      → (decided fl i).score ≤ 34
      → (m.oom_killed ≡ false) × (leb_ℤ (pos 10) m.restart_count ≡ false)
  measured_case m found low = (
    elim (Bool-cases m.oom_killed) [
      | inl oom ↦
          let (p, q) = oom_case fl i m found oom in
          let absurd : ⊥ = omega (arith, decided-score, p, q, low) in elim absurd [ ]
      | inr fine ↦ fine
    ],
    elim (Bool-cases (leb_ℤ (pos 10) m.restart_count)) [
      | inl often ↦
          let absurd : ⊥ =
            omega (arith, decided-score, often_case fl i m found often, relief_le fl i, low) in
          elim absurd [ ]
      | inr fine ↦ fine
    ],
  )

  unmeasured_case :
      i.prom_metrics ≡ none
      → (decided fl i).score ≤ 34
      → (pct : F) × (predicted_cpu i.chronos_forecast ≡ some pct) × (le (lit fl 80 0) pct ≡ false)
  unmeasured_case found low = elim (Option-cases (predicted_cpu i.chronos_forecast)) [
    | inl blind ↦
        let (p, q) = blind_case fl i found blind in
        let absurd : ⊥ = omega (arith, decided-score, p, q, low) in elim absurd [ ]
    | inr (pct, known) ↦ elim (Bool-cases (le (lit fl 80 0) pct)) [
      | inl surge ↦
          let (p, q) = surge_case fl i pct found known surge in
          let absurd : ⊥ = omega (arith, decided-score, p, q, low) in elim absurd [ ]
      | inr calm ↦ (pct, known, calm)
    ]
  ]

  -- The risk SAFE is given on evidence only: either metrics were measured, without an out-of-memory
  -- kill and with fewer than ten restarts, or none were and there is a forecast below 80%.
  pub decided-Safe :
      risk_of (decided fl i).score ≡ safe
      → ((m : PrometheusMetrics F) × (i.prom_metrics ≡ some m)
          × (m.oom_killed ≡ false)
          × (leb_ℤ (pos 10) m.restart_count ≡ false))
        ⊎ (i.prom_metrics ≡ none)
          × ((pct : F) × (predicted_cpu i.chronos_forecast ≡ some pct)
              × (le (lit fl 80 0) pct ≡ false))
  decided-Safe h =
      let low = safe_lem (decided fl i).score h in
      elim (Option-cases i.prom_metrics) [
        | inl found ↦
            let (pct, known, calm) = unmeasured_case found low in inr (found, (pct, known, calm))
        | inr (m, found) ↦
            let (alive, stable) = measured_case m found low in inl (m, found, alive, stable)
      ]
