-- ===== src/Finops/Engine/Kept.antt =====
-- When rules 1 to 7 keep what a workload already requests.
use practical_project.Base.{
  ◌⊎◌, ◌≡◌, refl, ◌∙◌, true, some, arith, Bool-cases, Option-cases, inl, inr,
}
use practical_project.Base.Int.{pos, leb_ℤ}
use practical_project.Float.{Floats, lit}
use practical_project.Finops.{PrometheusMetrics}
use practical_project.Finops.Engine.{
  Inputs, Draft, candidate, predicted_cpu, rule_01, rule_02, rule_03, rule_04, rule_05, rule_06,
  rule_07, judged,
}

module _ {F : Type 0} (fl : Floats F) (i : Inputs F) where
  open fl use {lt, le, mul}

  pub record KeepsCurrent (d : Draft F) : Type 0 where
    pub cpu_kept : d.final_cpu ≡ i.curr_cpu
    pub mem_kept : d.final_mem ≡ i.curr_mem

  rule_06-cpu : (d : Draft F) → (rule_06 fl i d).final_cpu ≡ d.final_cpu
  unfolding rule_06
  rule_06-cpu d = ground arith

  rule_06-mem : (d : Draft F) → (rule_06 fl i d).final_mem ≡ d.final_mem
  unfolding rule_06
  rule_06-mem d = ground arith

  rule_07-cpu : (d : Draft F) → (rule_07 fl i d).final_cpu ≡ d.final_cpu
  unfolding rule_07
  rule_07-cpu d = ground arith

  rule_07-mem : (d : Draft F) → (rule_07 fl i d).final_mem ≡ d.final_mem
  unfolding rule_07
  rule_07-mem d = ground arith

  rule_05-mem : (d : Draft F) → (rule_05 fl i d).final_mem ≡ d.final_mem
  unfolding rule_05
  rule_05-mem d = ground arith

  rule_05-cpu :
      (d : Draft F)
      → le (lit fl 0 0) i.curr_cpu ≡ true
      → d.final_cpu ≡ i.curr_cpu
      → (rule_05 fl i d).final_cpu ≡ i.curr_cpu
  unfolding rule_05
  rule_05-cpu d h kept = elim (Option-cases (predicted_cpu i.chronos_forecast)) [
    | inl missing ↦
        rw (rule_05, missing, kept) (rw (fl.mul_shrinks i.curr_cpu 85 2 h (omega arith)) refl)
    | inr (pct, found) ↦ elim (Bool-cases (le (lit fl 80 0) pct)) [
      | inl busy ↦ rw (rule_05, found, busy) refl
      | inr quiet ↦ rw (rule_05, found, quiet) kept
    ]
  ]

  rule_04-KeepsCurrent :
      (d : Draft F) (m : PrometheusMetrics F)
      → i.prom_metrics ≡ some m
      → leb_ℤ (pos 10) m.restart_count ≡ true
      → KeepsCurrent (rule_04 fl i d)
  unfolding rule_04
  rule_04-KeepsCurrent d m found h = record { cpu_kept = rw (found, h); mem_kept = rw (found, h) }

  rule_03-KeepsCurrent :
      (d : Draft F) (m : PrometheusMetrics F)
      → i.prom_metrics ≡ some m
      → m.oom_killed ≡ true
      → KeepsCurrent (rule_03 fl i d)
  unfolding rule_03
  rule_03-KeepsCurrent d m found h = record { cpu_kept = rw (found, h); mem_kept = rw (found, h) }

  rule_04-cpu : (d : Draft F) → d.final_cpu ≡ i.curr_cpu → (rule_04 fl i d).final_cpu ≡ i.curr_cpu
  unfolding rule_04
  rule_04-cpu d k = ground arith

  rule_04-mem : (d : Draft F) → d.final_mem ≡ i.curr_mem → (rule_04 fl i d).final_mem ≡ i.curr_mem
  unfolding rule_04
  rule_04-mem d k = ground arith

  -- After rule 4, whatever the candidate values were.
  stable_lem :
      (d : Draft F) (m : PrometheusMetrics F)
      → i.prom_metrics ≡ some m
      → (m.oom_killed ≡ true) ⊎ (leb_ℤ (pos 10) m.restart_count ≡ true)
      → KeepsCurrent (rule_04 fl i (rule_03 fl i d))
  stable_lem d m found (inl oom) =
      let k = rule_03-KeepsCurrent d m found oom in
      record { cpu_kept = rule_04-cpu _ k.cpu_kept; mem_kept = rule_04-mem _ k.mem_kept }
  stable_lem d m found (inr often) = rule_04-KeepsCurrent (rule_03 fl i d) m found often

  pub judged-KeepsCurrent :
      (m : PrometheusMetrics F)
      → i.prom_metrics ≡ some m
      → (m.oom_killed ≡ true) ⊎ (leb_ℤ (pos 10) m.restart_count ≡ true)
      → le (lit fl 0 0) i.curr_cpu ≡ true
      → KeepsCurrent (judged fl i)
  unfolding judged
  judged-KeepsCurrent m found bad h =
      let k = stable_lem (rule_02 fl i (rule_01 fl i (candidate i))) m found bad in
      record {
        cpu_kept = rule_07-cpu _ ∙ rule_06-cpu _ ∙ rule_05-cpu _ h k.cpu_kept;
        mem_kept = rule_07-mem _ ∙ rule_06-mem _ ∙ rule_05-mem _ ∙ k.mem_kept;
      }
