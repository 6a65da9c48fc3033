-- ===== src/Finops/Verdict/Limits.antt =====
-- The requests that finops/app/engine.py decides on, as the values it caps: the floats before they
-- are printed.
use practical_project.Base.{◌≡◌, refl}
use practical_project.Float.{Floats}
use practical_project.Finops.Engine.{Inputs, judged}
use practical_project.Finops.Verdict.{capped, restored, rule_08, decided}

module _ {F : Type 0} (fl : Floats F) where
  pub decided-cpu :
      (i : Inputs F)
      → (decided fl i).final_cpu ≡ capped fl i.cpu_limit (restored i (judged fl i)).final_cpu
  unfolding decided rule_08
  decided-cpu i = refl

  pub decided-mem :
      (i : Inputs F)
      → (decided fl i).final_mem ≡ capped fl i.memory_limit (restored i (judged fl i)).final_mem
  unfolding decided rule_08
  decided-mem i = refl
