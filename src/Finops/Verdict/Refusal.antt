-- ===== src/Finops/Verdict/Refusal.antt =====
-- A failed verdict, and the list of rules that every evaluation carries.
use practical_project.Base.{
  ℕ, ◌≡◌, refl, sym, ◌∙◌, ap, true, String, List, [], ◌∷◌, ◌++◌, Option, none, some, arith, leb,
}
use mathlib.Core.Option.{some-injective}
use practical_project.Float.{Floats, lit}
use practical_project.Finops.{PolicyResult, high, fail}
use practical_project.Finops.Quantity.{format_cpu, format_memory}
use practical_project.Finops.Engine.{Inputs, Draft, judged}
use practical_project.Finops.Engine.Order.{rule_ids, rule_ids-append, judged-ids}
use practical_project.Finops.Verdict.{
  Request, Evaluation, with_both, evaluation, inputs, evaluate_optimization, capped, restored,
  rule_08, decided, risk_of, status_of, cost, cost_change,
}
use practical_project.Finops.Verdict.Outcomes.{decided-judged}
use practical_project.Finops.Verdict.Limits.{decided-cpu, decided-mem}

with_both-cases :
    {A B : Type 0} (first second : Option A) (f : A → A → B) (e : B)
    → with_both first second f ≡ some e
    → (a : A) × (b : A) × (first ≡ some a) × (second ≡ some b) × (f a b ≡ e)
with_both-cases none second f e h = ground arith
with_both-cases (some a) none f e h = ground arith
with_both-cases (some a) (some b) f e h = (a, b, refl, refl, some-injective (f a b) e h)

module _ {F : Type 0} (fl : Floats F) where
  evaluate-cases :
      (r : Request F) (e : Evaluation F)
      → evaluate_optimization fl r ≡ some e
      → (cpu : List ℕ) × (memory : List ℕ) × (format_cpu fl (decided fl (inputs fl r)).final_cpu
          ≡ some cpu)
        × (format_memory fl (decided fl (inputs fl r)).final_mem ≡ some memory)
        × (evaluation fl r (decided fl (inputs fl r)) cpu memory ≡ e)
  unfolding evaluate_optimization
  evaluate-cases r e h = with_both-cases _ _ (evaluation fl r (decided fl (inputs fl r))) e h

  failed_score : (score : ℕ) → status_of score ≡ fail → leb 70 score ≡ true
  unfolding status_of
  failed_score score h = ground arith

  failed_risk : (score : ℕ) → leb 70 score ≡ true → risk_of score ≡ high
  unfolding risk_of
  failed_risk score h = ground arith

  failed_cost :
      (score : ℕ) (before after : F)
      → leb 70 score ≡ true
      → cost_change fl score before after ≡ (lit fl 0 0, lit fl 0 0)
  unfolding cost_change
  failed_cost score before after h = rw (cost_change, h) refl

  restored-cpu :
      (i : Inputs F) (d : Draft F) → leb 70 d.score ≡ true → (restored i d).final_cpu ≡ i.curr_cpu
  unfolding restored
  restored-cpu i d h = ground arith

  restored-mem :
      (i : Inputs F) (d : Draft F) → leb 70 d.score ≡ true → (restored i d).final_mem ≡ i.curr_mem
  unfolding restored
  restored-mem i d h = ground arith

  decided-restores :
      (i : Inputs F)
      → leb 70 (decided fl i).score ≡ true
      → ((decided fl i).final_cpu ≡ capped fl i.cpu_limit i.curr_cpu)
        × ((decided fl i).final_mem ≡ capped fl i.memory_limit i.curr_mem)
  decided-restores i h =
      let failed = sym (ap (leb 70) (decided-judged fl i)) ∙ h in
      (
        decided-cpu fl i ∙ ap (capped fl i.cpu_limit) (restored-cpu i (judged fl i) failed),
        decided-mem fl i ∙ ap (capped fl i.memory_limit) (restored-mem i (judged fl i) failed),
      )

  -- When an evaluation is returned with the verdict FAIL, its risk is HIGH, the final request is the
  -- current one, lowered to the limits at most, and no saving is claimed.
  pub evaluate-Fail :
      (r : Request F) (e : Evaluation F)
      → evaluate_optimization fl r ≡ some e
      → e.overall_status ≡ fail
      → let i = inputs fl r in
        (e.risk_score ≡ high)
        × (format_cpu fl (capped fl i.cpu_limit i.curr_cpu) ≡ some e.recommendations.final.cpu)
        × (format_memory fl (capped fl i.memory_limit i.curr_mem)
            ≡ some e.recommendations.final.memory)
        × (e.cost_change_pct ≡ fl.round_to 1 (lit fl 0 0))
        × (e.cost_savings_amount ≡ fl.round_to 2 (lit fl 0 0))
  evaluate-Fail r e h status =
      let i = inputs fl r in
      let (cpu, memory, cpu_text, memory_text, same) = evaluate-cases r e h in
      let failed =
        failed_score (decided fl i).score
          (ap (λ (x : Evaluation F). x.overall_status) same ∙ status) in
      let (cpu_kept, mem_kept) = decided-restores i failed in
      let free =
        failed_cost (decided fl i).score (cost fl i.curr_cpu i.curr_mem)
          (cost fl (decided fl i).final_cpu (decided fl i).final_mem) failed in
      (
        sym (ap (λ (x : Evaluation F). x.risk_score) same)
            ∙ failed_risk (decided fl i).score failed,
        ap (format_cpu fl) (sym cpu_kept)
            ∙ cpu_text
            ∙ ap (λ (x : Evaluation F). some x.recommendations.final.cpu) same,
        ap (format_memory fl) (sym mem_kept)
            ∙ memory_text
            ∙ ap (λ (x : Evaluation F). some x.recommendations.final.memory) same,
        sym (ap (λ (x : Evaluation F). x.cost_change_pct) same)
            ∙ ap (λ (c : F × F). fl.round_to 1 c.0) free,
        sym (ap (λ (x : Evaluation F). x.cost_savings_amount) same)
            ∙ ap (λ (c : F × F). fl.round_to 2 c.1) free,
      )

  restored-evals : (i : Inputs F) (d : Draft F) → (restored i d).policy_evals ≡ d.policy_evals
  unfolding restored
  restored-evals i d = ground arith

  decided-ids :
      (i : Inputs F)
      → rule_ids (decided fl i).policy_evals ≡ rule_ids (judged fl i).policy_evals ++ "RULE_08" ∷ []
  unfolding decided rule_08
  decided-ids i =
      rule_ids-append (restored i (judged fl i)).policy_evals "RULE_08" _
      ∙ ap (λ (l : List PolicyResult). rule_ids l ++ "RULE_08" ∷ [])
          (restored-evals i (judged fl i))

  -- Every evaluation that is returned lists the eight rules, each once and in order, whichever
  -- branch each of them took.
  pub evaluate-ListsRules :
      (r : Request F) (e : Evaluation F)
      → evaluate_optimization fl r ≡ some e
      → rule_ids e.policy_evals
        ≡ "RULE_01" ∷ "RULE_02" ∷ "RULE_03" ∷ "RULE_04" ∷ "RULE_05" ∷ "RULE_06" ∷ "RULE_07"
          ∷ "RULE_08" ∷ []
  evaluate-ListsRules r e h =
      let (cpu, memory, cpu_text, memory_text, same) = evaluate-cases r e h in
      sym (ap (λ (x : Evaluation F). rule_ids x.policy_evals) same)
      ∙ decided-ids (inputs fl r)
      ∙ ap (λ (ids : List String). ids ++ "RULE_08" ∷ []) (judged-ids fl (inputs fl r))
