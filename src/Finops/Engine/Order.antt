-- ===== src/Finops/Engine/Order.antt =====
-- The list of results: one for each rule, in the order of the rules.
use practical_project.Base.{◌≡◌, refl, ap, String, List, [], ◌∷◌, ◌++◌, map, arith}
use practical_project.Float.{Floats}
use practical_project.Finops.{PolicyResult, RuleStatus, pass, warn, fail}
use practical_project.Finops.Engine.{
  Inputs, Draft, result, candidate, rule_01, rule_02, rule_03, rule_04, rule_05, rule_06, rule_07,
  judged,
}

abbrev pub rule_ids : List PolicyResult → List String
rule_ids results = map (λ (p : PolicyResult). p.rule_id) results

pub rule_ids-append :
    (results : List PolicyResult) (id : String) (status : RuleStatus)
    → rule_ids (results ++ result id status ∷ []) ≡ rule_ids results ++ id ∷ []
rule_ids-append [] id status = refl
rule_ids-append (p ∷ results) id status =
    ap (λ (ids : List String). p.rule_id ∷ ids) (rule_ids-append results id status)

module _ {F : Type 0} (fl : Floats F) (i : Inputs F) (d : Draft F) where
  listed :
      (id : String) (status : RuleStatus)
      → rule_ids (d.policy_evals ++ result id status ∷ []) ≡ rule_ids d.policy_evals ++ id ∷ []
  listed id status = rule_ids-append d.policy_evals id status

  rule_01-ids : rule_ids (rule_01 fl i d).policy_evals ≡ rule_ids d.policy_evals ++ "RULE_01" ∷ []
  unfolding rule_01
  rule_01-ids = ground (arith, listed "RULE_01" warn, listed "RULE_01" pass)

  rule_02-ids : rule_ids (rule_02 fl i d).policy_evals ≡ rule_ids d.policy_evals ++ "RULE_02" ∷ []
  unfolding rule_02
  rule_02-ids = ground (arith, listed "RULE_02" warn, listed "RULE_02" pass)

  rule_03-ids : rule_ids (rule_03 fl i d).policy_evals ≡ rule_ids d.policy_evals ++ "RULE_03" ∷ []
  unfolding rule_03
  rule_03-ids = ground (arith, listed "RULE_03" warn, listed "RULE_03" fail, listed "RULE_03" pass)

  rule_04-ids : rule_ids (rule_04 fl i d).policy_evals ≡ rule_ids d.policy_evals ++ "RULE_04" ∷ []
  unfolding rule_04
  rule_04-ids = ground (arith, listed "RULE_04" warn, listed "RULE_04" fail, listed "RULE_04" pass)

  rule_05-ids : rule_ids (rule_05 fl i d).policy_evals ≡ rule_ids d.policy_evals ++ "RULE_05" ∷ []
  unfolding rule_05
  rule_05-ids = ground (arith, listed "RULE_05" warn, listed "RULE_05" pass)

  rule_06-ids : rule_ids (rule_06 fl i d).policy_evals ≡ rule_ids d.policy_evals ++ "RULE_06" ∷ []
  unfolding rule_06
  rule_06-ids = ground (arith, listed "RULE_06" pass)

  rule_07-ids : rule_ids (rule_07 fl i d).policy_evals ≡ rule_ids d.policy_evals ++ "RULE_07" ∷ []
  unfolding rule_07
  rule_07-ids = ground (arith, listed "RULE_07" warn, listed "RULE_07" pass)

module _ {F : Type 0} (fl : Floats F) (i : Inputs F) where
  pub judged-ids :
      rule_ids (judged fl i).policy_evals
      ≡ "RULE_01" ∷ "RULE_02" ∷ "RULE_03" ∷ "RULE_04" ∷ "RULE_05" ∷ "RULE_06" ∷ "RULE_07" ∷ []
  unfolding judged
  judged-ids =
      let d1 = rule_01 fl i (candidate i) in
      let d2 = rule_02 fl i d1 in
      let d3 = rule_03 fl i d2 in
      let d4 = rule_04 fl i d3 in
      let d5 = rule_05 fl i d4 in
      let d6 = rule_06 fl i d5 in
      rw
        (
          rule_07-ids fl i d6,
          rule_06-ids fl i d5,
          rule_05-ids fl i d4,
          rule_04-ids fl i d3,
          rule_03-ids fl i d2,
          rule_02-ids fl i d1,
          rule_01-ids fl i (candidate i),
        )
        refl
