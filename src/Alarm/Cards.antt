-- ===== src/Alarm/Cards.antt =====
-- The workloads that an approval card of alarm/main.py covers.
use practical_project.Base.{
  ◌≡◌, refl, ◌⊎◌, inl, inr, true, false, sym, subst, List, [], ◌∷◌, All, All-map, Bool-cases,
}
use practical_project.Base.Classes.{nat_eq}
use practical_project.Base.Equality.{list_beq_iff}
use practical_project.Float.Literal.{codes}
use practical_project.Alarm.{Target}
use practical_project.Alarm.Gateway.{Workload, is_pass, is_named, approvable}

-- A workload of the list has this target and the status PASS.
abbrev pub HasPassed : Target → List Workload → Type 0
HasPassed t [] = ⊥
HasPassed t (w ∷ ws) = (w.target ≡ t) × (w.overall_status ≡ codes "PASS") ⊎ HasPassed t ws

approvable-kept :
    (w : Workload)
    → (ws : List Workload) → is_pass w.overall_status ≡ true
    → is_named w.target ≡ true
    → approvable (w ∷ ws) ≡ w.target ∷ approvable ws
unfolding approvable
approvable-kept w ws passed named = rw (passed, named) refl

approvable-failed :
    (w : Workload)
    → (ws : List Workload) → is_pass w.overall_status ≡ false
    → approvable (w ∷ ws) ≡ approvable ws
unfolding approvable
approvable-failed w ws failed = rw failed refl

approvable-nameless :
    (w : Workload)
    → (ws : List Workload) → is_named w.target ≡ false
    → approvable (w ∷ ws) ≡ approvable ws
unfolding approvable
approvable-nameless w ws nameless = elim (Bool-cases (is_pass w.overall_status)) [
  | inl passed ↦ rw (passed, nameless) refl
  | inr failed ↦ approvable-failed w ws failed
]

-- An approval card covers only workloads of its batch that passed and have a full name.
pub approvable-HasPassed :
    (ws : List Workload)
    → All (λ (t : Target). (is_named t ≡ true) × HasPassed t ws) (approvable ws)
unfolding approvable
approvable-HasPassed [] = tt
approvable-HasPassed (w ∷ ws) =
    let P = λ (t : Target). (is_named t ≡ true) × HasPassed t (w ∷ ws) in
    let rest : All P (approvable ws) =
      All-map (λ (t : Target) (p : (is_named t ≡ true) × HasPassed t ws). (p.0, inr p.1))
        (approvable ws) (approvable-HasPassed ws) in
    elim (Bool-cases (is_pass w.overall_status)) [
      | inr failed ↦ subst (All P) (sym (approvable-failed w ws failed)) rest
      | inl passed ↦ elim (Bool-cases (is_named w.target)) [
        | inr nameless ↦ subst (All P) (sym (approvable-nameless w ws nameless)) rest
        | inl named ↦
            subst (All P) (sym (approvable-kept w ws passed named))
              ((named, inl (refl, (list_beq_iff w.overall_status (codes "PASS")).0 passed)), rest)
      ]
    ]
