-- ===== src/Alarm/Buttons.antt =====
-- Writing and reading the buttons of a report of alarm/main.py.
use practical_project.Base.{
  ℕ, suc, ◌≡◌, refl, ◌∙◌, ap, false, List, [], ◌∷◌, ◌++◌, none, some, arith, ◌==◌, All,
}
use practical_project.Float.Literal.{codes, is_empty}
use practical_project.Alarm.{Target}
use practical_project.Alarm.Names.{strip_colons, split_once, split_colons, target_of, button_data}
use practical_project.Alarm.Gateway.{approve_one, reject_one, request_of}

abbrev pub IsColonFree : List ℕ → Type 0
IsColonFree text = All (λ (c : ℕ). (c == 58) ≡ false) text

split_once-before :
    (part rest : List ℕ) → IsColonFree part → split_once (part ++ 58 ∷ rest) ≡ (part, some rest)
unfolding split_once
split_once-before [] rest h = refl
split_once-before (c ∷ part) rest (h, hs) = rw (h, split_once-before part rest hs) refl

split_once-last : (part : List ℕ) → IsColonFree part → split_once part ≡ (part, none)
unfolding split_once
split_once-last [] h = refl
split_once-last (c ∷ part) (h, hs) = rw (h, split_once-last part hs) refl

split_colons-before :
    (n : ℕ) (part rest : List ℕ)
    → IsColonFree part
    → split_colons (suc n) (part ++ 58 ∷ rest) ≡ part ∷ split_colons n rest
unfolding split_colons
split_colons-before n part rest h =
    rw (split_colons, split_once-before part rest h, split_once-before part rest h) refl

split_colons-last :
    (n : ℕ) (part : List ℕ) → IsColonFree part → split_colons (suc n) part ≡ part ∷ []
unfolding split_colons
split_colons-last n part h = rw (split_colons, split_once-last part h, split_once-last part h) refl

strip_colons-part :
    (part rest : List ℕ)
    → IsColonFree part
    → is_empty part ≡ false
    → strip_colons (part ++ rest) ≡ part ++ rest
unfolding strip_colons
strip_colons-part [] rest h k = ground arith
strip_colons-part (c ∷ part) rest (h, hs) k = rw h refl

filled_append : (part rest : List ℕ) → is_empty part ≡ false → is_empty (part ++ rest) ≡ false
filled_append [] rest k = ground arith
filled_append (c ∷ part) rest k = refl

-- The three names of a workload, filled and without a colon.
pub record IsPlain (t : Target) : Type 0 where
  pub namespace_filled : is_empty t.namespace ≡ false
  pub deployment_filled : is_empty t.deployment_name ≡ false
  pub container_filled : is_empty t.container_name ≡ false
  pub namespace_free : IsColonFree t.namespace
  pub deployment_free : IsColonFree t.deployment_name
  pub container_free : IsColonFree t.container_name

target_of-names :
    (t : Target)
    → IsPlain t
    → target_of (58 ∷ (t.namespace ++ 58 ∷ (t.deployment_name ++ 58 ∷ t.container_name))) ≡ t
unfolding target_of
target_of-names t h =
    let rest = 58 ∷ (t.deployment_name ++ 58 ∷ t.container_name) in
    let parts : split_colons 3 (t.namespace ++ rest)
        ≡ t.namespace ∷ t.deployment_name ∷ t.container_name ∷ [] =
      split_colons-before 2 t.namespace _ h.namespace_free
      ∙ ap (λ (l : List (List ℕ)). t.namespace ∷ l)
          (split_colons-before 1 t.deployment_name t.container_name h.deployment_free
            ∙ ap (λ (l : List (List ℕ)). t.deployment_name ∷ l)
                (split_colons-last 0 t.container_name h.container_free)) in
    rw
      (
        target_of,
        strip_colons-part t.namespace rest h.namespace_free h.namespace_filled,
        filled_append t.namespace rest h.namespace_filled,
        parts,
        h.namespace_filled,
        h.deployment_filled,
        h.container_filled,
      )
      refl

-- The buttons of a report, when they are pressed, are read as the approval and the rejection of the
-- workload that the report is about, if its three names are filled and hold no colon.
pub request_of-button_data :
    (t : Target)
    → IsPlain t
    → (request_of (button_data (codes "infra_approve") t) ≡ approve_one t)
      × (request_of (button_data (codes "infra_reject") t) ≡ reject_one t)
unfolding request_of button_data
request_of-button_data t h =
    (ap approve_one (target_of-names t h), ap reject_one (target_of-names t h))
