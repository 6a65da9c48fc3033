-- ===== src/Chronos/Series/Sorted.antt =====
-- The table of chronos/chronos_prometheus.py, sorted by instant.
use practical_project.Base.{
  ◌≡◌, refl, sym, ◌∙◌, ap, true, false, List, [], ◌∷◌, Option, none, some, arith, if◌then◌else◌,
  Bool-cases, inl, inr,
}
use mathlib.Core.Option.{none-ne-some}
use practical_project.Base.Int.{ℤ, leb_ℤ, ltb_ℤ}
use practical_project.Chronos.Series.{same_instant, value_at, insert, sort}

before_other :
    (key k j : ℤ) → leb_ℤ key k ≡ false → same_instant k j ≡ true → same_instant key j ≡ false
before_other key k j h g = ground arith

strictly : (key k : ℤ) → leb_ℤ key k ≡ true → same_instant k key ≡ false → ltb_ℤ key k ≡ true
strictly key k h g = ground arith

beyond : (key k : ℤ) → leb_ℤ key k ≡ false → ltb_ℤ k key ≡ true
beyond key k h = ground arith

module _ {F : Type 0} where
  pub value_at-insert :
      (j key : ℤ) (v : F) (list : List (ℤ × F))
      → value_at j (insert key v list) ≡ (if same_instant key j then some v else value_at j list)
  unfolding insert value_at
  value_at-insert j key v [] = refl
  value_at-insert j key v ((k, w) ∷ rest) = elim (Bool-cases (leb_ℤ key k)) [
    | inl here ↦ rw (insert, here, value_at) refl
    | inr later ↦ elim (Bool-cases (same_instant k j)) [
      | inl hit ↦ rw (insert, later, value_at, hit, before_other key k j later hit) refl
      | inr miss ↦ rw (insert, later, value_at, miss) (value_at-insert j key v rest)
    ]
  ]

  pub value_at-sort : (j : ℤ) (list : List (ℤ × F)) → value_at j (sort list) ≡ value_at j list
  unfolding sort value_at
  value_at-sort j [] = refl
  value_at-sort j ((k, v) ∷ rest) =
      value_at-insert j k v (sort rest)
      ∙ ap (λ (o : Option F). if same_instant k j then some v else o) (value_at-sort j rest)

  -- The first key of the list, if there is one, is above this key.
  abbrev pub IsAbove : ℤ → List (ℤ × F) → Type 0
  IsAbove key [] = Unit
  IsAbove key ((k, v) ∷ rest) = ltb_ℤ key k ≡ true

  -- The keys are in strict order.
  abbrev pub IsIncreasing : List (ℤ × F) → Type 0
  IsIncreasing [] = Unit
  IsIncreasing ((k, v) ∷ rest) = IsAbove k rest × IsIncreasing rest

  abbrev pub IsDistinct : List (ℤ × F) → Type 0
  IsDistinct [] = Unit
  IsDistinct ((k, v) ∷ rest) = (value_at k rest ≡ none) × IsDistinct rest

  absent_lem :
      (key k : ℤ) (v : F) (rest : List (ℤ × F))
      → value_at key ((k, v) ∷ rest) ≡ none
      → (same_instant k key ≡ false) × (value_at key rest ≡ none)
  unfolding value_at
  absent_lem key k v rest h = elim (Bool-cases (same_instant k key)) [
    | inl hit ↦ elim (none-ne-some v (sym h ∙ rw (value_at, hit) refl)) [ ]
    | inr miss ↦ (miss, rw (value_at, miss) refl ∙ h)
  ]

  insert-IsAbove :
      (k key : ℤ) (v : F) (list : List (ℤ × F))
      → ltb_ℤ k key ≡ true
      → IsAbove k list
      → IsAbove k (insert key v list)
  unfolding insert
  insert-IsAbove k key v [] h above = h
  insert-IsAbove k key v ((k', w) ∷ rest) h above = elim (Bool-cases (leb_ℤ key k')) [
    | inl here ↦ rw (insert, here) h
    | inr later ↦ rw (insert, later) above
  ]

  insert-IsIncreasing :
      (key : ℤ) (v : F) (list : List (ℤ × F))
      → value_at key list ≡ none
      → IsIncreasing list
      → IsIncreasing (insert key v list)
  unfolding insert
  insert-IsIncreasing key v [] absent inc = (tt, tt)
  insert-IsIncreasing key v ((k, w) ∷ rest) absent (above, inc) =
      let (other, gone) = absent_lem key k w rest absent in
      elim (Bool-cases (leb_ℤ key k)) [
        | inl here ↦ rw (insert, here) (strictly key k here other, (above, inc))
        | inr later ↦
            rw (insert, later)
              (
                insert-IsAbove k key v rest (beyond key k later) above,
                insert-IsIncreasing key v rest gone inc,
              )
      ]

  pub sort-IsIncreasing : (list : List (ℤ × F)) → IsDistinct list → IsIncreasing (sort list)
  unfolding sort
  sort-IsIncreasing [] h = tt
  sort-IsIncreasing ((k, v) ∷ rest) (absent, h) =
      insert-IsIncreasing k v (sort rest) (value_at-sort k rest ∙ absent) (sort-IsIncreasing rest h)
