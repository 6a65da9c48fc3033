-- ===== src/Base/Classes.antt =====
-- Decidable equality as an instance, and what the program does with it on lists.
use text.Mathlib.Text.{◌==◌ as str_eq}
use text.Mathlib.TextEquality.{eq_iff}
use practical_project.Base.{
  ℕ, suc, ◌≡◌, ◌↔◌, refl, String, Bool, true, false, ◌||◌, List, [], ◌∷◌, Option, none, some, arith,
  ◌==◌ as nat_beq, ==_iff, if◌then◌else◌, Bool-cases, inl, inr, All,
}

-- A test for equality and what it decides.
pub record Eq {ℓ} (A : Type ℓ) : Type ℓ where
  pub equal : A → A → Bool
  pub equal_iff : (a b : A) → (equal a b ≡ true) ↔ (a ≡ b)

instance abbrev pub string_eq : Eq String
string_eq = record { equal = str_eq; equal_iff = eq_iff }

instance abbrev pub nat_eq : Eq ℕ
nat_eq = record { equal = nat_beq; equal_iff = ==_iff }

infix 50 ◌==◌
abbrev pub ◌==◌ {ℓ} : {A : Type ℓ} ⦃decider : Eq A⦄ → A → A → Bool
◌==◌ ⦃decider⦄ x y = decider.equal x y

module _ {ℓ} {A : Type ℓ} ⦃e : Eq A⦄ where
  pub ==-self : (a : A) → (a == a) ≡ true
  ==-self a = (e.equal_iff a a).1 refl

  abbrev pub contains : A → List A → Bool
  contains a [] = false
  contains a (x ∷ xs) = a == x || contains a xs

  -- Python's `list.index`, and LPOS.
  abbrev pub index_of : A → List A → Option ℕ
  index_of a [] = none
  index_of a (x ∷ xs) =
      let rest = index_of a xs in
      if a == x then some 0 else elim rest [ none ↦ none | some i ↦ some (suc i) ]

  -- The list less its first `a`.
  abbrev pub erase_first : A → List A → List A
  erase_first a [] = []
  erase_first a (x ∷ xs) = if a == x then xs else x ∷ erase_first a xs

  pub index_of-none : (a : A) (xs : List A) → contains a xs ≡ false → index_of a xs ≡ none
  index_of-none a [] h = refl
  index_of-none a (x ∷ xs) h = ground (arith, index_of-none a xs)

  pub index_of-some :
      (a : A) (xs : List A) → contains a xs ≡ true → (i : ℕ) × (index_of a xs ≡ some i)
  index_of-some a [] h = absurd (ground arith)
  index_of-some a (x ∷ xs) h = elim (Bool-cases (a == x)) [
    | inl same ↦ (0, rw same)
    | inr other ↦ let (i, found) = index_of-some a xs (ground arith) in (suc i, rw (other, found))
  ]

  pub All-erase_first {κ} :
      (P : A → Type κ) (a : A) (xs : List A) → All P xs → All P (erase_first a xs)
  All-erase_first P a [] h = tt
  All-erase_first P a (x ∷ xs) h = elim (Bool-cases (a == x)) [
    | inl same ↦ rw same h.1
    | inr other ↦ rw other (h.0, All-erase_first P a xs h.1)
  ]

  pub All-contains {κ} :
      (P : A → Type κ) (a : A) (xs : List A) → All P xs → contains a xs ≡ true → P a
  All-contains P a [] h c = absurd (ground arith)
  All-contains P a (x ∷ xs) h c = elim (Bool-cases (a == x)) [
    | inl same ↦ rw ((e.equal_iff a x).0 same) h.0
    | inr other ↦ All-contains P a xs h.1 (ground arith)
  ]
