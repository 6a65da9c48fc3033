-- ===== src/Base/Lists.antt =====
-- Lists measured by native numbers, under the library's names, and predicates on all elements.
use Prim.Native.Nat.{ℕ, zero, suc, ◌+◌}
use mathlib.Core.Path.{◌≡◌, sym, subst}
use mathlib.Core.Logic.{◌⊎◌, inl, inr}
use mathlib.Core.List.{List, [], ◌∷◌, ◌++◌, reverse, reverse-cons}
use native.Mathlib.Omega.{arith}

module _ {ℓ} {A : Type ℓ} where
  abbrev pub length : List A → ℕ
  length [] = 0
  length (x ∷ xs) = suc (length xs)

  abbrev pub take : ℕ → List A → List A
  take zero xs = []
  take (suc n) [] = []
  take (suc n) (x ∷ xs) = x ∷ take n xs

  pub length-append : (xs ys : List A) → length (xs ++ ys) ≡ length xs + length ys
  length-append [] ys = omega arith
  length-append (x ∷ xs) ys = omega (arith, length-append xs ys)

-- `P` of every element, as a nested pair.
abbrev pub All {ℓ κ} : {A : Type ℓ} → (A → Type κ) → List A → Type κ
All P [] = Unit
All P (a ∷ rest) = P a × All P rest

module _ {ℓ κ} {A : Type ℓ} (P : A → Type κ) where
  pub All-append : (left right : List A) → All P left → All P right → All P (left ++ right)
  All-append [] right p q = q
  All-append (a ∷ left) right (p, ps) q = (p, All-append left right ps q)

  pub All-split : (left right : List A) → All P (left ++ right) → All P left × All P right
  All-split [] right p = (tt, p)
  All-split (a ∷ left) right (p, ps) = let (q, r) = All-split left right ps in ((p, q), r)

  pub All-reverse : (list : List A) → All P list → All P (reverse list)
  All-reverse [] p = p
  All-reverse (a ∷ list) (p, ps) =
      subst (All P) (sym (reverse-cons a list))
        (All-append (reverse list) (a ∷ []) (All-reverse list ps) (p, tt))

pub All-map {ℓ κ μ} :
    {A : Type ℓ} {P : A → Type κ} {Q : A → Type μ}
    → ((a : A) → P a → Q a)
    → (list : List A) → All P list
    → All Q list
All-map f [] p = tt
All-map f (a ∷ list) (p, ps) = (f a p, All-map f list ps)

-- `P` of some element.
abbrev pub Any {ℓ} : {A : Type ℓ} → (A → Type 0) → List A → Type 0
Any P [] = ⊥
Any P (a ∷ rest) = P a ⊎ Any P rest

module _ {ℓ} {A : Type ℓ} (P Q : A → Type 0) where
  pub Any-map : ((a : A) → P a → Q a) → (list : List A) → Any P list → Any Q list
  Any-map f [] p = elim p [ ]
  Any-map f (a ∷ list) (inl p) = inl (f a p)
  Any-map f (a ∷ list) (inr p) = inr (Any-map f list p)

  -- Where `P` holds of all elements, it holds of one for which `Q` holds.
  pub Any-All : (list : List A) → All P list → Any Q list → Any (λ (a : A). P a × Q a) list
  Any-All [] p q = q
  Any-All (a ∷ list) p (inl q) = inl (p.0, q)
  Any-All (a ∷ list) p (inr q) = inr (Any-All list p.1 q)

pub All-zip {ℓ κ μ} :
    {A : Type ℓ} (P : A → Type κ) (Q : A → Type μ) (list : List A)
    → All P list
    → All Q list
    → All (λ (a : A). P a × Q a) list
All-zip P Q [] p q = tt
All-zip P Q (a ∷ list) (p, ps) (q, qs) = ((p, q), All-zip P Q list ps qs)
