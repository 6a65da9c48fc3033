-- ===== src/Base/Dict.antt =====
-- Python's dictionaries: association lists in the order of insertion.
use practical_project.Base.{
  ◌≡◌, refl, List, [], ◌∷◌, Option, none, some, arith, if◌then◌else◌, Bool-cases, inl, inr, All,
}
use practical_project.Base.Classes.{Eq, ◌==◌}

module _ {ℓ} {K V : Type ℓ} ⦃e : Eq K⦄ where
  unfoldable pub lookup : K → List (K × V) → Option V
  lookup k [] = none
  lookup k ((j, v) ∷ rest) = if k == j then some v else lookup k rest

  -- A key that is there keeps its place.
  unfoldable pub put : K → V → List (K × V) → List (K × V)
  put k v [] = (k, v) ∷ []
  put k v ((j, w) ∷ rest) = if k == j then (k, v) ∷ rest else (j, w) ∷ put k v rest

  pub lookup-put :
      (i k : K) (v : V) (d : List (K × V))
      → lookup i (put k v d) ≡ (if i == k then some v else lookup i d)
  unfolding lookup put
  lookup-put i k v [] = refl
  lookup-put i k v ((j, w) ∷ rest) =
      ground (arith, e.equal_iff i k, e.equal_iff k j, e.equal_iff i j, lookup-put i k v rest)

  pub All-put {κ} :
      (P : K × V → Type κ) (k : K) (v : V) (d : List (K × V))
      → P (k, v)
      → All P d
      → All P (put k v d)
  unfolding put
  All-put P k v [] p ps = (p, tt)
  All-put P k v ((j, w) ∷ rest) p ps = elim (Bool-cases (k == j)) [
    | inl same ↦ rw same (p, ps.1)
    | inr other ↦ rw other (ps.0, All-put P k v rest p ps.1)
  ]

  pub All-lookup {κ} :
      (P : K × V → Type κ) (k : K) (v : V) (d : List (K × V))
      → lookup k d ≡ some v
      → All P d
      → P (k, v)
  unfolding lookup
  All-lookup P k v [] h ps = absurd (ground arith)
  All-lookup P k v ((j, w) ∷ rest) h ps = elim (Bool-cases (k == j)) [
    | inl same ↦ let value : w ≡ v = ground arith in rw ((e.equal_iff k j).0 same, ← value) ps.0
    | inr other ↦ All-lookup P k v rest (ground arith) ps.1
  ]
