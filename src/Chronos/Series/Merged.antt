-- ===== src/Chronos/Series/Merged.antt =====
-- The samples of chronos/chronos_prometheus.py by instant, before and after the merge.
use practical_project.Base.{
  ℕ, ◌≡◌, ◌≤◌, refl, sym, subst, ◌∙◌, ap, Bool, true, false, ◌&&◌, List, [], ◌∷◌, ◌++◌, Option,
  none, some, arith, length, ltb, and_then-some, if◌then◌else◌, Bool-cases, Option-cases, inl, inr,
}
use mathlib.Core.Option.{some-injective, none-ne-some}
use practical_project.Base.Int.{ℤ, eq_of_parts}
use practical_project.Float.{Floats, Numeral, lit}
use practical_project.Float.Literal.{float_of}
use practical_project.Chronos.Series.{
  Payload, same_instant, value_at, sort, values_of, add_at, merge_samples, merge_results, enough,
  fetch_cpu_series,
}
use practical_project.Chronos.Series.Sorted.{
  IsIncreasing, IsDistinct, value_at-sort, sort-IsIncreasing,
}

alike :
    (k key j : ℤ) (b : Bool)
    → same_instant k key ≡ true
    → same_instant key j ≡ b
    → same_instant k j ≡ b
alike k key j true h g = ground arith
alike k key j false h g = ground arith

apart :
    (k key j : ℤ)
    → same_instant k key ≡ false
    → same_instant k j ≡ true
    → same_instant key j ≡ false
apart k key j h g = ground arith

flipped : (k key : ℤ) → same_instant k key ≡ false → same_instant key k ≡ false
flipped k key h = ground arith

instant_lem : (a b : ℤ) → same_instant a b ≡ true → a ≡ b
instant_lem a b h = ground (arith, eq_of_parts a b)

module _ {F : Type 0} (fl : Floats F) where
  open fl use {of_numeral, add, is_finite}

  abbrev plus : F → Option F → F
  plus v none = add (lit fl 0 0) v
  plus v (some w) = add w v

  value_at-add_at :
      (j key : ℤ) (v : F) (list : List (ℤ × F))
      → value_at j (add_at fl key v list)
        ≡ (if same_instant key j then some (plus v (value_at key list)) else value_at j list)
  unfolding add_at value_at
  value_at-add_at j key v [] = refl
  value_at-add_at j key v ((k, w) ∷ rest) = elim (Bool-cases (same_instant k key)) [
    | inl hit ↦ elim (Bool-cases (same_instant key j)) [
      | inl asked ↦ rw (hit, asked, alike k key j true hit asked) refl
      | inr other ↦ rw (hit, other, alike k key j false hit other) refl
    ]
    | inr miss ↦ elim (Bool-cases (same_instant k j)) [
      | inl asked ↦ rw (miss, asked, apart k key j miss asked) refl
      | inr other ↦ rw (miss, other) (value_at-add_at j key v rest)
    ]
  ]

  add_at-IsDistinct :
      (key : ℤ) (v : F) (list : List (ℤ × F)) → IsDistinct list → IsDistinct (add_at fl key v list)
  unfolding add_at value_at
  add_at-IsDistinct key v [] h = (refl, tt)
  add_at-IsDistinct key v ((k, w) ∷ rest) (absent, h) = elim (Bool-cases (same_instant k key)) [
    | inl hit ↦ rw (add_at, hit) (absent, h)
    | inr miss ↦
        rw (add_at, miss)
          (
            rw (value_at-add_at k key v rest, flipped k key miss) absent,
            add_at-IsDistinct key v rest h,
          )
  ]

  -- The sum of the finite samples of an instant, on top of what there is.
  abbrev pub sum_at : ℤ → List (ℤ × List ℕ) → Option F → Option F
  sum_at key [] sum = sum
  sum_at key ((timestamp, value) ∷ rest) sum = elim (float_of value) [
    | none ↦ sum_at key rest sum
    | some n ↦ sum_at key rest (
        if same_instant timestamp key && is_finite (of_numeral n)
        then some (plus (of_numeral n) sum)
        else sum)
  ]

  abbrev counted : ℤ → F → List (ℤ × F) → List (ℤ × F)
  counted timestamp v series = if is_finite v then add_at fl timestamp v series else series

  counted-IsDistinct :
      (timestamp : ℤ) (v : F) (series : List (ℤ × F))
      → IsDistinct series
      → IsDistinct (counted timestamp v series)
  counted-IsDistinct timestamp v series h = elim (Bool-cases (is_finite v)) [
    | inl finite ↦ rw finite (add_at-IsDistinct timestamp v series h)
    | inr not_finite ↦ rw not_finite h
  ]

  value_at-counted :
      (key timestamp : ℤ) (v : F) (series : List (ℤ × F))
      → value_at key (counted timestamp v series) ≡ (
          if same_instant timestamp key && is_finite v
          then some (plus v (value_at key series))
          else value_at key series)
  value_at-counted key timestamp v series = elim (Bool-cases (is_finite v)) [
    | inl finite ↦ elim (Bool-cases (same_instant timestamp key)) [
      | inl same ↦
          rw (finite, same)
            (value_at-add_at key timestamp v series
              ∙ rw (same, instant_lem timestamp key same) refl)
      | inr other ↦ rw (finite, other) (value_at-add_at key timestamp v series ∙ rw other refl)
    ]
    | inr not_finite ↦ elim (Bool-cases (same_instant timestamp key)) [
      | inl same ↦ rw (not_finite, same) refl
      | inr other ↦ rw (not_finite, other) refl
    ]
  ]

  sum_at-parsed :
      (key timestamp : ℤ) (value : List ℕ) (rest : List (ℤ × List ℕ)) (sum : Option F) (n : Numeral)
      → float_of value ≡ some n
      → sum_at key ((timestamp, value) ∷ rest) sum
        ≡ sum_at key rest (
            if same_instant timestamp key && is_finite (of_numeral n)
            then some (plus (of_numeral n) sum)
            else sum)
  sum_at-parsed key timestamp value rest sum n parsed = rw (sum_at, parsed) refl

  samples_lem :
      (samples : List (ℤ × List ℕ)) (series merged : List (ℤ × F))
      → merge_samples fl samples series ≡ some merged
      → IsDistinct series
      → IsDistinct merged
        × ((key : ℤ) → value_at key merged ≡ sum_at key samples (value_at key series))
  unfolding merge_samples
  samples_lem [] series merged h distinct =
      let same = some-injective series merged h in
      (subst IsDistinct same distinct, λ key. ap (value_at key) (sym same))
  samples_lem ((timestamp, value) ∷ rest) series merged h distinct =
      let (n, parsed, more) =
        and_then-some (float_of value)
          (λ (n : Numeral). merge_samples fl rest (counted timestamp (of_numeral n) series)) merged
          h in
      let next = counted timestamp (of_numeral n) series in
      let (ok, sums) =
        samples_lem rest next merged more
          (counted-IsDistinct timestamp (of_numeral n) series distinct) in
      (
        ok,
        λ key.
            sums key
            ∙ ap (sum_at key rest) (value_at-counted key timestamp (of_numeral n) series)
            ∙ sym (sum_at-parsed key timestamp value rest (value_at key series) n parsed),
      )

  abbrev pub all_samples : List (List (ℤ × List ℕ)) → List (ℤ × List ℕ)
  all_samples [] = []
  all_samples (result ∷ rest) = result ++ all_samples rest

  enough_lem :
      (n : ℕ) (found values : List F)
      → enough fl n found ≡ some values
      → (found ≡ values) × (n ≤ length values)
  enough_lem n found values h = elim (Bool-cases (ltb (length found) n)) [
    | inl short ↦ elim (none-ne-some values (sym (rw short refl) ∙ h)) [ ]
    | inr long ↦
        let same = some-injective found values (sym (rw long refl) ∙ h) in
        (same, subst (λ (l : List F). n ≤ length l) same (ground arith))
  ]

  fetched_lem :
      (n : ℕ) (results : List (List (ℤ × List ℕ))) (success : Bool) (values : List F)
      → fetch_cpu_series fl n (record { is_success = success; results = results }) ≡ some values
      → (merged : List (ℤ × F)) × (merge_results fl results [] ≡ some merged)
        × (enough fl n (values_of (sort merged)) ≡ some values)
  unfolding fetch_cpu_series
  fetched_lem n [] success values h = elim (none-ne-some values h) [ ]
  fetched_lem n (r ∷ rs) false values h = elim (none-ne-some values h) [ ]
  fetched_lem n (r ∷ rs) true values h =
      and_then-some (merge_results fl (r ∷ rs) [])
        (λ (series : List (ℤ × F)). enough fl n (values_of (sort series))) values h

  sum_at-append :
      (key : ℤ) (xs ys : List (ℤ × List ℕ)) (sum : Option F)
      → sum_at key (xs ++ ys) sum ≡ sum_at key ys (sum_at key xs sum)
  sum_at-append key [] ys sum = refl
  sum_at-append key ((timestamp, value) ∷ xs) ys sum = elim (Option-cases (float_of value)) [
    | inl refused ↦ rw (sum_at, refused) (sum_at-append key xs ys sum)
    | inr (n, parsed) ↦ rw (sum_at, parsed) (sum_at-append key xs ys _)
  ]

  results_lem :
      (results : List (List (ℤ × List ℕ))) (series merged : List (ℤ × F))
      → merge_results fl results series ≡ some merged
      → IsDistinct series
      → IsDistinct merged
        × ((key : ℤ) → value_at key merged ≡ sum_at key (all_samples results) (value_at key series))
  unfolding merge_results
  results_lem [] series merged h distinct =
      let same = some-injective series merged h in
      (subst IsDistinct same distinct, λ key. ap (value_at key) (sym same))
  results_lem (result ∷ rest) series merged h distinct =
      let (next, first, more) =
        and_then-some (merge_samples fl result series) (merge_results fl rest) merged h in
      let (distinct', sums) = samples_lem result series next first distinct in
      let (ok, later) = results_lem rest next merged more distinct' in
      (
        ok,
        λ key.
            later key
            ∙ ap (sum_at key (all_samples rest)) (sums key)
            ∙ sym (sum_at-append key result (all_samples rest) (value_at key series)),
      )

  -- The series that a successful fetch hands on is that of a table with one entry for each instant, in
  -- strict order of time, in which an instant has the sum of its finite samples from all results, in
  -- the order of the answer, and it has at least as many values as the prediction needs.
  pub fetch_cpu_series-Sums :
      (n : ℕ) (payload : Payload) (values : List F)
      → fetch_cpu_series fl n payload ≡ some values
      → (table : List (ℤ × F)) × (values ≡ values_of table)
        × IsIncreasing table
        × ((key : ℤ) → value_at key table ≡ sum_at key (all_samples payload.results) none)
        × (n ≤ length values)
  unfolding fetch_cpu_series value_at
  fetch_cpu_series-Sums n payload values h =
      let (merged, found, filled) = fetched_lem n payload.results payload.is_success values h in
      let (distinct, sums) = results_lem payload.results [] merged found tt in
      let (same, long) = enough_lem n (values_of (sort merged)) values filled in
      (
        sort merged,
        sym same,
        sort-IsIncreasing merged distinct,
        λ key. value_at-sort key merged ∙ sums key,
        long,
      )
