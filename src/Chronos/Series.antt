-- ===== src/Chronos/Series.antt =====
-- `fetch_cpu_series` of chronos/chronos_prometheus.py: the samples of a Prometheus answer, merged by
-- instant and sorted.
pub mod Sorted
pub mod Merged
use practical_project.Base.{
  ℕ, Bool, true, false, ◌&&◌, List, [], ◌∷◌, map, Option, none, some, length, ltb, and_then,
  if◌then◌else◌,
}
use practical_project.Base.Int.{ℤ, leb_ℤ}
use practical_project.Float.{Floats, lit}
use practical_project.Float.Literal.{float_of}

-- The answer to the query: whether its status is `success`, and for each result the instants and
-- texts of its samples.
pub record Payload : Type 0 where
  pub is_success : Bool
  pub results : List (List (ℤ × List ℕ))

abbrev pub same_instant : ℤ → ℤ → Bool
same_instant a b = leb_ℤ a b && leb_ℤ b a

module _ {F : Type 0} where
  -- `series_by_timestamp.get(key)`
  unfoldable pub value_at : ℤ → List (ℤ × F) → Option F
  value_at key [] = none
  value_at key ((k, v) ∷ rest) =
      let found = value_at key rest in if same_instant k key then some v else found

  unfoldable pub insert : ℤ → F → List (ℤ × F) → List (ℤ × F)
  insert key v [] = (key, v) ∷ []
  insert key v ((k, w) ∷ rest) =
      let behind = insert key v rest in
      if leb_ℤ key k then (key, v) ∷ (k, w) ∷ rest else (k, w) ∷ behind

  -- The entries in the order of `sorted(series_by_timestamp)`.
  unfoldable pub sort : List (ℤ × F) → List (ℤ × F)
  unfolding insert
  sort [] = []
  sort ((k, v) ∷ rest) = insert k v (sort rest)

  abbrev pub values_of : List (ℤ × F) → List F
  values_of [] = []
  values_of ((k, v) ∷ rest) = v ∷ values_of rest

module _ {F : Type 0} (fl : Floats F) where
  open fl use {of_numeral, add, is_finite}

  -- `series_by_timestamp[key] = series_by_timestamp.get(key, 0.0) + numeric`
  unfoldable pub add_at : ℤ → F → List (ℤ × F) → List (ℤ × F)
  add_at key numeric [] = (key, add (lit fl 0 0) numeric) ∷ []
  add_at key numeric ((k, v) ∷ rest) =
      let behind = add_at key numeric rest in
      if same_instant k key then (k, add v numeric) ∷ rest else (k, v) ∷ behind

  -- The samples of one result, `none` where a value is no number.
  unfoldable pub merge_samples : List (ℤ × List ℕ) → List (ℤ × F) → Option (List (ℤ × F))
  unfolding float_of add_at
  merge_samples [] series = some series
  merge_samples ((timestamp, value) ∷ rest) series = and_then (float_of value) (λ n.
      let numeric = of_numeral n in
      merge_samples rest (if is_finite numeric then add_at timestamp numeric series else series))

  unfoldable pub merge_results : List (List (ℤ × List ℕ)) → List (ℤ × F) → Option (List (ℤ × F))
  unfolding merge_samples
  merge_results [] series = some series
  merge_results (result ∷ rest) series = and_then (merge_samples result series) (merge_results rest)

  abbrev pub enough : ℕ → List F → Option (List F)
  enough prediction_length values =
      if ltb (length values) prediction_length then none else some values

  -- `none` where the function raises: the query failed, there is no data or there are too few points.
  unfoldable pub fetch_cpu_series : ℕ → Payload → Option (List F)
  unfolding merge_results sort
  fetch_cpu_series prediction_length payload = elim (payload.results) [
    | [] ↦ none
    | r ∷ rs ↦
        if payload.is_success
        then and_then (merge_results (r ∷ rs) [])
            (λ series. enough prediction_length (values_of (sort series)))
        else none
  ]
