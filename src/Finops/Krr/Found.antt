-- ===== src/Finops/Krr/Found.antt =====
-- The look-up of one container in a scan of finops/app/clients.py.
use practical_project.Base.{
  ℕ, ◌≡◌, refl, sym, subst, ap, ◌∙◌, true, false, List, [], ◌∷◌, ◌++◌, Option, none, some, All,
  Bool-cases, Option-cases, inl, inr,
}
use mathlib.Core.Option.{some-injective, none-ne-some}
use practical_project.Base.Classes.{nat_eq}
use practical_project.Base.Equality.{list_eq}
use practical_project.Base.Raises.{◌>>=◌, Ensures}
use practical_project.Base.Dict.{All-lookup}
use practical_project.Base.Json.{Json, is_text}
use practical_project.Float.{Floats}
use practical_project.Float.Literal.{is_empty}
use practical_project.Finops.Krr.{Entry, Results, Run, ScanKey, ScanState}
use practical_project.Finops.Krr.Rows.{is_job, identifier}
use practical_project.Finops.Krr.Sound.{IsSound, IsRow}
use practical_project.Finops.Krr.Cached.{CacheIsSound, Prints, scan_namespace-AllSound}
use practical_project.Finops.Krr.Scans.{
  scan_namespace, candidates, only, looked_up, get_recommendation,
}

module _ {F : Type 0} where
  -- Every entry of the workload is this one.
  abbrev pub Alone : List ℕ → Entry F → Results F → Type 0
  Alone deployment e [] = Unit
  Alone deployment e ((key, x) ∷ rest) =
      (is_text deployment x.workload ≡ true → x ≡ e) × Alone deployment e rest

  no_candidates :
      (deployment : List ℕ) (e : Entry F) (results : Results F)
      → candidates deployment results ≡ []
      → Alone deployment e results
  no_candidates deployment e [] h = tt
  no_candidates deployment e ((key, x) ∷ rest) h =
      elim (Bool-cases (is_text deployment x.workload)) [
        | inl same ↦ cc (rw same at h)
        | inr other ↦ (λ t. cc, no_candidates deployment e rest (rw other at h))
      ]

  only_cons : (e x : Entry F) (xs : List (Entry F)) → only (x ∷ xs) ≡ some e → (x ≡ e) × (xs ≡ [])
  only_cons e x [] h = (some-injective x e h, refl)
  only_cons e x (y ∷ ys) h = elim (none-ne-some e h) [ ]

  only-Alone :
      (deployment : List ℕ) (e : Entry F) (results : Results F)
      → only (candidates deployment results) ≡ some e
      → Alone deployment e results
  only-Alone deployment e [] h = tt
  only-Alone deployment e ((key, x) ∷ rest) h = elim (Bool-cases (is_text deployment x.workload)) [
    | inl same ↦
        let (here, empty) = only_cons e x (candidates deployment rest) (rw same at h) in
        (λ t. here, no_candidates deployment e rest empty)
    | inr other ↦ (λ t. cc, only-Alone deployment e rest (rw other at h))
  ]

  only-All {κ} :
      (P : Entry F → Type κ) (e : Entry F) (xs : List (Entry F)) → All P xs → only xs ≡ some e → P e
  only-All P e [] ps h = elim (none-ne-some e h) [ ]
  only-All P e (x ∷ xs) ps h = subst P (only_cons e x xs h).0 ps.0

module _ {F : Type 0} (fl : Floats F) (python_str : Json F → List ℕ)
    (Printed : Json F → Type 0) where
  -- An entry of a printed row of the namespace that is no job, and that was asked for: the only one of its workload
  -- where no container is given, and the one under the container's key where one is.
  pub record IsAnswer (deployment namespace container : List ℕ) (results : Results F) (e : Entry F)
      : Type 0 where
    pub in_namespace : e.namespace ≡ namespace
    pub row_lem : IsRow fl python_str Printed namespace e
    pub no_job : is_job e.kind ≡ false
    pub alone :
        is_empty container ≡ true
        → (is_text deployment e.workload ≡ true) × Alone deployment e results
    pub named :
        is_empty container ≡ false
        → identifier fl python_str namespace e.workload e.container
          ≡ namespace ++ 47 ∷ (deployment ++ 47 ∷ container)

  candidates-All :
      (deployment namespace : List ℕ) (results : Results F)
      → All (IsSound fl python_str Printed namespace) results
      → All
          (λ (e : Entry F).
            (e.namespace ≡ namespace)
            × IsRow fl python_str Printed namespace e
            × (is_job e.kind ≡ false)
            × (is_text deployment e.workload ≡ true))
          (candidates deployment results)
  candidates-All deployment namespace [] h = tt
  candidates-All deployment namespace ((key, x) ∷ rest) (s, h) =
      elim (Bool-cases (is_text deployment x.workload)) [
        | inl same ↦ rw same (
          (s.namespace_lem, s.row_lem, s.no_job, same),
          candidates-All deployment namespace rest h,
        )
        | inr other ↦ rw other (candidates-All deployment namespace rest h)
      ]

  looked_up-IsAnswer :
      (deployment namespace container : List ℕ) (results : Results F) (e : Entry F)
      → All (IsSound fl python_str Printed namespace) results
      → looked_up deployment namespace container results ≡ some e
      → IsAnswer deployment namespace container results e
  looked_up-IsAnswer deployment namespace container results e sound h =
      elim (Bool-cases (is_empty container)) [
        | inl open_ended ↦
            let found = rw open_ended at h in
            let facts =
              only-All
                (λ (x : Entry F).
                  (x.namespace ≡ namespace)
                  × IsRow fl python_str Printed namespace x
                  × (is_job x.kind ≡ false)
                  × (is_text deployment x.workload ≡ true))
                e (candidates deployment results)
                (candidates-All deployment namespace results sound) found in
            record {
              in_namespace = facts.0;
              row_lem = facts.1;
              no_job = facts.2;
              alone = λ t. (facts.3, only-Alone deployment e results found);
              named = λ t. cc;
            }
        | inr given ↦
            let key = namespace ++ 47 ∷ (deployment ++ 47 ∷ container) in
            let s =
              All-lookup (IsSound fl python_str Printed namespace) key e results (rw given at h)
                sound in
            record {
              in_namespace = s.namespace_lem;
              row_lem = s.row_lem;
              no_job = s.no_job;
              alone = λ t. cc;
              named = λ t. sym s.key_lem;
            }
      ]

  found_in :
      (deployment namespace container : List ℕ) (o : Option (Results F)) (e : Entry F)
      → Ensures (All (IsSound fl python_str Printed namespace)) o
      → (o >>= looked_up deployment namespace container) ≡ some e
      → (results : Results F) × (o ≡ some results)
        × IsAnswer deployment namespace container results e
  found_in deployment namespace container none e sound h = elim (none-ne-some e h) [ ]
  found_in deployment namespace container (some results) e sound h =
      (results, refl, looked_up-IsAnswer deployment namespace container results e sound h)

  -- A recommendation that is found comes from a row that KRR printed and that names the namespace as
  -- its own, with the row's names and values, and belongs to no job. With a container given it
  -- stands under the key of the three names; with none, it is the only one of its workload in the scan
  -- that was answered, so that a workload of several containers is refused.
  pub get_recommendation-IsAnswer :
      (run : ScanKey → Run F) (deployment namespace container duration : List ℕ) (now : ℕ)
      (s s' : ScanState F) (e : Entry F)
      → ((key : ScanKey) → Prints fl python_str Printed (run key))
      → CacheIsSound fl python_str Printed s
      → get_recommendation fl python_str run deployment namespace container duration now s
        ≡ some (some e, s')
      → (results : Results F) × (scan_namespace fl python_str run namespace duration now s
          ≡ some (some results, s'))
        × IsAnswer deployment namespace container results e
  unfolding get_recommendation
  get_recommendation-IsAnswer run deployment namespace container duration now s s' e prints cache
        h =
      elim (Option-cases (scan_namespace fl python_str run namespace duration now s)) [
        | inl invalid ↦ elim (none-ne-some (some e, s') (rw invalid at h)) [ ]
        | inr ((o, s1), scanned) ↦
            let pair =
              some-injective (o >>= looked_up deployment namespace container, s1) (some e, s')
                (rw scanned at h) in
            let (sound, cached) =
              scan_namespace-AllSound fl python_str Printed run namespace duration now s s1 o prints
                cache scanned in
            let (results, given, answer) =
              found_in deployment namespace container o e sound
                (ap (λ (p : Option (Entry F) × ScanState F). p.0) pair) in
            let state : s1 ≡ s' = ap (λ (p : Option (Entry F) × ScanState F). p.1) pair in
            (
              results,
              scanned
                  ∙ ap (λ (x : Option (Results F)). some (x, s1)) given
                  ∙ ap (λ (t : ScanState F). some (some results, t)) state,
              answer,
            )
      ]
