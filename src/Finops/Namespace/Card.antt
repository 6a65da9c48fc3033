-- ===== src/Finops/Namespace/Card.antt =====
-- The approval card of a whole namespace: finops/app/clients.py, finops/app/main.py and alarm/main.py
-- together.
use practical_project.Base.{
  ℕ, ◌≡◌, refl, subst, ap, true, false, List, [], ◌∷◌, Option, none, some, All, All-append, All-map,
  Any, Option-cases, inl, inr,
}
use mathlib.Core.Option.{some-injective, none-ne-some}
use practical_project.Base.Int.{pos}
use practical_project.Base.Raises.{Ensures}
use practical_project.Base.Json.{Json, str, truthy}
use practical_project.Float.{Floats}
use practical_project.Float.Literal.{is_empty}
use practical_project.Finops.Krr.{Entry, Results, ScanKey, ScanState}
use practical_project.Finops.Krr.Values.{is_zero}
use practical_project.Finops.Krr.Sound.{IsSound}
use practical_project.Finops.Krr.Cached.{CacheIsSound, Prints, scan_namespace-AllSound}
use practical_project.Finops.Krr.Scans.{scan_namespace, get_namespace_recommendations}
use practical_project.Finops.Service.{Collected, AnalysisResponse, analyze_each}
use practical_project.Finops.Namespace.{
  Services, FinopsState, NamespaceAnswer, bad_duration, analyzed, report_workloads, collected_of,
  collect, analyze_scanned, analyze_namespace,
}
use practical_project.Finops.Namespace.Listed.{
  PassedFor, Gathered, ListedTarget, analyze_each-Listed, card-Listed,
}
use practical_project.Alarm.{Target}
use practical_project.Alarm.Gateway.{approvable}

filled_text :
    {F : Type 0} (fl : Floats F) (t : List ℕ)
    → truthy (is_zero fl) (str t) ≡ true
    → is_empty t ≡ false
filled_text fl [] h = cc h
filled_text fl (c ∷ cs) h = refl

module _ {F : Type 0} (fl : Floats F) (python_str : Json F → List ℕ) (Printed : Json F → Type 0)
    (services : Services F) where
  collected_of-Gathered :
      (namespace : List ℕ) (p : List ℕ × Entry F) (rest : Results F) (workload container : Json F)
      → IsSound fl python_str Printed namespace p
      → p.1.workload ≡ workload
      → p.1.container ≡ container
      → All
          (Gathered fl namespace (p ∷ rest))
          (collected_of fl python_str services namespace p.1 workload container)
  collected_of-Gathered namespace p rest (str w) (str c) s u v = (
    (
      inl (s.namespace_lem, u, v, s.no_job),
      filled_text fl c (subst (λ (j : Json F). truthy (is_zero fl) j ≡ true) v s.container_named),
    ),
    tt,
  )
  collected_of-Gathered namespace p rest _ _ s u v = tt

  collect-Gathered :
      (namespace : List ℕ) (results : Results F)
      → All (IsSound fl python_str Printed namespace) results
      → All (Gathered fl namespace results) (collect fl python_str services namespace results)
  unfolding collect
  collect-Gathered namespace [] h = tt
  collect-Gathered namespace ((key, e) ∷ rest) (s, h) =
      let p : List ℕ × Entry F = (key, e) in
      All-append (Gathered fl namespace (p ∷ rest))
        (collected_of fl python_str services namespace e e.workload e.container)
        (collect fl python_str services namespace rest)
        (collected_of-Gathered namespace p rest e.workload e.container s refl refl)
        (All-map (λ (c : Collected F) (g : Gathered fl namespace rest c). (inr g.0, g.1))
          (collect fl python_str services namespace rest) (collect-Gathered namespace rest h))

  Ensures-given :
      (namespace : List ℕ) (o : Option (Results F))
      → Ensures (All (IsSound fl python_str Printed namespace)) o
      → All (IsSound fl python_str Printed namespace) (elim o [ none ↦ [] | some r ↦ r ])
  Ensures-given namespace none h = tt
  Ensures-given namespace (some r) h = h

  given-AllSound :
      (namespace duration : List ℕ) (now : ℕ) (s s' : ScanState F) (results : Results F)
      → ((key : ScanKey) → Prints fl python_str Printed (services.run key))
      → CacheIsSound fl python_str Printed s
      → get_namespace_recommendations fl python_str services.run namespace duration now s
        ≡ some (results, s')
      → All (IsSound fl python_str Printed namespace) results
  unfolding get_namespace_recommendations
  given-AllSound namespace duration now s s' results prints cache h =
      elim (Option-cases (scan_namespace fl python_str services.run namespace duration now s)) [
        | inl invalid ↦ elim (none-ne-some (results, s') (rw invalid at h)) [ ]
        | inr ((o, s1), scanned) ↦
            let (sound, cached) =
              scan_namespace-AllSound fl python_str Printed services.run namespace duration now s s1
                o prints cache scanned in
            subst (All (IsSound fl python_str Printed namespace))
              (ap (λ (p : Results F × ScanState F). p.0)
                (some-injective _ (results, s') (rw scanned at h)))
              (Ensures-given namespace o sound)
      ]

  -- What a card covers of what KRR listed and of what was answered.
  abbrev pub CoversOnly : List ℕ → Results F → List (AnalysisResponse F) → Type 0
  CoversOnly namespace results rs =
      All (λ (t : Target). ListedTarget fl namespace results t × Any (PassedFor t) rs)
        (approvable (report_workloads rs))

  abbrev responses_in : NamespaceAnswer F → List (AnalysisResponse F)
  responses_in (analyzed rs) = rs
  responses_in _ = []

  refused_differs :
      {rs : List (AnalysisResponse F)} → ¬ (◌≡◌ {A = NamespaceAnswer F} bad_duration (analyzed rs))
  refused_differs h = cc h

  scanned-CoversOnly :
      (namespace : List ℕ) (now : ℕ) (results : Results F) (s : FinopsState F)
      → All (IsSound fl python_str Printed namespace) results
      → CoversOnly namespace results
          (responses_in (analyze_scanned fl python_str services namespace now results s).0)
  scanned-CoversOnly namespace now [] s h = card-Listed fl namespace [] [] tt
  scanned-CoversOnly namespace now (p ∷ results) s h =
      card-Listed fl namespace (p ∷ results)
        (analyze_each fl namespace (pos now)
          (collect fl python_str services namespace (p ∷ results)) s.service).0
        (analyze_each-Listed fl namespace (p ∷ results) (pos now)
          (collect fl python_str services namespace (p ∷ results)) s.service
          (collect-Gathered namespace (p ∷ results) h))

  -- The approval card that follows the analysis of a namespace covers only containers that KRR's scan,
  -- fresh or cached, lists outside jobs, and of these only such as have a response that passed. Every
  -- entry of that scan comes from a row that KRR printed and that names this namespace as its own.
  pub analyze_namespace-CoversOnly :
      (namespace duration : List ℕ) (now : ℕ) (s s' : FinopsState F)
      (rs : List (AnalysisResponse F))
      → ((key : ScanKey) → Prints fl python_str Printed (services.run key))
      → CacheIsSound fl python_str Printed s.scans
      → analyze_namespace fl python_str services namespace duration now s ≡ (analyzed rs, s')
      → (results : Results F) × (scans' : ScanState F) × (get_namespace_recommendations fl
            python_str services.run namespace duration now s.scans
          ≡ some (results, scans'))
        × All (IsSound fl python_str Printed namespace) results
        × CoversOnly namespace results rs
  unfolding analyze_namespace
  analyze_namespace-CoversOnly namespace duration now s s' rs prints cache h =
      elim (Option-cases
        (get_namespace_recommendations fl python_str services.run namespace duration now s.scans)) [
          | inl invalid ↦ absurd (
              refused_differs (
                ap (λ (p : NamespaceAnswer F × FinopsState F). p.0)
                  (rw (analyze_namespace, invalid) at h)))
          | inr ((results, scans'), asked) ↦
              let sound =
                given-AllSound namespace duration now s.scans scans' results prints cache asked in
              let answer =
                ap (λ (p : NamespaceAnswer F × FinopsState F). responses_in p.0)
                  (rw (analyze_namespace, asked) at h) in
              (
                results,
                scans',
                asked,
                sound,
                subst (CoversOnly namespace results) answer
                    (scanned-CoversOnly namespace now results (record s { scans = scans' }) sound),
              )
        ]
