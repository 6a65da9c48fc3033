-- ===== src/Finops/Krr/Scans.antt =====
-- The cached scan of finops/app/clients.py and the look-ups in it.
use practical_project.Base.{
  ℕ, zero, ◌-◌, Bool, true, false, List, [], ◌∷◌, ◌++◌, Option, none, some, leb, if◌then◌else◌,
}
use practical_project.Base.Int.{ℤ, pos}
use practical_project.Base.Classes.{nat_eq}
use practical_project.Base.Equality.{list_eq, pair_eq}
use practical_project.Base.Raises.{◌>>=◌}
use practical_project.Base.Dict.{lookup, put}
use practical_project.Base.Json.{Json, is_text}
use practical_project.Float.{Floats}
use practical_project.Float.Literal.{is_empty}
use practical_project.Finops.Krr.{
  Entry, Results, Run, not_started, timed_out, exited, ScanKey, ScanState,
}
use practical_project.Finops.Krr.Values.{duration_hours}
use practical_project.Finops.Krr.Rows.{parse_krr_output}

abbrev pub is_krr_ttl_over : ℕ → ℕ → Bool
is_krr_ttl_over now cached_at = leb 300000000 (now - cached_at)

abbrev pub is_success : ℤ → Bool
is_success (pos zero) = true
is_success _ = false

module _ {F : Type 0} where
  -- The entries of a workload, and the one entry if there is no other.
  abbrev pub candidates : List ℕ → Results F → List (Entry F)
  candidates deployment [] = []
  candidates deployment ((key, e) ∷ rest) =
      let others = candidates deployment rest in
      if is_text deployment e.workload then e ∷ others else others

  abbrev pub only : List (Entry F) → Option (Entry F)
  only [] = none
  only (e ∷ []) = some e
  only (e ∷ d ∷ rest) = none

  abbrev pub looked_up : List ℕ → List ℕ → List ℕ → Results F → Option (Entry F)
  looked_up deployment namespace container results =
      if is_empty container
      then only (candidates deployment results)
      else lookup (namespace ++ 47 ∷ (deployment ++ 47 ∷ container)) results

module _ {F : Type 0} (fl : Floats F) (python_str : Json F → List ℕ) where
  -- What a run gives: every exception is caught.
  abbrev pub run_result : List ℕ → Run F → Option (Results F)
  run_result namespace not_started = none
  run_result namespace timed_out = none
  run_result namespace (exited code output) =
      if is_success code then (output >>= λ j. parse_krr_output fl python_str j namespace) else none

  abbrev pub kept :
      ScanKey → ℕ → Option (Results F) → ScanState F → Option (Results F) × ScanState F
  kept key now none s = (none, s)
  kept key now (some results) s =
      (some results, record s { cache = put key (results, now) s.cache })

  module _ (run : ScanKey → Run F) where
    -- A scan that misses the cache: KRR runs, and only what it gives is kept.
    abbrev pub refreshed : ScanKey → ℕ → ScanState F → Option (Results F) × ScanState F
    refreshed key now s =
        kept key now (run_result key.0 (run key)) (record s { runs = s.runs ++ key ∷ [] })

    abbrev pub served :
        ScanKey → ℕ → Option (Results F × ℕ) → ScanState F → Option (Results F) × ScanState F
    served key now none s = refreshed key now s
    served key now (some (results, cached_at)) s =
        if is_krr_ttl_over now cached_at then refreshed key now s else (some results, s)

    abbrev pub scanned :
        List ℕ → Option (List ℕ) → ℕ → ScanState F → Option (Option (Results F) × ScanState F)
    scanned namespace none now s = none
    scanned namespace (some hours) now s =
        some (served (namespace, hours) now (lookup (namespace, hours) s.cache) s)

    -- `_scan_namespace`: `none` is the `ValueError` of a duration; the inner `none` is returned.
    unfoldable pub scan_namespace :
        List ℕ → List ℕ → ℕ → ScanState F → Option (Option (Results F) × ScanState F)
    unfolding duration_hours parse_krr_output lookup put
    scan_namespace namespace duration now s = scanned namespace (duration_hours duration) now s

    -- `get_recommendation`; a container that is not given is empty.
    unfoldable pub get_recommendation :
        List ℕ
        → List ℕ
        → List ℕ
        → List ℕ
        → ℕ
        → ScanState F
        → Option (Option (Entry F) × ScanState F)
    unfolding scan_namespace lookup
    get_recommendation deployment namespace container duration now s = do
      (results, s') ← scan_namespace namespace duration now s
      some (results >>= looked_up deployment namespace container, s')

    -- `get_namespace_recommendations`
    unfoldable pub get_namespace_recommendations :
        List ℕ → List ℕ → ℕ → ScanState F → Option (Results F × ScanState F)
    unfolding scan_namespace
    get_namespace_recommendations namespace duration now s = do
      (results, s') ← scan_namespace namespace duration now s
      some (elim results [ none ↦ [] | some r ↦ r ], s')
