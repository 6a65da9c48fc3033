-- ===== src/Finops/Krr/Cached.antt =====
-- What finops/app/clients.py answers of a scan, from the cache or from a run of KRR.
use practical_project.Base.{
  ℕ, ◌≡◌, refl, subst, true, false, List, [], ◌∷◌, ◌++◌, Option, none, some, All, Bool-cases,
  Option-cases, inl, inr, ◌⊎◌,
}
use mathlib.Core.Option.{some-injective, none-ne-some}
use practical_project.Base.Int.{ℤ}
use practical_project.Base.Classes.{nat_eq}
use practical_project.Base.Equality.{list_eq, pair_eq}
use practical_project.Base.Raises.{Ensures}
use practical_project.Base.Dict.{lookup, All-put, All-lookup}
use practical_project.Base.Json.{Json}
use practical_project.Float.{Floats}
use practical_project.Finops.Krr.{Results, Run, not_started, timed_out, exited, ScanKey, ScanState}
use practical_project.Finops.Krr.Values.{duration_hours}
use practical_project.Finops.Krr.Rows.{rows_of, parse_krr_output}
use practical_project.Finops.Krr.Sound.{IsSound, parse_krr_output-AllSound}
use practical_project.Finops.Krr.Scans.{
  is_krr_ttl_over, is_success, run_result, kept, refreshed, served, scan_namespace,
}

module _ {F : Type 0} (fl : Floats F) (python_str : Json F → List ℕ)
    (Printed : Json F → Type 0) where
  abbrev Cached : ScanKey × (Results F × ℕ) → Type 0
  Cached (key, (results, at)) = All (IsSound fl python_str Printed key.0) results

  -- Every entry of a cached result is sound for the namespace of its key.
  abbrev pub CacheIsSound : ScanState F → Type 0
  CacheIsSound s = All Cached s.cache

  abbrev SoundPair : List ℕ → Option (Results F) × ScanState F → Type 0
  SoundPair namespace (o, s) =
      Ensures (All (IsSound fl python_str Printed namespace)) o × CacheIsSound s

  -- The rows of what a run prints.
  abbrev pub Prints : Run F → Type 0
  Prints (exited code (some output)) = Ensures (All Printed) (rows_of output)
  Prints _ = Unit

  run_result-AllSound :
      (namespace : List ℕ) (r : Run F)
      → Prints r
      → Ensures
          (All (IsSound fl python_str Printed namespace))
          (run_result fl python_str namespace r)
  run_result-AllSound namespace not_started h = tt
  run_result-AllSound namespace timed_out h = tt
  run_result-AllSound namespace (exited code none) h = elim (Bool-cases (is_success code)) [
    | inr failed ↦ rw failed tt
    | inl succeeded ↦ rw succeeded tt
  ]
  run_result-AllSound namespace (exited code (some output)) h =
      elim (Bool-cases (is_success code)) [
        | inr failed ↦ rw failed tt
        | inl succeeded ↦
            rw succeeded (parse_krr_output-AllSound fl python_str Printed namespace output h)
      ]

  kept-Sound :
      (key : ScanKey) (now : ℕ) (o : Option (Results F)) (s : ScanState F)
      → Ensures (All (IsSound fl python_str Printed key.0)) o
      → CacheIsSound s
      → SoundPair key.0 (kept fl python_str key now o s)
  kept-Sound key now none s sound cache = (tt, cache)
  kept-Sound key now (some results) s sound cache =
      (sound, All-put Cached key (results, now) s.cache sound cache)

  refreshed-Sound :
      (run : ScanKey → Run F) (key : ScanKey) (now : ℕ) (s : ScanState F)
      → Prints (run key)
      → CacheIsSound s
      → SoundPair key.0 (refreshed fl python_str run key now s)
  refreshed-Sound run key now s prints cache =
      kept-Sound key now (run_result fl python_str key.0 (run key))
        (record s { runs = s.runs ++ key ∷ [] }) (run_result-AllSound key.0 (run key) prints) cache

  served-Sound :
      (run : ScanKey → Run F) (key : ScanKey) (now : ℕ) (o : Option (Results F × ℕ))
      (s : ScanState F)
      → lookup key s.cache ≡ o
      → Prints (run key)
      → CacheIsSound s
      → SoundPair key.0 (served fl python_str run key now o s)
  served-Sound run key now none s found prints cache = refreshed-Sound run key now s prints cache
  served-Sound run key now (some (r, at)) s found prints cache =
      elim (Bool-cases (is_krr_ttl_over now at)) [
        | inl over ↦ rw over (refreshed-Sound run key now s prints cache)
        | inr fresh ↦ rw fresh (All-lookup Cached key (r, at) s.cache found cache, cache)
      ]

  -- Whatever a scan answers, from the cache or from KRR, every entry comes from a row that KRR printed,
  -- in this run or an earlier one, and that names the namespace that was asked for as its own; it has
  -- the row's names and values, stands under the key made of the names, names its workload and its
  -- container and is no job. And the cache keeps holding such results only.
  pub scan_namespace-AllSound :
      (run : ScanKey → Run F) (namespace duration : List ℕ) (now : ℕ) (s s' : ScanState F)
      (answer : Option (Results F))
      → ((key : ScanKey) → Prints (run key))
      → CacheIsSound s
      → scan_namespace fl python_str run namespace duration now s ≡ some (answer, s')
      → Ensures (All (IsSound fl python_str Printed namespace)) answer × CacheIsSound s'
  unfolding scan_namespace
  scan_namespace-AllSound run namespace duration now s s' answer prints cache h =
      elim (Option-cases (duration_hours duration)) [
        | inl invalid ↦ elim (none-ne-some (answer, s') (rw invalid at h)) [ ]
        | inr (hours, valid) ↦
            let key : ScanKey = (namespace, hours) in
            let out = served fl python_str run key now (lookup key s.cache) s in
            subst (SoundPair namespace) (some-injective out (answer, s') (rw valid at h))
              (served-Sound run key now (lookup key s.cache) s refl (prints key) cache)
      ]

module _ {F : Type 0} (fl : Floats F) (python_str : Json F → List ℕ) where
  -- Why a run gives nothing.
  pub data Fails (namespace : List ℕ) : Run F → Type 0 where
    no_command : Fails namespace not_started
    too_slow : Fails namespace timed_out
    bad_exit :
        (code : ℤ) (output : Option (Json F))
        → is_success code ≡ false
        → Fails namespace (exited code output)
    no_json : (code : ℤ) → Fails namespace (exited code none)
    bad_shape :
        (code : ℤ) (output : Json F)
        → parse_krr_output fl python_str output namespace ≡ none
        → Fails namespace (exited code (some output))

  Fails-run_result :
      (namespace : List ℕ) (r : Run F)
      → Fails namespace r
      → run_result fl python_str namespace r ≡ none
  Fails-run_result namespace _ no_command = refl
  Fails-run_result namespace _ too_slow = refl
  Fails-run_result namespace _ (bad_exit code output h) = rw h refl
  Fails-run_result namespace _ (no_json code) = elim (Bool-cases (is_success code)) [
    | inl succeeded ↦ rw succeeded refl
    | inr failed ↦ rw failed refl
  ]
  Fails-run_result namespace _ (bad_shape code output h) = elim (Bool-cases (is_success code)) [
    | inl succeeded ↦ rw (succeeded, h) refl
    | inr failed ↦ rw failed refl
  ]

  -- A cache that has no result for a key, or one of five minutes ago or more.
  abbrev pub Misses : ScanKey → ℕ → ScanState F → Type 0
  Misses key now s =
      (lookup key s.cache ≡ none)
      ⊎ ((r : Results F) × (at : ℕ) × (lookup key s.cache ≡ some (r, at))
          × (is_krr_ttl_over now at ≡ true))

  -- When KRR is run and gives nothing, because it is not installed, takes too long, exits with an
  -- error or prints what is no JSON or has not the expected shape, then the scan answers `None` and
  -- caches nothing.
  pub scan_namespace-Fails :
      (run : ScanKey → Run F) (namespace duration hours : List ℕ) (now : ℕ) (s : ScanState F)
      → duration_hours duration ≡ some hours
      → Misses (namespace, hours) now s
      → Fails namespace (run (namespace, hours))
      → scan_namespace fl python_str run namespace duration now s
        ≡ some (none, record s { runs = s.runs ++ (namespace, hours) ∷ [] })
  unfolding scan_namespace
  scan_namespace-Fails run namespace duration hours now s d (inl missing) f =
      rw (d, missing, Fails-run_result namespace (run (namespace, hours)) f) refl
  scan_namespace-Fails run namespace duration hours now s d (inr (r, at, found, over)) f =
      rw (d, found, over, Fails-run_result namespace (run (namespace, hours)) f) refl
