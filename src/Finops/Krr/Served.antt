-- ===== src/Finops/Krr/Served.antt =====
-- Sequences of scans of finops/app/clients.py, and what the cache holds between them.
use practical_project.Base.{
  ℕ, ◌+◌, ◌≢◌, length, length-append, ◌-◌, ◌<◌, ◌≡◌, refl, ◌∙◌, ap, false, List, [], ◌∷◌, ◌++◌,
  Option, none, some, arith, All, Bool-cases, Option-cases, inl, inr,
}
use mathlib.Core.Option.{some-injective, none-ne-some}
use practical_project.Base.Classes.{nat_eq, ◌==◌, ==-self}
use practical_project.Base.Equality.{list_eq, pair_eq, pair_beq_iff}
use practical_project.Base.Dict.{lookup, lookup-put}
use practical_project.Base.Json.{Json}
use practical_project.Float.{Floats}
use practical_project.Finops.Krr.{Results, Run, ScanKey, ScanState}
use practical_project.Finops.Krr.Values.{duration_hours}
use practical_project.Finops.Krr.Scans.{is_krr_ttl_over, run_result, kept, served, scan_namespace}

-- A scan that is asked for: its arguments, the instant, and how KRR would end if it ran.
pub record ScanCall (F : Type 0) : Type 0 where
  pub namespace : List ℕ
  pub duration : List ℕ
  pub now : ℕ
  pub run : ScanKey → Run F

no_longer : (runs : List ScanKey) (key : ScanKey) → runs ≢ runs ++ key ∷ []
no_longer runs key h =
    let n : length runs ≡ length runs + 1 = ap length h ∙ length-append runs (key ∷ []) in
    omega arith

module _ {F : Type 0} (fl : Floats F) (python_str : Json F → List ℕ) where
  abbrev pub state_after : Option (Option (Results F) × ScanState F) → ScanState F → ScanState F
  state_after none s = s
  state_after (some (results, s')) s = s'

  abbrev pub scan_once : ScanCall F → ScanState F → ScanState F
  scan_once c s = state_after (scan_namespace fl python_str c.run c.namespace c.duration c.now s) s

  abbrev pub scan_each : List (ScanCall F) → ScanState F → ScanState F
  scan_each [] s = s
  scan_each (c ∷ cs) s = scan_each cs (scan_once c s)

  kept_elsewhere :
      (k key : ScanKey) (now : ℕ) (o : Option (Results F)) (s : ScanState F)
      → (k == key) ≡ false
      → lookup k (kept fl python_str key now o s).1.cache ≡ lookup k s.cache
  kept_elsewhere k key now none s other = refl
  kept_elsewhere k key now (some results) s other =
      lookup-put k key (results, now) s.cache ∙ rw other refl

  served_elsewhere :
      (run : ScanKey → Run F) (k key : ScanKey) (now : ℕ) (o : Option (Results F × ℕ))
      (s : ScanState F)
      → (k == key) ≡ false
      → lookup k (served fl python_str run key now o s).1.cache ≡ lookup k s.cache
  served_elsewhere run k key now none s other =
      kept_elsewhere k key now (run_result fl python_str key.0 (run key))
        (record s { runs = s.runs ++ key ∷ [] }) other
  served_elsewhere run k key now (some (results, at)) s other =
      elim (Bool-cases (is_krr_ttl_over now at)) [
        | inl over ↦ rw over (
            kept_elsewhere k key now (run_result fl python_str key.0 (run key))
              (record s { runs = s.runs ++ key ∷ [] }) other)
        | inr fresh ↦ rw fresh refl
      ]

  fresh_lem : (now at : ℕ) → now - at < 300000000 → is_krr_ttl_over now at ≡ false
  fresh_lem now at h = ground arith

  -- A cached result that is still fresh is given, and nothing changes.
  hit :
      (run : ScanKey → Run F) (namespace duration hours : List ℕ) (now at : ℕ) (s : ScanState F)
      (results : Results F)
      → duration_hours duration ≡ some hours
      → lookup (namespace, hours) s.cache ≡ some (results, at)
      → now - at < 300000000
      → scan_namespace fl python_str run namespace duration now s ≡ some (some results, s)
  unfolding scan_namespace
  hit run namespace duration hours now at s results d found fresh =
      rw (d, found, fresh_lem now at fresh) refl

  scan_once_keeps :
      (c : ScanCall F) (key : ScanKey) (at : ℕ) (s : ScanState F) (results : Results F)
      → lookup key s.cache ≡ some (results, at)
      → c.now - at < 300000000
      → lookup key (scan_once c s).cache ≡ some (results, at)
  unfolding scan_namespace
  scan_once_keeps c key at s results found fresh = elim (Option-cases (duration_hours c.duration)) [
    | inl invalid ↦ rw invalid found
    | inr (hours, valid) ↦ elim (Bool-cases (key == (c.namespace, hours))) [
      | inl same ↦
          let e : key ≡ (c.namespace, hours) = (pair_beq_iff key (c.namespace, hours)).0 same in
          let found' = rw e at found in
          rw (hit c.run c.namespace c.duration hours c.now at s results valid found' fresh) found
      | inr other ↦ rw valid (
          served_elsewhere c.run key (c.namespace, hours) c.now
            (lookup (c.namespace, hours) s.cache) s other
          ∙ found)
    ]
  ]

  scan_each_keeps :
      (cs : List (ScanCall F)) (key : ScanKey) (at : ℕ) (s : ScanState F) (results : Results F)
      → lookup key s.cache ≡ some (results, at)
      → All (λ (c : ScanCall F). c.now - at < 300000000) cs
      → lookup key (scan_each cs s).cache ≡ some (results, at)
  scan_each_keeps [] key at s results found fresh = found
  scan_each_keeps (c ∷ cs) key at s results found (f, fs) =
      scan_each_keeps cs key at (scan_once c s) results (scan_once_keeps c key at s results found f)
        fs

  kept_found :
      (key : ScanKey) (now : ℕ) (o : Option (Results F)) (s : ScanState F) (results : Results F)
      → (kept fl python_str key now o s).0 ≡ some results
      → lookup key (kept fl python_str key now o s).1.cache ≡ some (results, now)
  kept_found key now none s results h = elim (none-ne-some results h) [ ]
  kept_found key now (some r) s results h =
      lookup-put key key (r, now) s.cache
      ∙ rw (==-self key) (ap (λ (x : Results F). some (x, now)) (some-injective r results h))

  served_found :
      (run : ScanKey → Run F) (key : ScanKey) (now : ℕ) (o : Option (Results F × ℕ))
      (s : ScanState F) (results : Results F)
      → (served fl python_str run key now o s).0 ≡ some results
      → (served fl python_str run key now o s).1.runs ≡ s.runs ++ key ∷ []
      → lookup key (served fl python_str run key now o s).1.cache ≡ some (results, now)
  served_found run key now none s results h ran =
      kept_found key now (run_result fl python_str key.0 (run key))
        (record s { runs = s.runs ++ key ∷ [] }) results h
  served_found run key now (some (r, at)) s results h ran =
      elim (Bool-cases (is_krr_ttl_over now at)) [
        | inl over ↦ rw over (
            kept_found key now (run_result fl python_str key.0 (run key))
              (record s { runs = s.runs ++ key ∷ [] }) results (rw over at h))
        | inr fresh ↦ absurd (no_longer s.runs key (rw fresh at ran))
      ]

  -- When a scan has run KRR and has results, then for five minutes every scan of the namespace over a
  -- history of as many hours, however the duration is written and whatever is scanned in between,
  -- gives the same results without running KRR.
  pub scan_namespace-served :
      (run later : ScanKey → Run F) (namespace duration duration' hours : List ℕ) (at now : ℕ)
      (s s' : ScanState F) (results : Results F) (between : List (ScanCall F))
      → duration_hours duration ≡ some hours
      → duration_hours duration' ≡ some hours
      → scan_namespace fl python_str run namespace duration at s ≡ some (some results, s')
      → s'.runs ≡ s.runs ++ (namespace, hours) ∷ []
      → All (λ (c : ScanCall F). c.now - at < 300000000) between
      → now - at < 300000000
      → scan_namespace fl python_str later namespace duration' now (scan_each between s')
        ≡ some (some results, scan_each between s')
  unfolding scan_namespace
  scan_namespace-served run later namespace duration duration' hours at now s s' results between d
        d' first ran early fresh =
      let o = lookup (namespace, hours) s.cache in
      let out = served fl python_str run (namespace, hours) at o s in
      let e = some-injective out (some results, s') (rw d at first) in
      let state : out.1 ≡ s' = ap (λ (p : Option (Results F) × ScanState F). p.1) e in
      let found =
        served_found run (namespace, hours) at o s results
          (ap (λ (p : Option (Results F) × ScanState F). p.0) e)
          (ap (λ (t : ScanState F). t.runs) state ∙ ran) in
      hit later namespace duration' hours now at (scan_each between s') results d'
        (scan_each_keeps between (namespace, hours) at s' results (rw state at found) early) fresh
