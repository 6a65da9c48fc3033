-- ===== src/K6/Compare/Stability.antt =====
-- Throttling in k6/compare_bank_krr_runs.py: the largest values of a run and those of its workloads.
use practical_project.Base.{
  ◌≡◌, refl, sym, subst, true, false, List, [], ◌∷◌, Option, none, some, All, All-zip, Bool-cases,
  Option-cases, inl, inr,
}
use mathlib.Core.Option.{some-injective, none-ne-some}
use practical_project.Base.Raises.{◌>>=◌}
use practical_project.Float.{Floats}
use practical_project.K6.{WorkloadRun}
use practical_project.K6.Compare.{
  Thresholds, each_value, cpu_limited, limited, max_from, max_of, throttle_avg, throttle_p95,
  aggregate_stability,
}
use practical_project.K6.Compare.Verdict.{holds}

both_there :
    {A : Type 0} (o : Option A) (r : Option (List A)) (zs : List A)
    → (do x ← o; xs ← r; some (x ∷ xs)) ≡ some zs
    → (x : A) × (o ≡ some x) × (xs : List A) × (r ≡ some xs) × ((x ∷ xs) ≡ zs)
both_there none r zs h = elim (none-ne-some zs h) [ ]
both_there (some x) none zs h = elim (none-ne-some zs h) [ ]
both_there (some x) (some xs) zs h = (x, refl, xs, refl, some-injective (x ∷ xs) zs h)

module _ {F : Type 0} (fl : Floats F) where
  -- A number that is below the limit, unless it is no number.
  abbrev pub Below : F → F → Type 0
  Below limit x = fl.eq x x ≡ true → fl.lt x limit ≡ true

  max_from-Below :
      (limit m : F) (xs : List F)
      → fl.lt (max_from fl m xs) limit ≡ true
      → (fl.lt m limit ≡ true) × All (Below limit) xs
  max_from-Below limit m [] h = (h, tt)
  max_from-Below limit m (x ∷ xs) h = elim (Bool-cases (fl.lt m x)) [
    | inl above ↦
        let (here, rest) = max_from-Below limit x xs (rw above at h) in
        (fl.lt_trans m x limit above here, (λ e. here, rest))
    | inr not_above ↦
        let (here, rest) = max_from-Below limit m xs (rw not_above at h) in
        (here, (λ e. fl.lt_of_not_above x m limit here not_above e, rest))
  ]

  max_of-Below :
      (limit : F) (xs : List F)
      → holds (λ (x : F). fl.lt x limit) (max_of fl xs) ≡ true
      → All (Below limit) xs
  max_of-Below limit [] h = cc
  max_of-Below limit (x ∷ xs) h =
      let (here, rest) = max_from-Below limit x xs h in (λ e. here, rest)

  -- The value is there, and below the limit unless it is no number.
  abbrev pub HasBelow : F → (WorkloadRun F → Option F) → WorkloadRun F → Type 0
  HasBelow limit value w = (x : F) × (value w ≡ some x) × Below limit x

  collected :
      (limit : F) (value : WorkloadRun F → Option F) (items : List (WorkloadRun F)) (xs : List F)
      → each_value value items ≡ some xs
      → All (Below limit) xs
      → All (HasBelow limit value) items
  collected limit value [] xs h ps = tt
  collected limit value (w ∷ items) xs h ps =
      let (y, here, ys, rest, e) = both_there (value w) (each_value value items) xs h in
      let qs = subst (All (Below limit)) (sym e) ps in
      ((y, here, qs.0), collected limit value items ys rest qs.1)

  each_value-All :
      (limit : F) (value : WorkloadRun F → Option F) (items : List (WorkloadRun F))
      → holds (λ (x : F). fl.lt x limit) (each_value value items >>= max_of fl) ≡ true
      → All (HasBelow limit value) items
  each_value-All limit value items h = elim (Option-cases (each_value value items)) [
    | inl missing ↦ cc (rw missing at h)
    | inr (xs, found) ↦ collected limit value items xs found (max_of-Below limit xs (rw found at h))
  ]

  limited-All :
      (P : WorkloadRun F → Type 0) (items : List (WorkloadRun F))
      → All P (limited fl items)
      → All (λ (w : WorkloadRun F). cpu_limited fl w ≡ true → P w) items
  limited-All P [] h = tt
  limited-All P (w ∷ items) h = elim (Bool-cases (cpu_limited fl w)) [
    | inl yes_limited ↦
        let (here, rest) = rw yes_limited at h in (λ e. here, limited-All P items rest)
    | inr not_limited ↦ (λ e. cc, limited-All P items (rw not_limited at h))
  ]

  -- The workloads of a run with a CPU limit, when its largest values are below the limits.
  pub aggregate_stability-HasBelow :
      (t : Thresholds F) (items : List (WorkloadRun F))
      → holds
          (λ (x : F). fl.lt x t.cpu_throttling_avg_max)
          (aggregate_stability fl items).throttle_avg_max
        ≡ true
      → holds
          (λ (x : F). fl.lt x t.cpu_throttling_p95_max)
          (aggregate_stability fl items).throttle_p95_max
        ≡ true
      → All
          (λ (w : WorkloadRun F).
            cpu_limited fl w ≡ true
            → HasBelow t.cpu_throttling_avg_max throttle_avg w
              × HasBelow t.cpu_throttling_p95_max throttle_p95 w)
          items
  unfolding aggregate_stability
  aggregate_stability-HasBelow t items h k =
      let avgs = each_value-All t.cpu_throttling_avg_max throttle_avg (limited fl items) h in
      let p95s = each_value-All t.cpu_throttling_p95_max throttle_p95 (limited fl items) k in
      limited-All
        (λ (w : WorkloadRun F).
          HasBelow t.cpu_throttling_avg_max throttle_avg w
          × HasBelow t.cpu_throttling_p95_max throttle_p95 w)
        items
        (All-zip (HasBelow t.cpu_throttling_avg_max throttle_avg)
          (HasBelow t.cpu_throttling_p95_max throttle_p95) (limited fl items) avgs p95s)

  limited-none :
      (items : List (WorkloadRun F))
      → All (λ (w : WorkloadRun F). cpu_limited fl w ≡ false) items
      → limited fl items ≡ []
  limited-none [] h = refl
  limited-none (w ∷ items) (h, hs) = rw (h, limited-none items hs) refl

  -- A run with no CPU limit has no largest value.
  pub aggregate_stability-Unlimited :
      (t : Thresholds F) (items : List (WorkloadRun F))
      → All (λ (w : WorkloadRun F). cpu_limited fl w ≡ false) items
      → holds
          (λ (x : F). fl.lt x t.cpu_throttling_avg_max)
          (aggregate_stability fl items).throttle_avg_max
        ≡ false
  unfolding aggregate_stability
  aggregate_stability-Unlimited t items h = rw (limited-none items h) refl
