-- ===== src/K6/Compare/Passed.antt =====
-- What a verdict of k6/compare_bank_krr_runs.py says of the two runs.
use practical_project.Base.{
  ℕ, ◌≡◌, refl, Bool, true, false, ◌&&◌, List, [], ◌∷◌, Option, none, some, arith, All, length,
  ==_iff, ◌==◌,
}
use practical_project.Base.Classes.{Eq}
use practical_project.Float.{Floats}
use practical_project.K6.{WorkloadRun, Report}
use practical_project.K6.Compare.{
  Thresholds, is_nil, items_of, cpu_limited, item_complete, every_complete, metrics_complete,
  throttle_avg, throttle_p95, aggregate_stability,
}
use practical_project.K6.Compare.Inputs.{SameInputs, equivalence_mismatches-SameInputs}
use practical_project.K6.Compare.Stability.{
  HasBelow, aggregate_stability-HasBelow, aggregate_stability-Unlimited,
}
use practical_project.K6.Compare.Rows.{throttling_stable}
use practical_project.K6.Compare.Verdict.{Checks, every_check, holds, checks, compare_passes}

left : (a b : Bool) → (a && b) ≡ true → (a ≡ true) × (b ≡ true)
left a b h = ground arith

first_false : (a b : Bool) → a ≡ false → (a && b) ≡ false
first_false a b h = ground arith

second_false : (a b : Bool) → b ≡ false → (a && b) ≡ false
second_false a b h = ground arith

record Passed (c : Checks) : Type 0 where
  inputs_ok : c.equivalent_inputs ≡ true
  metrics_ok : c.complete_metrics ≡ true
  system_ok : c.system_error_rate ≡ true
  business_ok : c.business_failure_rate ≡ true
  avg_ok : c.cpu_throttling_avg ≡ true
  p95_ok : c.cpu_throttling_p95 ≡ true

every_check-Passed : (c : Checks) → every_check c ≡ true → Passed c
unfolding every_check
every_check-Passed c h = ground arith

throttled_fails : (c : Checks) → c.cpu_throttling_avg ≡ false → every_check c ≡ false
unfolding every_check
throttled_fails c h = ground arith

incomplete_fails : (c : Checks) → c.complete_metrics ≡ false → every_check c ≡ false
unfolding every_check
incomplete_fails c h = ground arith

is_nil-eq : (warnings : List (List ℕ)) → is_nil warnings ≡ true → warnings ≡ []
is_nil-eq [] h = refl
is_nil-eq (w ∷ ws) h = cc h

module _ {F : Type 0} (fl : Floats F) where
  -- A value that is there and below a limit.
  abbrev pub IsBelow : F → Option F → Type 0
  IsBelow limit o = (x : F) × (o ≡ some x) × (fl.lt x limit ≡ true)

  every_complete-All :
      (items : List (WorkloadRun F))
      → every_complete fl items ≡ true
      → All (λ (w : WorkloadRun F). item_complete fl w ≡ true) items
  every_complete-All [] h = tt
  every_complete-All (w ∷ items) h =
      let (here, rest) = left (item_complete fl w) (every_complete fl items) h in
      (here, every_complete-All items rest)

  holds-IsBelow :
      (limit : F) (o : Option F) → holds (λ (x : F). fl.lt x limit) o ≡ true → IsBelow limit o
  holds-IsBelow limit none h = cc
  holds-IsBelow limit (some x) h = (x, refl, h)

  unlimited_stable :
      (t : Thresholds F) (items : List (WorkloadRun F))
      → All (λ (w : WorkloadRun F). cpu_limited fl w ≡ false) items
      → All (λ (w : WorkloadRun F). throttling_stable fl t w ≡ true) items
  unfolding throttling_stable
  unlimited_stable t [] h = tt
  unlimited_stable t (w ∷ items) (h, hs) = (rw h refl, unlimited_stable t items hs)

module _ {F V : Type 0} (fl : Floats F) ⦃v_eq : Eq V⦄ (t : Thresholds F) where
  -- A run of eleven containers that was collected without a warning, every required metric with it.
  pub record IsComplete (r : Report F V) : Type 0 where
    pub eleven : length (items_of r.workloads) ≡ 11
    pub no_warning : r.collection_warnings ≡ []
    pub items_complete :
        All (λ (w : WorkloadRun F). item_complete fl w ≡ true) (items_of r.workloads)

  pub record IsAccepted (pre post : Report F V) : Type 0 where
    pub same_inputs : SameInputs fl pre post
    pub pre_complete : IsComplete pre
    pub post_complete : IsComplete post
    pub system_errors : IsBelow fl t.system_error_rate_max post.http.system_error_rate
    pub business_failures : IsBelow fl t.business_failure_rate_max post.http.business_failure_rate
    pub throttling :
        All
          (λ (w : WorkloadRun F).
            cpu_limited fl w ≡ true
            → HasBelow fl t.cpu_throttling_avg_max throttle_avg w
              × HasBelow fl t.cpu_throttling_p95_max throttle_p95 w)
          (items_of post.workloads)

  metrics_complete-IsComplete :
      (r : Report F V)
      → metrics_complete fl (items_of r.workloads) r.collection_warnings ≡ true
      → IsComplete r
  unfolding metrics_complete
  metrics_complete-IsComplete r h =
      let items = items_of r.workloads in
      let (front, complete) =
        left (length items == 11 && is_nil r.collection_warnings) (every_complete fl items) h in
      let (count, quiet) = left (length items == 11) (is_nil r.collection_warnings) front in
      record {
        eleven = (==_iff (length items) 11).0 count;
        no_warning = is_nil-eq r.collection_warnings quiet;
        items_complete = every_complete-All fl items complete;
      }

  -- A comparison that passes is of two runs with the same inputs, both complete, of which the second
  -- has failure rates below the limits; and in it no container with a CPU limit is throttled up to
  -- the limits, on average or at the 95th percentile, but for values that are no numbers.
  pub compare_passes-IsAccepted :
      (pre post : Report F V) → compare_passes fl t pre post ≡ true → IsAccepted pre post
  unfolding compare_passes checks
  compare_passes-IsAccepted pre post h =
      let p = every_check-Passed (checks fl t pre post) h in
      let (pre_ok, post_ok) =
        left (metrics_complete fl (items_of pre.workloads) pre.collection_warnings)
          (metrics_complete fl (items_of post.workloads) post.collection_warnings) p.metrics_ok in
      record {
        same_inputs = equivalence_mismatches-SameInputs fl pre post p.inputs_ok;
        pre_complete = metrics_complete-IsComplete pre pre_ok;
        post_complete = metrics_complete-IsComplete post post_ok;
        system_errors =
            holds-IsBelow fl t.system_error_rate_max post.http.system_error_rate p.system_ok;
        business_failures =
            holds-IsBelow fl t.business_failure_rate_max post.http.business_failure_rate
              p.business_ok;
        throttling = aggregate_stability-HasBelow fl t (items_of post.workloads) p.avg_ok p.p95_ok;
      }

  unlimited_fails :
      (pre post : Report F V)
      → holds
          (λ (x : F). fl.lt x t.cpu_throttling_avg_max)
          (aggregate_stability fl (items_of post.workloads)).throttle_avg_max
        ≡ false
      → compare_passes fl t pre post ≡ false
  unfolding compare_passes checks
  unlimited_fails pre post h = throttled_fails (checks fl t pre post) h

  -- When no container of the second run has a CPU limit, the verdict is FAIL whatever was measured,
  -- although each row of the table counts its throttling as stable.
  pub compare_passes-Unlimited :
      (pre post : Report F V)
      → All (λ (w : WorkloadRun F). cpu_limited fl w ≡ false) (items_of post.workloads)
      → (compare_passes fl t pre post ≡ false)
        × All (λ (w : WorkloadRun F). throttling_stable fl t w ≡ true) (items_of post.workloads)
  compare_passes-Unlimited pre post h = (
    unlimited_fails pre post (aggregate_stability-Unlimited fl t (items_of post.workloads) h),
    unlimited_stable fl t (items_of post.workloads) h,
  )

  -- A report with a warning passes neither as the first run nor as the second.
  pub compare_passes-Warned :
      (r other : Report F V)
      → is_nil r.collection_warnings ≡ false
      → (compare_passes fl t r other ≡ false) × (compare_passes fl t other r ≡ false)
  unfolding compare_passes checks metrics_complete
  compare_passes-Warned r other h =
      let incomplete : metrics_complete fl (items_of r.workloads) r.collection_warnings ≡ false =
        ground arith in
      (
        incomplete_fails (checks fl t r other) (
            first_false (metrics_complete fl (items_of r.workloads) r.collection_warnings)
              (metrics_complete fl (items_of other.workloads) other.collection_warnings)
              incomplete),
        incomplete_fails (checks fl t other r) (
            second_false (metrics_complete fl (items_of other.workloads) other.collection_warnings)
              (metrics_complete fl (items_of r.workloads) r.collection_warnings) incomplete),
      )
