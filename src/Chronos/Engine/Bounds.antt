-- ===== src/Chronos/Engine/Bounds.antt =====
-- The replicas that a forecast asks for.
use practical_project.Base.{
  ◌≡◌, subst, Bool, true, false, not, ◌&&◌, List, Option, none, some, ℕ, arith, length, and_then,
  and_then-some, if◌then◌else◌,
}
use practical_project.Base.Int.{ℤ, ltb_ℤ, ◌≤ℤ◌}
use mathlib.Core.Option.{some-injective}
use practical_project.Float.{Floats}
use practical_project.Chronos.{ForecastSettings, ForecastResult}
use practical_project.Chronos.Engine.{
  validate, bounded, finished, replicas_now, Options, max_ℤ, min_ℤ, replicas_for, demand, result_of,
  forecast,
}

clamped_lem :
    (low high n : ℤ)
    → ltb_ℤ high low ≡ false
    → (low ≤ℤ min_ℤ high (max_ℤ low n)) × (min_ℤ high (max_ℤ low n) ≤ℤ high)
clamped_lem low high n h = ground arith

valid_bounds :
    {F : Type 0} (s : ForecastSettings F)
    → validate s ≡ none
    → ltb_ℤ s.max_replicas s.min_replicas ≡ false
unfolding validate
valid_bounds s h = ground arith

skipped :
    (preserve below : Bool) (kept counted : Option ℤ) (n : ℤ)
    → preserve ≡ false
    → (if preserve && below then kept else counted) ≡ some n
    → counted ≡ some n
skipped true below kept counted n h e = ground arith
skipped false below kept counted n h e = e

chosen : (clamp : Bool) (a b n : ℤ) → clamp ≡ true → some (if clamp then a else b) ≡ some n → a ≡ n
chosen true a b n h e = some-injective a n e
chosen false a b n h e = ground arith

module _ {F : Type 0} (fl : Floats F) where
  replicas_for-bounds :
      (s : ForecastSettings F) (options : Options) (current n : ℤ) (predicted_cpu : F)
      → validate s ≡ none
      → options.preserve_current_when_below_threshold ≡ false
      → options.clamp_to_max_replicas ≡ true
      → replicas_for fl s options current predicted_cpu ≡ some n
      → (s.min_replicas ≤ℤ n) × (n ≤ℤ s.max_replicas)
  unfolding replicas_for
  replicas_for-bounds s options current n predicted_cpu valid eager clamp h =
      let ceiling = fl.ceil (fl.div predicted_cpu s.capacity_per_replica_cores) in
      let count = λ (needed : ℤ). some (bounded fl s options needed) in
      let eager_count =
        skipped options.preserve_current_when_below_threshold
          (not (fl.lt s.threshold_cores predicted_cpu)) (some current) (and_then ceiling count) n
          eager h in
      let (needed, _, same) = and_then-some ceiling count n eager_count in
      let enough = max_ℤ s.min_replicas needed in
      let exact =
        chosen options.clamp_to_max_replicas (min_ℤ s.max_replicas enough) enough n clamp same in
      subst (λ (x : ℤ). (s.min_replicas ≤ℤ x) × (x ≤ℤ s.max_replicas)) exact
        (clamped_lem s.min_replicas s.max_replicas needed (valid_bounds s valid))

  -- For settings that `validate` accepts, a forecast of the service, which clamps and does not
  -- preserve the current count, asks for a count within the configured bounds, whatever was measured
  -- and predicted.
  pub forecast-InBounds :
      (s : ForecastSettings F) (options : Options) (fetched : Option (List F))
      (model : List F → ℕ → F) (provided : Option ℤ) (now : ℤ) (r : ForecastResult F)
      → validate s ≡ none
      → options.preserve_current_when_below_threshold ≡ false
      → options.clamp_to_max_replicas ≡ true
      → forecast fl s options fetched model provided now ≡ some r
      → (s.min_replicas ≤ℤ r.predicted_replicas) × (r.predicted_replicas ≤ℤ s.max_replicas)
  unfolding forecast finished
  forecast-InBounds s options fetched model provided now r valid eager clamp h =
      let ((values, predicted_cpu), _, inner) =
        and_then-some (demand fl s fetched model) (finished fl s options provided now) r h in
      let current = replicas_now fl s provided in
      let result = λ (n : ℤ). result_of fl s now current (length values) predicted_cpu n in
      let (n, counted, same) =
        and_then-some (replicas_for fl s options current predicted_cpu) (λ (n : ℤ). some (result n))
          r inner in
      let bounds =
        replicas_for-bounds s options current n predicted_cpu valid eager clamp counted in
      subst
        (λ (x : ForecastResult F).
          (s.min_replicas ≤ℤ x.predicted_replicas) × (x.predicted_replicas ≤ℤ s.max_replicas))
        (some-injective (result n) r same) bounds
