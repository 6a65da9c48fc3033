-- ===== src/Chronos/Sound.antt =====
-- A target's state, gauges and counters in chronos/app.py, from round to round.
use practical_project.Base.{
  ◌*◌, ◌≡◌, refl, sym, subst, ◌∙◌, ap, ◌⊎◌, inl, inr, String, Bool, true, false, not, List, [], ◌∷◌,
  ◌++◌, Option, none, some, if◌then◌else◌, All, All-append, Bool-cases,
}
use practical_project.Base.Int.{ℤ, pos, ◌-ℤ◌, ltb_ℤ}
use mathlib.Core.Option.{some-injective}
use practical_project.Float.{Floats}
use practical_project.Chronos.{ForecastSettings, ForecastResult}
use practical_project.Chronos.Runtime.{
  Outcome, ok, raised, Cell, is_active, is_disabled, is_registered, fresh_cell, inactive_metrics,
  register, start, recorded, run_once_for, aged, silenced, refresh_expiry_for, run_once,
  refresh_all_expiry, key_of, same_key, update,
}

module _ {F : Type 0} where
  -- A target that asks for nothing.
  pub record IsSilent (c : Cell F) : Type 0 where
    pub not_valid : c.valid ≡ false
    pub gauge_off : c.metrics.forecast_valid ≡ 0
    pub no_scaling : c.metrics.scaling_replicas ≡ pos 0

  -- A target whose latest forecast is valid: the signal is its replica count if the target is active.
  pub record IsLive (c : Cell F) (r : ForecastResult F) : Type 0 where
    pub is_valid : c.valid ≡ true
    pub is_latest : c.latest ≡ some r
    pub gauge_on : c.metrics.forecast_valid ≡ 1
    pub scaling_lem :
        c.metrics.scaling_replicas
        ≡ (if is_active c.settings.mode then r.predicted_replicas else pos 0)

  abbrev pub IsSound : Cell F → Type 0
  IsSound c = IsSilent c ⊎ ((r : ForecastResult F) × IsLive c r)

  -- A forecast is within its target's time to live.
  abbrev pub in_time : ℤ → Cell F → ForecastResult F → Bool
  in_time now c r =
      not (ltb_ℤ (pos (c.settings.forecast_ttl_seconds * 1000000)) (now -ℤ r.timestamp))

  abbrev pub IsFresh : ℤ → Cell F → Type 0
  IsFresh now c = IsSilent c ⊎ ((r : ForecastResult F) × IsLive c r × (in_time now c r ≡ true))

module _ {F : Type 0} (fl : Floats F) where
  fresh_cell-IsSound : (s : ForecastSettings F) → IsSound (fresh_cell fl s)
  unfolding fresh_cell
  fresh_cell-IsSound s = inl (record { not_valid = refl; gauge_off = refl; no_scaling = refl })

  recorded-IsSound : (o : Outcome F) (elapsed : F) (c : Cell F) → IsSound (recorded fl o elapsed c)
  recorded-IsSound (raised text) elapsed c =
      inl (record { not_valid = refl; gauge_off = refl; no_scaling = refl })
  recorded-IsSound (ok r) elapsed c =
      inr (r, record { is_valid = refl; is_latest = refl; gauge_on = refl; scaling_lem = refl })

  pub run_once_for-IsSound :
      (o : Outcome F) (elapsed : F) (c : Cell F) → IsSound (run_once_for fl o elapsed c)
  unfolding run_once_for inactive_metrics
  run_once_for-IsSound o elapsed c = elim (Bool-cases (is_disabled c.settings.mode)) [
    | inl off ↦
        rw (run_once_for, off)
          (inl (record { not_valid = refl; gauge_off = refl; no_scaling = refl }))
    | inr on ↦ rw (run_once_for, on) (recorded-IsSound o elapsed c)
  ]

  silenced-IsSilent : (c : Cell F) → c.valid ≡ false → IsSilent (silenced fl c)
  silenced-IsSilent c h = record {
    not_valid = rw h refl;
    gauge_off = rw h refl;
    no_scaling = rw h refl;
  }

  live-kept : (c : Cell F) (r : ForecastResult F) → IsLive c r → silenced fl c ≡ c
  live-kept c r live = rw live.is_valid refl

  checked-IsFresh :
      (now : ℤ) (c : Cell F) (r : ForecastResult F)
      → c.latest ≡ some r
      → IsSound c
      → IsFresh now (silenced fl (aged fl now (some r) c))
  checked-IsFresh now c r found sound =
      elim (Bool-cases
        (ltb_ℤ (pos (c.settings.forecast_ttl_seconds * 1000000)) (now -ℤ r.timestamp))) [
          | inl old ↦
              rw old (inl (record { not_valid = refl; gauge_off = refl; no_scaling = refl }))
          | inr young ↦ elim sound [
            | inl silent ↦ rw young (inl (silenced-IsSilent c silent.not_valid))
            | inr (r', live) ↦
                let same : r' ≡ r = some-injective r' r (sym live.is_latest ∙ found) in
                let live' = subst (IsLive c) same live in
                rw (young, live-kept c r' live) (inr (r, live', ap not young))
          ]
        ]

  latest_cases-IsFresh :
      (now : ℤ) (c : Cell F) (latest : Option (ForecastResult F))
      → c.latest ≡ latest
      → IsSound c
      → IsFresh now (silenced fl (aged fl now latest c))
  latest_cases-IsFresh now c none found sound =
      inl (record { not_valid = refl; gauge_off = refl; no_scaling = refl })
  latest_cases-IsFresh now c (some r) found sound = checked-IsFresh now c r found sound

  pub refresh-IsFresh :
      (now : ℤ) (c : Cell F) → IsSound c → IsFresh now (refresh_expiry_for fl now c)
  unfolding refresh_expiry_for
  refresh-IsFresh now c sound = latest_cases-IsFresh now c c.latest refl sound

  pub IsFresh-IsSound : (now : ℤ) (c : Cell F) → IsFresh now c → IsSound c
  IsFresh-IsSound now c (inl silent) = inl silent
  IsFresh-IsSound now c (inr (r, live, young)) = inr (r, live)

  register-IsSound :
      (cells : List (Cell F)) (targets : List (ForecastSettings F))
      → All IsSound cells
      → All IsSound (register fl cells targets)
  unfolding register
  register-IsSound cells [] sound = sound
  register-IsSound cells (s ∷ rest) sound = elim (Bool-cases (is_registered fl s cells)) [
    | inl there ↦ rw there (register-IsSound cells rest sound)
    | inr missing ↦ rw missing (
        register-IsSound (cells ++ fresh_cell fl s ∷ []) rest
          (All-append IsSound cells (fresh_cell fl s ∷ []) sound (fresh_cell-IsSound s, tt)))
  ]

  pub start-IsSound :
      (s : ForecastSettings F) (extra : List (ForecastSettings F)) → All IsSound (start fl s extra)
  unfolding start
  start-IsSound s extra = register-IsSound (fresh_cell fl s ∷ []) extra (fresh_cell-IsSound s, tt)

  pub run_once-IsSound :
      (outcomes : String × String → Outcome F × F) (cells : List (Cell F))
      → All IsSound (run_once fl outcomes cells)
  unfolding run_once
  run_once-IsSound outcomes [] = tt
  run_once-IsSound outcomes (c ∷ cs) = (run_once_for-IsSound _ _ c, run_once-IsSound outcomes cs)

  pub every_target-IsFresh :
      (now : ℤ) (cells : List (Cell F))
      → All IsSound cells
      → All (IsFresh now) (refresh_all_expiry fl now cells)
  unfolding refresh_all_expiry
  every_target-IsFresh now [] sound = tt
  every_target-IsFresh now (c ∷ cs) (h, hs) =
      (refresh-IsFresh now c h, every_target-IsFresh now cs hs)

  pub update-IsSound :
      (key : String × String) (now : ℤ) (cells : List (Cell F))
      → All IsSound cells
      → All IsSound (update fl key (refresh_expiry_for fl now) cells)
  unfolding update
  update-IsSound key now [] sound = tt
  update-IsSound key now (c ∷ cs) (h, hs) = elim (Bool-cases (same_key key (key_of c.settings))) [
    | inl here ↦ rw here (IsFresh-IsSound now _ (refresh-IsFresh now c h), hs)
    | inr there ↦ rw there (h, update-IsSound key now cs hs)
  ]
