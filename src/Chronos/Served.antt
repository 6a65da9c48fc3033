-- ===== src/Chronos/Served.antt =====
-- What the metrics and the API of chronos/app.py show after any history of rounds and requests.
use practical_project.Base.{
  ◌≡◌, ◌≢◌, refl, sym, subst, ◌∙◌, ap, inl, inr, String, Bool, true, false, List, [], ◌∷◌, Option,
  none, some, arith, All, Bool-cases,
}
use mathlib.Core.Option.{some-injective, none-ne-some}
use practical_project.Base.Int.{ℤ}
use practical_project.Float.{Floats}
use practical_project.Chronos.{Mode, ForecastSettings, ForecastResult}
use practical_project.Chronos.Runtime.{
  Outcome, Cell, start, aged, silenced, refresh_expiry_for, run_once, refresh_all_expiry, key_of,
  same_key, find, update, Prediction, Answer, predicted, predict, answer_of, answer_with, LastError,
}
use practical_project.Chronos.Sound.{
  IsSound, IsLive, IsFresh, in_time, IsFresh-IsSound, refresh-IsFresh, start-IsSound,
  run_once-IsSound, every_target-IsFresh, update-IsSound,
}

-- A forecast round, with what each target's forecast ends in; a reading of the metrics; a request for
-- one target's forecast.
pub data Event (F : Type 0) : Type 0 where
  round : (String × String → Outcome F × F) → Event F
  scrape : ℤ → Event F
  ask : String × String → ℤ → Event F

true_ne_false : true ≢ false
true_ne_false h = ground arith

module _ {F : Type 0} where
  abbrev result_in : Answer F → Option (ForecastResult F)
  result_in (predicted p) = some p.result
  result_in _ = none

  answered_lem :
      (error : Option LastError) (mode : Mode) (id : String) (valid : Bool)
      (latest : Option (ForecastResult F)) (p : Prediction F)
      → answer_with error mode id valid latest ≡ predicted p
      → (valid ≡ true) × (latest ≡ some p.result)
  answered_lem error mode id valid none p e = elim (none-ne-some p.result (ap result_in e)) [ ]
  answered_lem error mode id false (some r) p e = elim (none-ne-some p.result (ap result_in e)) [ ]
  answered_lem error mode id true (some r) p e = (refl, ap result_in e)

  answered_cell :
      (found : Option (Cell F)) (p : Prediction F)
      → answer_of found ≡ predicted p
      → (c : Cell F) × (found ≡ some c) × (answer_of (some c) ≡ predicted p)
  answered_cell none p e = elim (none-ne-some p.result (ap result_in e)) [ ]
  answered_cell (some c) p e = (c, refl, e)

  -- A forecast is answered for a cell only if the cell is valid.
  answered-IsFresh :
      (now : ℤ) (c : Cell F) (p : Prediction F)
      → answer_of (some c) ≡ predicted p
      → IsFresh now c
      → IsLive c p.result × (in_time now c p.result ≡ true)
  answered-IsFresh now c p e (inl silent) =
      let (valid, _) =
        answered_lem c.last_error c.settings.mode c.settings.model_id c.valid c.latest p e in
      elim (true_ne_false (sym valid ∙ silent.not_valid)) [ ]
  answered-IsFresh now c p e (inr (r, live, young)) =
      let (_, latest) =
        answered_lem c.last_error c.settings.mode c.settings.model_id c.valid c.latest p e in
      let same = some-injective r p.result (sym live.is_latest ∙ latest) in
      (
        subst (IsLive c) same live,
        subst (λ (x : ForecastResult F). in_time now c x ≡ true) same young,
      )

module _ {F : Type 0} (fl : Floats F) where
  abbrev pub step : Event F → List (Cell F) → List (Cell F)
  step (round outcomes) cells = run_once fl outcomes cells
  step (scrape now) cells = refresh_all_expiry fl now cells
  step (ask key now) cells = (predict fl key now cells).1

  abbrev pub history : List (Event F) → List (Cell F) → List (Cell F)
  history [] cells = cells
  history (e ∷ es) cells = history es (step e cells)

  every_target-IsSound :
      (now : ℤ) (cells : List (Cell F)) → All (IsFresh now) cells → All IsSound cells
  every_target-IsSound now [] h = tt
  every_target-IsSound now (c ∷ cs) (h, hs) =
      (IsFresh-IsSound fl now c h, every_target-IsSound now cs hs)

  step-IsSound :
      (e : Event F) (cells : List (Cell F)) → All IsSound cells → All IsSound (step e cells)
  unfolding predict
  step-IsSound (round outcomes) cells h = run_once-IsSound fl outcomes cells
  step-IsSound (scrape now) cells h =
      every_target-IsSound now _ (every_target-IsFresh fl now cells h)
  step-IsSound (ask key now) cells h = update-IsSound fl key now cells h

  history-IsSound :
      (es : List (Event F)) (cells : List (Cell F))
      → All IsSound cells
      → All IsSound (history es cells)
  history-IsSound [] cells h = h
  history-IsSound (e ∷ es) cells h = history-IsSound es (step e cells) (step-IsSound e cells h)

  -- After any history, a reading of the metrics shows for each target either that no forecast is
  -- valid and a scaling signal of 0, or a valid forecast within its time to live, the scaling signal
  -- being the replica count of that forecast if the target is active and 0 if it is not.
  pub scrape-IsFresh :
      (s : ForecastSettings F) (extra : List (ForecastSettings F)) (es : List (Event F)) (now : ℤ)
      → All (IsFresh now) (refresh_all_expiry fl now (history es (start fl s extra)))
  scrape-IsFresh s extra es now =
      every_target-IsFresh fl now _
        (history-IsSound es (start fl s extra) (start-IsSound fl s extra))

  aged-settings :
      (now : ℤ) (latest : Option (ForecastResult F)) (c : Cell F)
      → (aged fl now latest c).settings ≡ c.settings
  aged-settings now none c = refl
  aged-settings now (some r) c = ground arith

  silenced-settings : (c : Cell F) → (silenced fl c).settings ≡ c.settings
  silenced-settings c = ground arith

  refresh-settings : (now : ℤ) (c : Cell F) → (refresh_expiry_for fl now c).settings ≡ c.settings
  unfolding refresh_expiry_for
  refresh-settings now c = silenced-settings (aged fl now c.latest c) ∙ aged-settings now c.latest c

  find-here :
      (key : String × String) (now : ℤ) (d : Cell F) (ds : List (Cell F))
      → same_key key (key_of d.settings) ≡ true
      → find fl key (update fl key (refresh_expiry_for fl now) (d ∷ ds))
        ≡ some (refresh_expiry_for fl now d)
  unfolding find update
  find-here key now d ds here = rw (update, here, find, refresh-settings now d, here) refl

  find-there :
      (key : String × String) (now : ℤ) (d : Cell F) (ds : List (Cell F))
      → same_key key (key_of d.settings) ≡ false
      → find fl key (update fl key (refresh_expiry_for fl now) (d ∷ ds))
        ≡ find fl key (update fl key (refresh_expiry_for fl now) ds)
  unfolding find update
  find-there key now d ds there = rw (update, there, find, there) refl

  found-IsFresh :
      (key : String × String) (now : ℤ) (cells : List (Cell F)) (c : Cell F)
      → All IsSound cells
      → find fl key (update fl key (refresh_expiry_for fl now) cells) ≡ some c
      → IsFresh now c
  unfolding find update
  found-IsFresh key now [] c h e = elim (none-ne-some c e) [ ]
  found-IsFresh key now (d ∷ ds) c (h, hs) e =
      elim (Bool-cases (same_key key (key_of d.settings))) [
        | inl here ↦
            let same =
              some-injective (refresh_expiry_for fl now d) c
                (sym (find-here key now d ds here) ∙ e) in
            subst (IsFresh now) same (refresh-IsFresh fl now d h)
        | inr there ↦ found-IsFresh key now ds c hs (sym (find-there key now d ds there) ∙ e)
      ]

  -- A request for a target's forecast, after any history, is answered by a forecast only if a target
  -- with that key is registered, the forecast is the target's latest and valid, and it is within the
  -- target's time to live.
  pub predict-IsFresh :
      (s : ForecastSettings F) (extra : List (ForecastSettings F)) (es : List (Event F))
      (key : String × String) (now : ℤ) (p : Prediction F)
      → (predict fl key now (history es (start fl s extra))).0 ≡ predicted p
      → (c : Cell F) × (find fl key (predict fl key now (history es (start fl s extra))).1 ≡ some c)
        × IsLive c p.result
        × (in_time now c p.result ≡ true)
  unfolding predict
  predict-IsFresh s extra es key now p h =
      let cells = history es (start fl s extra) in
      let sound = history-IsSound es (start fl s extra) (start-IsSound fl s extra) in
      let (c, found, e) =
        answered_cell (find fl key (update fl key (refresh_expiry_for fl now) cells)) p h in
      let (live, young) = answered-IsFresh now c p e (found-IsFresh key now cells c sound found) in
      (c, found, live, young)
