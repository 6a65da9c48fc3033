-- ===== src/Chronos/Runtime.antt =====
-- `ForecastRuntime` of chronos/app.py: the state of each target with its gauges, one forecast round,
-- expiry and the answers of the API. The methods hold the lock where they change a state, so their
-- effects follow one another. The gauges are read by `generate_latest` after the lock is given back:
-- here the reading follows its expiry with no round of the other thread in between.
use practical_project.Base.{
  ℕ, ◌*◌, ◌+◌, String, Bool, true, false, ◌&&◌, ◌||◌, List, [], ◌∷◌, ◌++◌, Option, none, some,
  if◌then◌else◌,
}
use practical_project.Base.Int.{ℤ, pos, ◌-ℤ◌, ltb_ℤ}
use practical_project.Base.Classes.{string_eq}
use practical_project.Float.{Floats, lit}
use practical_project.Chronos.{Mode, disabled, active, ForecastSettings, ForecastResult}

-- `last_error`: the text of an exception, or the age in microseconds of an expired forecast.
pub data LastError : Type 0 where
  failed : String → LastError
  expired : ℤ → ℕ → LastError

-- What the forecast function of a target ends in.
pub data Outcome (F : Type 0) : Type 0 where
  ok : ForecastResult F → Outcome F
  raised : String → Outcome F

-- The gauges and the counter of one target.
pub record Metrics (F : Type 0) : Type 0 where
  pub predicted_cpu : F
  pub predicted_replicas : ℤ
  pub scaling_replicas : ℤ
  pub forecast_timestamp : ℤ
  pub forecast_start : ℤ
  pub forecast_end : ℤ
  pub forecast_valid : ℕ
  pub execution_seconds : F
  pub errors : ℕ

-- The entries of one key in `_settings_by_key` and `_states`, and its gauges.
pub record Cell (F : Type 0) : Type 0 where
  pub settings : ForecastSettings F
  pub latest : Option (ForecastResult F)
  pub valid : Bool
  pub last_error : Option LastError
  pub metrics : Metrics F

pub record Prediction (F : Type 0) : Type 0 where
  pub result : ForecastResult F
  pub mode : Mode
  pub model_id : String

-- What `predict` answers: the codes 404 and 503, or the forecast.
pub data Answer (F : Type 0) : Type 0 where
  not_found : Answer F
  unavailable : Option LastError → Answer F
  predicted : Prediction F → Answer F

module _ {F : Type 0} where
  abbrev pub answer_with :
      Option LastError → Mode → String → Bool → Option (ForecastResult F) → Answer F
  answer_with error mode id valid none = unavailable error
  answer_with error mode id false (some r) = unavailable error
  answer_with error mode id true (some r) =
      predicted (record { result = r; mode = mode; model_id = id })

  abbrev pub answer_of : Option (Cell F) → Answer F
  answer_of none = not_found
  answer_of (some c) = answer_with c.last_error c.settings.mode c.settings.model_id c.valid c.latest

abbrev pub is_disabled : Mode → Bool
is_disabled disabled = true
is_disabled _ = false

abbrev pub is_active : Mode → Bool
is_active active = true
is_active _ = false

abbrev pub key_of : {F : Type 0} → ForecastSettings F → String × String
key_of s = (s.target_namespace, s.target_deployment)

abbrev pub same_key : String × String → String × String → Bool
same_key (n, d) (n', d') = string_eq.equal n n' && string_eq.equal d d'

module _ {F : Type 0} (fl : Floats F) where
  unfoldable pub inactive_metrics : ForecastSettings F → Metrics F → Metrics F
  inactive_metrics s m = record m {
    predicted_cpu = lit fl 0 0;
    predicted_replicas = s.min_replicas;
    scaling_replicas = pos 0;
    forecast_timestamp = pos 0;
    forecast_start = pos 0;
    forecast_end = pos 0;
    forecast_valid = 0;
    execution_seconds = lit fl 0 0;
  }

  -- A target when it is registered.
  unfoldable pub fresh_cell : ForecastSettings F → Cell F
  unfolding inactive_metrics
  fresh_cell s = record {
    settings = s;
    latest = none;
    valid = false;
    last_error = none;
    metrics = inactive_metrics s (record {
      predicted_cpu = lit fl 0 0;
      predicted_replicas = pos 0;
      scaling_replicas = pos 0;
      forecast_timestamp = pos 0;
      forecast_start = pos 0;
      forecast_end = pos 0;
      forecast_valid = 0;
      execution_seconds = lit fl 0 0;
      errors = 0;
    });
  }

  abbrev pub is_registered : ForecastSettings F → List (Cell F) → Bool
  is_registered s [] = false
  is_registered s (c ∷ cs) = same_key (key_of s) (key_of c.settings) || is_registered s cs

  -- The loop of `__init__` over the extra targets: a key that is there already is passed over.
  unfoldable pub register : List (Cell F) → List (ForecastSettings F) → List (Cell F)
  unfolding fresh_cell
  register cells [] = cells
  register cells (s ∷ rest) =
      register (if is_registered s cells then cells else cells ++ fresh_cell s ∷ []) rest

  unfoldable pub start : ForecastSettings F → List (ForecastSettings F) → List (Cell F)
  unfolding fresh_cell register
  start settings extra_targets = register (fresh_cell settings ∷ []) extra_targets

  -- `_run_once_for`, with what the forecast ends in and the seconds that it takes.
  abbrev pub recorded : Outcome F → F → Cell F → Cell F
  recorded (raised text) elapsed c = record c {
    valid = false;
    last_error = some (failed text);
    metrics = record (c.metrics) {
      scaling_replicas = pos 0;
      forecast_valid = 0;
      execution_seconds = elapsed;
      errors = c.metrics.errors + 1;
    };
  }
  recorded (ok r) elapsed c = record c {
    latest = some r;
    valid = true;
    last_error = none;
    metrics = record (c.metrics) {
      predicted_cpu = r.predicted_cpu_usage;
      predicted_replicas = r.predicted_replicas;
      scaling_replicas = if is_active c.settings.mode then r.predicted_replicas else pos 0;
      forecast_timestamp = r.timestamp;
      forecast_start = r.forecast_start_time;
      forecast_end = r.forecast_end_time;
      forecast_valid = 1;
      execution_seconds = elapsed;
    };
  }

  unfoldable pub run_once_for : Outcome F → F → Cell F → Cell F
  unfolding inactive_metrics
  run_once_for outcome elapsed c =
      if is_disabled c.settings.mode
      then record c {
        valid = false;
        last_error = none;
        metrics = inactive_metrics c.settings c.metrics;
      }
      else recorded outcome elapsed c

  -- `state.valid` and `last_error` after the age of the forecast is looked at.
  abbrev pub aged : ℤ → Option (ForecastResult F) → Cell F → Cell F
  aged now none c = record c { valid = false }
  aged now (some r) c =
      let age = now -ℤ r.timestamp in
      if ltb_ℤ (pos (c.settings.forecast_ttl_seconds * 1000000)) age
      then record c {
        valid = false;
        last_error = some (expired age c.settings.forecast_ttl_seconds);
      }
      else c

  abbrev pub silenced : Cell F → Cell F
  silenced c = if c.valid then c else record c {
    metrics = record (c.metrics) { scaling_replicas = pos 0; forecast_valid = 0 };
  }

  -- `_refresh_expiry_for`; it returns the `valid` of the cell.
  unfoldable pub refresh_expiry_for : ℤ → Cell F → Cell F
  unfolding ◌-ℤ◌
  refresh_expiry_for now c = silenced (aged now c.latest c)

  -- `run_once`, with what happens to each target.
  unfoldable pub run_once : (String × String → Outcome F × F) → List (Cell F) → List (Cell F)
  unfolding run_once_for
  run_once outcomes [] = []
  run_once outcomes (c ∷ cs) =
      run_once_for (outcomes (key_of c.settings)).0 (outcomes (key_of c.settings)).1 c
      ∷ run_once outcomes cs

  unfoldable pub refresh_all_expiry : ℤ → List (Cell F) → List (Cell F)
  unfolding refresh_expiry_for
  refresh_all_expiry now [] = []
  refresh_all_expiry now (c ∷ cs) = refresh_expiry_for now c ∷ refresh_all_expiry now cs

  -- The cell of a key, and the cells with a function applied to it.
  unfoldable pub find : String × String → List (Cell F) → Option (Cell F)
  find key [] = none
  find key (c ∷ cs) =
      let rest = find key cs in if same_key key (key_of c.settings) then some c else rest

  unfoldable pub update : String × String → (Cell F → Cell F) → List (Cell F) → List (Cell F)
  update key f [] = []
  update key f (c ∷ cs) =
      let rest = update key f cs in if same_key key (key_of c.settings) then f c ∷ cs else c ∷ rest

  -- `prediction_response` and the handler `predict` around it.
  unfoldable pub predict : String × String → ℤ → List (Cell F) → Answer F × List (Cell F)
  unfolding refresh_expiry_for find update
  predict key now cells =
      let cells' = update key (refresh_expiry_for now) cells in
      (answer_of (find key cells'), cells')
