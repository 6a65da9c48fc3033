-- ===== src/Finops/Prometheus.antt =====
-- PrometheusClient and ChronosClient of finops/app/clients.py. A query is a constructor with the
-- workload that is put into its text; what the servers answer is an arbitrary function of the request.
pub mod Outage
mod Tests
use practical_project.Base.{
  ℕ, Bool, true, false, not, ◌&&◌, List, [], ◌∷◌, ◌++◌, Option, none, some, ◌==◌, if◌then◌else◌,
}
use practical_project.Base.Int.{ℤ, pos}
use practical_project.Base.Raises.{◌>>=◌}
use practical_project.Base.Json.{Json, null, bool, num, str, arr, obj, nil, cons, end, get, get_or}
use practical_project.Float.{Floats, lit}
use practical_project.Float.Literal.{codes, float_of}
use practical_project.Finops.{ResourceSpec, PrometheusMetrics, ChronosForecast}
use practical_project.Finops.Quantity.{with_suffix, format_cpu}
use practical_project.Float.Decimal.{show_ℤ}

-- A deployment, its namespace and the container, which is empty if it is not given.
pub record WorkloadId : Type 0 where
  pub deployment_name : List ℕ
  pub namespace : List ℕ
  pub container_name : List ℕ

-- What the clients ask: the averages of the requests, the kills, the restarts, the load and the
-- throttling of the workload's pods, and the forecast.
pub data Query : Type 0 where
  cpu_request memory_request oom_kills restarts cpu_load throttling forecast : WorkloadId → Query

-- How a request ends: a status and a body, which is `none` if it is no JSON; or an exception.
pub data HttpReply (F : Type 0) : Type 0 where
  responded : ℕ → Option (Json F) → HttpReply F
  no_response : HttpReply F

module _ {F : Type 0} (fl : Floats F) where
  -- `float(value)`
  abbrev pub float_value : Json F → Option F
  float_value (num x) = some x
  float_value (bool b) = some (if b then lit fl 1 0 else lit fl 0 0)
  float_value (str s) = do n ← float_of s; some (fl.of_numeral n)
  float_value _ = none

  -- `value[1]`
  abbrev pub second : Json F → Option (Json F)
  second (arr (cons x (cons y rest))) = some y
  second (str (c ∷ d ∷ rest)) = some (str (d ∷ []))
  second _ = none

  -- The value of the first sample of a result, if there is one.
  abbrev pub first_sample : Json F → Option F
  first_sample (arr (cons x rest)) = do
    pair ← get_or (arr (cons null (cons (str (codes "0")) nil))) (codes "value") x
    v ← second pair
    float_value v
  first_sample _ = none

  abbrev pub sample_of : HttpReply F → Option F
  sample_of no_response = none
  sample_of (responded status none) = none
  sample_of (responded status (some body)) =
      let sample = (do
        content ← get_or (obj end) (codes "data") body
        result ← get_or (arr nil) (codes "result") content
        first_sample result) in
      if status == 200 then sample else none

  -- `int(round(x))` and a unit, or `round(x, 2)` of it in the larger unit.
  abbrev pub mebibytes_text : F → Option (List ℕ)
  mebibytes_text mib =
      if fl.le (lit fl 1024 0) mib
      then some (fl.repr (fl.round_to 2 (fl.div mib (lit fl 1024 0))) ++ codes "Gi")
      else with_suffix fl (fl.round_int mib) (codes "Mi")

  -- Whether a sample is there and above zero.
  abbrev pub is_above_zero : Option F → Bool
  is_above_zero none = false
  is_above_zero (some x) = not (fl.eq x (lit fl 0 0)) && fl.lt (lit fl 0 0) x

  -- `int(restart_res)`, which raises on what is not finite, and 0 with no sample.
  abbrev pub restart_count_of : Option F → Option ℤ
  restart_count_of none = some (pos 0)
  restart_count_of (some x) = fl.truncate x

  abbrev pub rounded : Option F → Option F
  rounded none = none
  rounded (some x) = some (fl.round_to 2 x)

  abbrev pub number_at : List ℕ → Json F → Option (Option F)
  number_at key body = do
    v ← get key body
    elim v [ null ↦ some none | other ↦ (do x ← float_value other; some (some x)) ]

  module _ (reply : Query → HttpReply F) where
    -- `_query_prometheus`: every exception is caught.
    unfoldable pub query_prometheus : Query → Option F
    unfolding float_of
    query_prometheus q = sample_of (reply q)

    -- `get_current_resource_spec`
    unfoldable pub get_current_resource_spec : WorkloadId → Option ResourceSpec
    unfolding query_prometheus format_cpu show_ℤ
    get_current_resource_spec w = do
      cpu_val ← query_prometheus (cpu_request w)
      mem_val ← query_prometheus (memory_request w)
      cpu_str ← format_cpu fl cpu_val
      mem_str ← mebibytes_text (fl.div mem_val (fl.mul (lit fl 1024 0) (lit fl 1024 0)))
      some (record { cpu = cpu_str; memory = mem_str })

    -- `get_workload_metrics`
    unfoldable pub get_workload_metrics : WorkloadId → Option (PrometheusMetrics F)
    unfolding query_prometheus
    get_workload_metrics w = do
      restarted ← restart_count_of (query_prometheus (restarts w))
      some (record {
        oom_killed = is_above_zero (query_prometheus (oom_kills w));
        restart_count = restarted;
        avg_cpu_usage_pct = rounded (query_prometheus (cpu_load w));
        throttled = is_above_zero (query_prometheus (throttling w));
      })

    -- What `get_future_forecast` reads in a body.
    abbrev pub forecast_in : Json F → Option (ChronosForecast F)
    forecast_in body = do
      cpu_pct ← number_at (codes "predicted_max_cpu_pct") body
      mem_pct ← number_at (codes "predicted_max_mem_pct") body
      req_per_sec ← number_at (codes "predicted_req_per_sec") body
      some (record {
        predicted_max_cpu_pct = cpu_pct;
        predicted_max_mem_pct = mem_pct;
        predicted_req_per_sec = req_per_sec;
      })

    abbrev pub forecast_of : HttpReply F → Option (ChronosForecast F)
    forecast_of no_response = none
    forecast_of (responded status none) = none
    forecast_of (responded status (some body)) = if status == 200 then forecast_in body else none

    -- `get_future_forecast`
    unfoldable pub get_future_forecast : WorkloadId → Option (ChronosForecast F)
    unfolding float_of
    get_future_forecast w = forecast_of (reply (forecast w))
