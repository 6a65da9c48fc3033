-- ===== src/Finops/Service.antt =====
-- The analysis and the recommendation cache of finops/app/main.py. What the clients of KRR,
-- Prometheus and Chronos return is an input of the analysis; instants are whole microseconds.
pub mod Cache
use practical_project.Base.{
  ℕ, ◌*◌, Bool, true, false, ◌&&◌, List, [], ◌∷◌, ◌++◌, Option, none, some, length, if◌then◌else◌,
}
use practical_project.Base.Int.{ℤ, pos, ◌-ℤ◌, ltb_ℤ}
use practical_project.Base.Classes.{nat_eq}
use practical_project.Base.Equality.{list_beq}
use practical_project.Float.{Floats, lit}
use practical_project.Float.Literal.{codes, is_empty}
use practical_project.Finops.{
  ResourceSpec, PrometheusMetrics, ChronosForecast, RuleStatus, pass, warn, fail, Risk,
}
use practical_project.Finops.Quantity.{parse_cpu, parse_memory}
use practical_project.Finops.Verdict.{Request, Evaluation, evaluate_optimization}

-- The dictionary of a KRR recommendation; a text that is missing is empty.
pub record KrrData : Type 0 where
  pub workload : List ℕ
  pub container : List ℕ
  pub current_cpu : Option (List ℕ)
  pub current_memory : Option (List ℕ)
  pub recommended_cpu : Option (List ℕ)
  pub recommended_memory : Option (List ℕ)
  pub limit_cpu : Option (List ℕ)
  pub limit_memory : Option (List ℕ)

-- What the clients return for a workload.
pub record Collected (F : Type 0) : Type 0 where
  pub krr : KrrData
  pub prom_curr_spec : Option ResourceSpec
  pub prom_raw : Option (PrometheusMetrics F)
  pub chronos_raw : Option (ChronosForecast F)

pub record AnalysisResponse (F : Type 0) : Type 0 where
  pub deployment_name : List ℕ
  pub namespace : List ℕ
  pub container_name : List ℕ
  pub cpu_reduction_pct : F
  pub memory_reduction_pct : F
  pub evaluation : Evaluation F

-- The columns of `save_log` that do not repeat the response.
pub record LogRow (F : Type 0) : Type 0 where
  pub response : AnalysisResponse F
  pub cpu_utilization_pct : Option F
  pub oom_killed : Bool
  pub throttled : Bool

-- `_last_recommendations`, and the rows written.
pub record ServiceState (F : Type 0) : Type 0 where
  pub last_recommendations : List ℕ → Option (AnalysisResponse F × ℤ)
  pub rows : List (LogRow F)

abbrev pub or_text : List ℕ → List ℕ → List ℕ
or_text a b = if is_empty a then b else a

abbrev pub text_or : List ℕ → Option (List ℕ) → List ℕ
text_or default none = default
text_or default (some text) = text

-- `value or default`
abbrev pub filled_or : List ℕ → Option (List ℕ) → List ℕ
filled_or default none = default
filled_or default (some text) = or_text text default

abbrev pub is_none : Option (List ℕ) → Bool
is_none none = true
is_none (some _) = false

-- `f"{namespace}/{deployment_name}/{container_name}"`
unfoldable pub cache_key : List ℕ → List ℕ → List ℕ → List ℕ
cache_key namespace deployment container = namespace ++ 47 ∷ (deployment ++ 47 ∷ container)

abbrev pub current_spec_of : Option ResourceSpec → KrrData → ResourceSpec
current_spec_of (some spec) krr = spec
current_spec_of none krr = record {
  cpu = text_or (codes "0m") krr.current_cpu;
  memory = text_or (codes "0Mi") krr.current_memory;
}

module _ {F : Type 0} where
  -- `throttled` is not passed on, so it has its default.
  abbrev pub metrics_of : Option (PrometheusMetrics F) → Option (PrometheusMetrics F)
  metrics_of none = none
  metrics_of (some raw) = some (record raw { throttled = false })

  abbrev pub row_of : Option (PrometheusMetrics F) → AnalysisResponse F → LogRow F
  row_of none r = record {
    response = r;
    cpu_utilization_pct = none;
    oom_killed = false;
    throttled = false;
  }
  row_of (some m) r = record {
    response = r;
    cpu_utilization_pct = m.avg_cpu_usage_pct;
    oom_killed = m.oom_killed;
    throttled = m.throttled;
  }

  unfoldable pub request_of : Collected F → Request F
  request_of c =
      let current = current_spec_of c.prom_curr_spec c.krr in
      record {
        current_res = current;
        krr_res = record {
          cpu = filled_or current.cpu c.krr.recommended_cpu;
          memory = filled_or current.memory c.krr.recommended_memory;
        };
        metrics = metrics_of c.prom_raw;
        forecast = c.chronos_raw;
        cpu_missing = is_none c.krr.recommended_cpu;
        mem_missing = is_none c.krr.recommended_memory;
        cpu_limit_str = c.krr.limit_cpu;
        memory_limit_str = c.krr.limit_memory;
      }

  abbrev pub put : List ℕ → Option (AnalysisResponse F × ℤ) → ServiceState F → ServiceState F
  put key entry s = record s {
    last_recommendations =
        λ (k : List ℕ). if list_beq k key then entry else s.last_recommendations k;
  }

  -- `_store_recommendation`
  unfoldable pub store_recommendation : AnalysisResponse F → ℤ → ServiceState F → ServiceState F
  unfolding cache_key
  store_recommendation r now s =
      put (cache_key r.namespace r.deployment_name r.container_name) (some (r, now)) s

  abbrev pub fresh_or_removed :
      ℕ
      → List ℕ
      → ℤ
      → Option (AnalysisResponse F × ℤ)
      → ServiceState F
      → Option (AnalysisResponse F) × ServiceState F
  fresh_or_removed ttl key now none s = (none, s)
  fresh_or_removed ttl key now (some (r, cached_at)) s =
      if ltb_ℤ (pos (ttl * 1000000)) (now -ℤ cached_at) then (none, put key none s) else (some r, s)

  -- `_get_recommendation`; a container that is not given is empty.
  unfoldable pub get_recommendation :
      ℕ
      → List ℕ
      → List ℕ
      → List ℕ
      → ℤ
      → ServiceState F
      → Option (AnalysisResponse F) × ServiceState F
  unfolding cache_key ◌-ℤ◌
  get_recommendation ttl deployment namespace container now s =
      let key = cache_key namespace deployment (or_text container deployment) in
      fresh_or_removed ttl key now (s.last_recommendations key) s

-- What `get_last_recommendation` answers: the codes 404 and 409, or the values.
pub data Recommendation : Type 0 where
  not_found conflict : Recommendation
  recommended : List ℕ → List ℕ → List ℕ → Risk → Recommendation

abbrev pub is_passed : RuleStatus → Bool
is_passed pass = true
is_passed _ = false

module _ {F : Type 0} where
  abbrev pub answered : Option (AnalysisResponse F) → Recommendation
  answered none = not_found
  answered (some r) =
      let final = r.evaluation.recommendations.final in
      if is_passed r.evaluation.overall_status
      then recommended r.container_name final.cpu final.memory r.evaluation.risk_score
      else conflict

  unfoldable pub get_last_recommendation :
      ℕ → List ℕ → List ℕ → List ℕ → ℤ → ServiceState F → Recommendation × ServiceState F
  unfolding get_recommendation
  get_last_recommendation ttl namespace deployment container now s =
      let (cached, s') = get_recommendation ttl deployment namespace container now s in
      (answered cached, s')

module _ {F : Type 0} (fl : Floats F) where
  open fl use {sub, mul, div, lt, round_to}

  unfoldable pub reduction_pct : F → F → F
  reduction_pct before after =
      if lt (lit fl 0 0) before
      then mul (div (sub before after) before) (lit fl 100 0)
      else lit fl 0 0

  abbrev pub response_of : List ℕ → List ℕ → List ℕ → Evaluation F → AnalysisResponse F
  response_of deployment namespace container e =
      let current = e.recommendations.current in
      let final = e.recommendations.final in
      record {
        deployment_name = deployment;
        namespace = namespace;
        container_name = container;
        cpu_reduction_pct =
            round_to 1 (reduction_pct (parse_cpu fl current.cpu) (parse_cpu fl final.cpu));
        memory_reduction_pct =
            round_to 1
              (reduction_pct (parse_memory fl current.memory) (parse_memory fl final.memory));
        evaluation = record e { cost_change_pct = round_to 1 e.cost_change_pct };
      }

  abbrev pub recorded :
      Option (PrometheusMetrics F) → AnalysisResponse F → ℤ → ServiceState F → ServiceState F
  recorded metrics r now s =
      store_recommendation r now (record s { rows = s.rows ++ row_of metrics r ∷ [] })

  abbrev pub completed :
      List ℕ
      → List ℕ
      → List ℕ
      → Collected F
      → ℤ
      → ServiceState F
      → Option (Evaluation F)
      → Option (AnalysisResponse F) × ServiceState F
  completed deployment namespace container c now s none = (none, s)
  completed deployment namespace container c now s (some e) =
      let r = response_of deployment namespace container e in
      (some r, recorded (metrics_of c.prom_raw) r now s)

  -- `_run_analysis` of data that KRR has, `none` where it raises.
  unfoldable pub run_analysis :
      List ℕ
      → List ℕ
      → List ℕ
      → Collected F
      → ℤ
      → ServiceState F
      → Option (AnalysisResponse F) × ServiceState F
  unfolding parse_cpu parse_memory request_of evaluate_optimization store_recommendation
      reduction_pct
  run_analysis deployment namespace container c now s =
      let name = or_text container (or_text c.krr.container deployment) in
      completed deployment namespace name c now s (evaluate_optimization fl (request_of c))

  -- The loop of `analyze_namespace` and of `analyze_batch` over what KRR found; a workload whose
  -- analysis raises is passed over.
  unfoldable pub analyze_each :
      List ℕ → ℤ → List (Collected F) → ServiceState F → List (AnalysisResponse F) × ServiceState F
  unfolding run_analysis
  analyze_each namespace now [] s = ([], s)
  analyze_each namespace now (c ∷ cs) s =
      let (r, s1) = run_analysis c.krr.workload namespace c.krr.container c now s in
      let (rs, s2) = analyze_each namespace now cs s1 in
      (elim r [ none ↦ rs | some response ↦ response ∷ rs ], s2)
