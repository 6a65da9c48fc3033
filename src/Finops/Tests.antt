-- ===== src/Finops/Tests.antt =====
-- Evaluations of concrete workloads, in fixed-point arithmetic.
use practical_project.Base.{
  ap, Option, ℕ, List, if◌then◌else◌, ◌+◌, ◌-◌, ◌⊎◌, ◌≡◌, refl, true, false, [], ◌∷◌, none, some,
  inl,
}
use practical_project.Base.Int.{ℤ, pos, leb_ℤ}
use practical_project.Float.{lit, decimal}
use practical_project.Float.Fixed.{fixed}
use practical_project.Float.Literal.{codes}
use practical_project.Finops.{
  safe, ResourceSpec, PrometheusMetrics, ChronosForecast, high, pass, warn, fail,
}
use practical_project.Finops.Engine.{Inputs, predicted_cpu, result}
use practical_project.Finops.Verdict.{
  Request, Evaluation, inputs, evaluate_optimization, decided, capped, risk_of,
}
use practical_project.Finops.Verdict.Outcomes.{decided-KeepsCurrent, decided-score, decided-Safe}
use practical_project.Finops.Service.{
  Collected, ServiceState, AnalysisResponse, request_of, run_analysis, get_last_recommendation,
  response_of, completed,
}
use practical_project.Finops.Service.Cache.{IsAnswered, run_analysis-IsAnswered, key_for}
use practical_project.Finops.Quantity.{parse_cpu, parse_memory, format_cpu, format_memory}
use practical_project.Finops.Quantity.RoundTrip.{
  parse_cpu-format_cpu, parse_memory-format_memory, in_gibibytes,
}
use practical_project.Finops.Engine.Score.{
  cpu_penalty, mem_penalty, oom_penalty, restart_penalty, forecast_penalty, relief, data_penalty,
}

abbrev spec : ResourceSpec
spec = record { cpu = codes "500m"; memory = codes "1Gi" }

abbrev calm : PrometheusMetrics ℤ
calm = record {
  oom_killed = false;
  restart_count = pos 1;
  avg_cpu_usage_pct = some (pos 12000000);
  throttled = false;
}

abbrev killed : PrometheusMetrics ℤ
killed = record {
  oom_killed = true;
  restart_count = pos 1;
  avg_cpu_usage_pct = none;
  throttled = false;
}

abbrev steady : ChronosForecast ℤ
steady = record {
  predicted_max_cpu_pct = some (pos 35000000);
  predicted_max_mem_pct = none;
  predicted_req_per_sec = none;
}

abbrev request : Request ℤ
request = record {
  current_res = spec;
  krr_res = record { cpu = codes "100m"; memory = codes "600Mi" };
  metrics = some calm;
  forecast = some steady;
  cpu_missing = false;
  mem_missing = false;
  cpu_limit_str = some (codes "300m");
  memory_limit_str = none;
}

test_request :
    ((decided fixed (inputs fixed request)).final_cpu ≡ pos 300000)
    × ((decided fixed (inputs fixed request)).final_mem ≡ pos 600000000)
    × ((decided fixed (inputs fixed request)).score ≡ 10)
unfolding decided inputs fixed
test_request = (refl, refl, refl)

-- The same workload, its quantities parsed.
abbrev limited_inputs : Inputs ℤ
limited_inputs = record {
  curr_cpu = pos 500000;
  curr_mem = pos 1024000000;
  krr_cpu = pos 100000;
  krr_mem = pos 600000000;
  prom_metrics = some calm;
  chronos_forecast = some steady;
  cpu_data_insufficient = false;
  mem_data_insufficient = false;
  cpu_limit = some (pos 300000);
  memory_limit = none;
}

test_inputs : inputs fixed request ≡ limited_inputs
unfolding inputs fixed
test_inputs = refl

-- After an out-of-memory kill, with no limits known.
abbrev shaken : Inputs ℤ
shaken = record limited_inputs { prom_metrics = some killed; cpu_limit = none }

decided-KeepsCurrent_example :
    ((decided fixed shaken).final_cpu ≡ capped fixed none (pos 500000))
    × ((decided fixed shaken).final_mem ≡ capped fixed none (pos 1024000000))
unfolding fixed
decided-KeepsCurrent_example = decided-KeepsCurrent fixed shaken killed refl (inl refl) refl

decided-score_example :
    (decided fixed shaken).score
    ≡ cpu_penalty fixed shaken
      + mem_penalty fixed shaken
      + oom_penalty fixed shaken
      + restart_penalty fixed shaken
      + forecast_penalty fixed shaken
      - relief fixed shaken
      + data_penalty fixed shaken
decided-score_example = decided-score fixed shaken

decided-Safe_example :
    ((m : PrometheusMetrics ℤ) × (limited_inputs.prom_metrics ≡ some m)
      × (m.oom_killed ≡ false)
      × (leb_ℤ (pos 10) m.restart_count ≡ false))
    ⊎ (limited_inputs.prom_metrics ≡ none)
      × ((pct : ℤ) × (predicted_cpu limited_inputs.chronos_forecast ≡ some pct)
          × (fixed.le (lit fixed 80 0) pct ≡ false))
unfolding decided risk_of fixed
decided-Safe_example = decided-Safe fixed limited_inputs refl

-- Killed, without a forecast, and with a recommendation that cuts the CPU to a fifth.
abbrev refused_request : Request ℤ
refused_request = record request { metrics = some killed; forecast = none; cpu_limit_str = none }

abbrev refused : Evaluation ℤ
refused = record {
  risk_score = high;
  overall_status = fail;
  recommendations = record {
    current = spec;
    krr = request.krr_res;
    final = spec;
    krr_cpu_data_insufficient = false;
    krr_memory_data_insufficient = false;
  };
  policy_evals =
      result "RULE_01" warn
      ∷ result "RULE_02" pass
      ∷ result "RULE_03" fail
      ∷ result "RULE_04" pass
      ∷ result "RULE_05" warn
      ∷ result "RULE_06" pass
      ∷ result "RULE_07" pass
      ∷ result "RULE_08" warn
      ∷ [];
  cost_change_pct = pos 0;
  cost_savings_amount = pos 0;
  current_cost = pos 16500000;
  final_cost = pos 16500000;
}

refused_lem : evaluate_optimization fixed refused_request ≡ some refused
unfolding evaluate_optimization fixed
refused_lem = refl

-- 0.35 cores are written as 350m.
parse_cpu-format_cpu_example :
    (text : List ℕ) × (format_cpu fixed (pos 350000) ≡ some text)
    × (parse_cpu fixed text
        ≡ fixed.div (fixed.of_numeral (decimal false 350 (pos 0))) (lit fixed 1000 0))
unfolding fixed
parse_cpu-format_cpu_example = parse_cpu-format_cpu fixed (pos 350000) 350 refl refl

-- 2048 mebibytes are written as 2Gi.
parse_memory-format_memory_example :
    (text : List ℕ) × (format_memory fixed (pos 2048000000) ≡ some text)
    × (parse_memory fixed text ≡ (
        let whole = fixed.of_numeral (decimal false 2 (pos 0)) in
        if in_gibibytes fixed (pos 2048000000) then fixed.mul whole (lit fixed 1024 0) else whole))
unfolding fixed
parse_memory-format_memory_example = parse_memory-format_memory fixed (pos 2048000000) 2 refl

-- What is collected for the first workload above.
abbrev collected : Collected ℤ
collected = record {
  krr = record {
    workload = codes "sample-worker";
    container = codes "worker";
    current_cpu = some (codes "500m");
    current_memory = some (codes "1Gi");
    recommended_cpu = some (codes "100m");
    recommended_memory = some (codes "600Mi");
    limit_cpu = some (codes "300m");
    limit_memory = none;
  };
  prom_curr_spec = none;
  prom_raw = some calm;
  chronos_raw = some steady;
}

abbrev empty : ServiceState ℤ
empty = record { last_recommendations = λ (key : List ℕ). none; rows = [] }

abbrev eased : Evaluation ℤ
eased = record {
  risk_score = safe;
  overall_status = pass;
  recommendations = record {
    current = spec;
    krr = request.krr_res;
    final = record { cpu = codes "300m"; memory = codes "600Mi" };
    krr_cpu_data_insufficient = false;
    krr_memory_data_insufficient = false;
  };
  policy_evals =
      result "RULE_01" warn
      ∷ result "RULE_02" pass
      ∷ result "RULE_03" pass
      ∷ result "RULE_04" pass
      ∷ result "RULE_05" pass
      ∷ result "RULE_06" pass
      ∷ result "RULE_07" pass
      ∷ result "RULE_08" warn
      ∷ [];
  cost_change_pct = pos 40340900;
  cost_savings_amount = pos 6656252;
  current_cost = pos 16500000;
  final_cost = pos 9843748;
}

eased_lem : evaluate_optimization fixed (request_of collected) ≡ some eased
unfolding evaluate_optimization request_of fixed
eased_lem = refl

abbrev analysed : AnalysisResponse ℤ
analysed = response_of fixed (codes "sample-worker") (codes "sample-fastapi") (codes "worker") eased

analysed_lem :
    (run_analysis fixed
      (codes "sample-worker")
      (codes "sample-fastapi")
      []
      collected
      (pos 0)
      empty).0
    ≡ some analysed
unfolding run_analysis
analysed_lem =
    ap
      (λ (e : Option (Evaluation ℤ)).
        (completed fixed (codes "sample-worker") (codes "sample-fastapi") (codes "worker") collected
          (pos 0) empty e).0)
      eased_lem

run_analysis-IsAnswered_example :
    let asked =
      get_last_recommendation 86400
        (codes "sample-fastapi")
        (codes "sample-worker")
        (codes "worker")
        (pos 60000000)
        (run_analysis fixed
          (codes "sample-worker")
          (codes "sample-fastapi")
          []
          collected
          (pos 0)
          empty).1 in
    IsAnswered 86400 analysed (pos 0) (pos 60000000) (key_for analysed) asked.0 asked.1
run_analysis-IsAnswered_example =
    run_analysis-IsAnswered fixed (codes "sample-worker") (codes "sample-fastapi") [] collected
      (pos 0) empty analysed 86400 (pos 60000000) analysed_lem refl
