-- ===== src/Finops/Prometheus/Tests.antt =====
-- Answers of Prometheus, and none, in fixed-point numbers.
use practical_project.Base.{◌≡◌, refl, true, false, [], none, some, String}
use practical_project.Base.Int.{ℤ, pos}
use practical_project.Base.Json.{Json, num, str, arr, obj, nil, cons, end, field}
use practical_project.Float.Fixed.{fixed}
use practical_project.Float.Literal.{codes}
use practical_project.Finops.{pass, warn}
use practical_project.Finops.Engine.{Inputs, Draft, noted, rule_03, rule_04}
use practical_project.Finops.Service.{metrics_of}
use practical_project.Finops.Prometheus.{
  WorkloadId, Query, oom_kills, HttpReply, responded, no_response, get_current_resource_spec,
  get_workload_metrics,
}
use practical_project.Finops.Prometheus.Outage.{no_connection, get_workload_metrics-Silent}

abbrev api : WorkloadId
api = record {
  deployment_name = codes "api";
  namespace = codes "prod";
  container_name = codes "web";
}

abbrev sample : String → Json ℤ
sample text = obj (
    field (codes "data")
      (obj (
        field (codes "result")
          (arr (
            cons
              (obj (
                field (codes "value") (arr (cons (num (pos 0)) (cons (str (codes text)) nil))) end))
              nil))
          end))
      end)

abbrev killed : Query → HttpReply ℤ
killed (oom_kills w) = responded 200 (some (sample "2"))
killed _ = responded 200 (some (sample "1.5"))

metrics_test :
    get_workload_metrics fixed killed api
    ≡ some (record {
      oom_killed = true;
      restart_count = pos 1;
      avg_cpu_usage_pct = some (pos 1500000);
      throttled = true;
    })
unfolding fixed get_workload_metrics
metrics_test = refl

spec_test :
    get_current_resource_spec fixed killed api
    ≡ some (record { cpu = codes "1500000"; memory = codes "0Mi" })
unfolding fixed get_current_resource_spec
spec_test = refl

abbrev down : Query → HttpReply ℤ
down q = no_response

abbrev outage_inputs : Inputs ℤ
outage_inputs = record {
  curr_cpu = pos 1000000;
  curr_mem = pos 1000000;
  krr_cpu = pos 1000000;
  krr_mem = pos 1000000;
  prom_metrics = metrics_of (get_workload_metrics fixed down api);
  chronos_forecast = none;
  cpu_data_insufficient = false;
  mem_data_insufficient = false;
  cpu_limit = none;
  memory_limit = none;
}

abbrev draft : Draft ℤ
draft = record { final_cpu = pos 0; final_mem = pos 0; score = 0; policy_evals = [] }

get_workload_metrics-Silent_example :
    (get_current_resource_spec fixed down api ≡ none)
    × (rule_03 fixed outage_inputs draft ≡ noted 0 "RULE_03" pass draft)
    × (rule_04 fixed outage_inputs draft ≡ noted 0 "RULE_04" pass draft)
    × (rule_03 fixed (record outage_inputs { prom_metrics = none }) draft
        ≡ noted 15 "RULE_03" warn draft)
    × (rule_04 fixed (record outage_inputs { prom_metrics = none }) draft
        ≡ noted 15 "RULE_04" warn draft)
get_workload_metrics-Silent_example =
    get_workload_metrics-Silent fixed down api outage_inputs draft (λ q. no_connection) refl
