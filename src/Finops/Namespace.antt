-- ===== src/Finops/Namespace.antt =====
-- The endpoints of finops/app/main.py that analyse whole namespaces, as clients of the scan, of
-- Prometheus and Chronos and of the analysis, and the approval request that they send.
pub mod Listed
pub mod Card
mod Tests
use practical_project.Base.{
  ℕ, Bool, true, false, List, [], ◌∷◌, ◌++◌, Option, none, some, if◌then◌else◌,
}
use practical_project.Base.Int.{ℤ, pos}
use practical_project.Base.Classes.{nat_eq}
use practical_project.Base.Equality.{list_eq}
use practical_project.Base.Dict.{put}
use practical_project.Base.Json.{Json, str}
use practical_project.Float.{Floats}
use practical_project.Float.Literal.{codes, is_empty}
use practical_project.Finops.{RuleStatus, pass, warn, fail}
use practical_project.Finops.Krr.{Entry, Results, Run, ScanKey, ScanState}
use practical_project.Finops.Krr.Scans.{get_namespace_recommendations}
use practical_project.Finops.Prometheus.{
  WorkloadId, Query, HttpReply, get_current_resource_spec, get_workload_metrics,
  get_future_forecast,
}
use practical_project.Finops.Service.{
  KrrData, Collected, AnalysisResponse, ServiceState, analyze_each, or_text,
}
use practical_project.Alarm.{Target}
use practical_project.Alarm.Gateway.{Workload}

-- What the services outside answer while an analysis runs, in which no query is made twice.
pub record Services (F : Type 0) : Type 0 where
  pub run : ScanKey → Run F
  pub reply : Query → HttpReply F

-- The state of the program: that of the scans and that of the analysis.
pub record FinopsState (F : Type 0) : Type 0 where
  pub scans : ScanState F
  pub service : ServiceState F

-- What is answered: the duration is refused, nothing was found (503), or the responses.
pub data NamespaceAnswer (F : Type 0) : Type 0 where
  bad_duration no_workloads : NamespaceAnswer F
  analyzed : List (AnalysisResponse F) → NamespaceAnswer F

abbrev pub status_text : RuleStatus → List ℕ
status_text pass = codes "PASS"
status_text warn = codes "WARN"
status_text fail = codes "FAIL"

module _ {F : Type 0} where
  abbrev pub label_of : AnalysisResponse F → List ℕ
  label_of r = r.namespace ++ 47 ∷ (r.deployment_name ++ 47 ∷ r.container_name)

  -- The lines of the summary that give the values.
  abbrev pub values_line : AnalysisResponse F → List ℕ
  values_line r =
      let values = r.evaluation.recommendations in
      codes "<b>"
      ++ (label_of r
          ++ (codes "</b>\n  CPU: "
              ++ (values.current.cpu
                  ++ (codes " → "
                      ++ (values.krr.cpu
                          ++ (codes " → <b>"
                              ++ (values.final.cpu
                                  ++ (codes "</b>\n  Mem: "
                                      ++ (values.current.memory
                                          ++ (codes " → "
                                              ++ (values.krr.memory
                                                  ++ (codes " → <b>"
                                                      ++ (values.final.memory
                                                          ++ codes "</b>")))))))))))))

  abbrev pub summary_line : AnalysisResponse F → RuleStatus → List ℕ
  summary_line r pass = values_line r
  summary_line r _ =
      codes "<b>"
      ++ (label_of r ++ (codes "</b>\n  ⚠" ++ 0xfe0f ∷ codes " 정책 위반으로 승인 요청 생략 (현재값 유지)"))

  -- A workload of the request for approval.
  unfoldable pub report_workload : AnalysisResponse F → Workload
  report_workload r = record {
    target = record {
      namespace = r.namespace;
      deployment_name = r.deployment_name;
      container_name = r.container_name;
    };
    overall_status = status_text r.evaluation.overall_status;
    line = summary_line r r.evaluation.overall_status;
  }

  -- The workloads that `_send_combined_report` sends to the gateway; for none it sends nothing.
  unfoldable pub report_workloads : List (AnalysisResponse F) → List Workload
  unfolding report_workload
  report_workloads [] = []
  report_workloads (r ∷ rs) = report_workload r ∷ report_workloads rs

module _ {F : Type 0} (fl : Floats F) (python_str : Json F → List ℕ) (services : Services F) where
  abbrev pub krr_data_of : List ℕ → List ℕ → Entry F → KrrData
  krr_data_of workload container e = record {
    workload = workload;
    container = container;
    current_cpu = some e.current_cpu;
    current_memory = some e.current_memory;
    recommended_cpu = e.recommended_cpu;
    recommended_memory = e.recommended_memory;
    limit_cpu = e.limit_cpu;
    limit_memory = e.limit_memory;
  }

  -- What is collected for a container. The fields of a response are texts, so an analysis of an entry
  -- with any other name raises, and the entry is passed over.
  abbrev pub collected_of : List ℕ → Entry F → Json F → Json F → List (Collected F)
  collected_of namespace e (str workload) (str container) =
      let id : WorkloadId = record {
        deployment_name = workload;
        namespace = namespace;
        container_name = container;
      } in
      record {
        krr = krr_data_of workload container e;
        prom_curr_spec = get_current_resource_spec fl services.reply id;
        prom_raw = get_workload_metrics fl services.reply id;
        chronos_raw = get_future_forecast fl services.reply id;
      }
      ∷ []
  collected_of namespace e _ _ = []

  unfoldable pub collect : List ℕ → Results F → List (Collected F)
  unfolding get_current_resource_spec get_workload_metrics get_future_forecast
  collect namespace [] = []
  collect namespace ((key, e) ∷ rest) =
      collected_of namespace e e.workload e.container ++ collect namespace rest

  abbrev pub analyze_results :
      List ℕ → ℕ → Results F → FinopsState F → List (AnalysisResponse F) × FinopsState F
  analyze_results namespace now results s =
      let (rs, service') =
        analyze_each fl namespace (pos now) (collect namespace results) s.service in
      (rs, record s { service = service' })

  abbrev pub analyze_scanned :
      List ℕ → ℕ → Results F → FinopsState F → NamespaceAnswer F × FinopsState F
  analyze_scanned namespace now [] s = (no_workloads, s)
  analyze_scanned namespace now (e ∷ results) s =
      let (rs, s') = analyze_results namespace now (e ∷ results) s in (analyzed rs, s')

  -- `analyze_namespace`, less the report.
  unfoldable pub analyze_namespace :
      List ℕ → List ℕ → ℕ → FinopsState F → NamespaceAnswer F × FinopsState F
  unfolding get_namespace_recommendations collect analyze_each
  analyze_namespace namespace duration now s =
      elim (get_namespace_recommendations fl python_str services.run namespace duration now
        s.scans) [
          | none ↦ (bad_duration, s)
          | some (results, scans') ↦
              analyze_scanned namespace now results (record s { scans = scans' })
        ]

  -- `analyze_batch`, less the report, from what is there of the report's responses and of the answer:
  -- `none` if a duration is refused, which ends the request.
  unfoldable pub analyze_batch :
      List (List ℕ)
      → List ℕ
      → ℕ
      → List (AnalysisResponse F)
      → List (List ℕ × List (AnalysisResponse F))
      → FinopsState F
      → Option (List (AnalysisResponse F) × List (List ℕ × List (AnalysisResponse F)))
        × FinopsState F
  unfolding get_namespace_recommendations collect analyze_each put
  analyze_batch [] duration now all_results per_namespace s = (some (all_results, per_namespace), s)
  analyze_batch (namespace ∷ namespaces) duration now all_results per_namespace s =
      elim (get_namespace_recommendations fl python_str services.run namespace duration now
        s.scans) [
          | none ↦ (none, s)
          | some (results, scans') ↦
              let (rs, s') = analyze_results namespace now results (record s { scans = scans' }) in
              analyze_batch namespaces duration now (all_results ++ rs)
                (put namespace rs per_namespace) s'
        ]
