-- ===== src/Finops/Namespace/Tests.antt =====
-- An analysis of a namespace of one deployment and one job.
use practical_project.Base.{All, ◌≡◌, refl, List, [], ◌∷◌, none, some}
use practical_project.Base.Int.{ℤ}
use practical_project.Float.Fixed.{fixed}
use practical_project.Float.Literal.{codes}
use practical_project.Finops.Krr.{Results, ScanState}
use practical_project.Finops.Krr.Scans.{get_namespace_recommendations}
use practical_project.Finops.Krr.Sound.{IsSound}
use practical_project.Finops.Krr.Sample.{plain, runs_well, empty, Printed, prints}
use practical_project.Finops.Prometheus.{no_response}
use practical_project.Finops.Service.{AnalysisResponse}
use practical_project.Finops.Namespace.{
  Services, FinopsState, NamespaceAnswer, analyzed, analyze_namespace, report_workloads,
}
use practical_project.Finops.Namespace.Card.{CoversOnly, analyze_namespace-CoversOnly}
use practical_project.Alarm.Gateway.{approvable}

abbrev services : Services ℤ
services = record { run = runs_well; reply = λ q. no_response }

abbrev start : FinopsState ℤ
start = record { scans = empty; service = record { last_recommendations = λ k. none; rows = [] } }

abbrev answer : NamespaceAnswer ℤ × FinopsState ℤ
answer = analyze_namespace fixed plain services (codes "prod") (codes "24h") 1000000 start

abbrev responses_of : NamespaceAnswer ℤ → List (AnalysisResponse ℤ)
responses_of (analyzed rs) = rs
responses_of _ = []

abbrev responses : List (AnalysisResponse ℤ)
responses = responses_of answer.0

analysis_lem : answer ≡ (analyzed responses, answer.1)
unfolding fixed analyze_namespace
analysis_lem = refl

card :
    approvable (report_workloads responses)
    ≡ record {
      namespace = codes "prod";
      deployment_name = codes "api";
      container_name = codes "web";
    }
      ∷ []
unfolding fixed analyze_namespace approvable report_workloads
card = refl

analyze_namespace-CoversOnly_example :
    (results : Results ℤ) × (scans' : ScanState ℤ) × (get_namespace_recommendations fixed plain
        runs_well
        (codes "prod")
        (codes "24h")
        1000000
        empty
      ≡ some (results, scans'))
    × All (IsSound fixed plain Printed (codes "prod")) results
    × CoversOnly fixed plain Printed services (codes "prod") results responses
analyze_namespace-CoversOnly_example =
    analyze_namespace-CoversOnly fixed plain Printed services (codes "prod") (codes "24h") 1000000
      start answer.1 responses prints tt analysis_lem
