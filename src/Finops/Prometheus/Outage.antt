-- ===== src/Finops/Prometheus/Outage.antt =====
-- What finops/app/clients.py and the rules of finops/app/engine.py make of a Prometheus that does not
-- answer.
use practical_project.Base.{ℕ, ◌≡◌, ◌∙◌, refl, false, Option, none, some, ◌==◌}
use practical_project.Base.Int.{pos}
use practical_project.Base.Json.{Json}
use practical_project.Float.{Floats}
use practical_project.Finops.{pass, warn}
use practical_project.Finops.Engine.{Inputs, Draft, noted, rule_03, rule_04}
use practical_project.Finops.Service.{metrics_of}
use practical_project.Finops.Prometheus.{
  sample_of, oom_kills, restarts, cpu_load, cpu_request, WorkloadId, Query, HttpReply, responded,
  no_response, query_prometheus, get_current_resource_spec, get_workload_metrics,
}

module _ {F : Type 0} (fl : Floats F) where
  -- No connection, a status of failure, or a body that is no JSON.
  pub data Silent : HttpReply F → Type 0 where
    no_connection : Silent no_response
    refused :
        (status : ℕ) (body : Option (Json F))
        → (status == 200) ≡ false
        → Silent (responded status body)
    garbled : (status : ℕ) → Silent (responded status none)

  module _ (reply : Query → HttpReply F) where
    silent_sample : (r : HttpReply F) → Silent r → sample_of fl r ≡ none
    silent_sample _ no_connection = refl
    silent_sample _ (refused status none h) = refl
    silent_sample _ (refused status (some body) h) = rw h refl
    silent_sample _ (garbled status) = refl

    silent_lem : (q : Query) → Silent (reply q) → query_prometheus fl reply q ≡ none
    unfolding query_prometheus
    silent_lem q h = silent_sample (reply q) h

    -- When Prometheus does not answer, the client reports a workload with no kills and no restarts,
    -- and not that it has no data: the rules on kills and restarts then pass with no penalty, where
    -- with no data each of them warns and adds a penalty of 15.
    pub get_workload_metrics-Silent :
        (w : WorkloadId) (i : Inputs F) (d : Draft F)
        → ((q : Query) → Silent (reply q))
        → i.prom_metrics ≡ metrics_of (get_workload_metrics fl reply w)
        → (get_current_resource_spec fl reply w ≡ none)
          × (rule_03 fl i d ≡ noted 0 "RULE_03" pass d)
          × (rule_04 fl i d ≡ noted 0 "RULE_04" pass d)
          × (rule_03 fl (record i { prom_metrics = none }) d ≡ noted 15 "RULE_03" warn d)
          × (rule_04 fl (record i { prom_metrics = none }) d ≡ noted 15 "RULE_04" warn d)
    unfolding get_workload_metrics get_current_resource_spec rule_03 rule_04
    get_workload_metrics-Silent w i d silent passed =
        let none_of = λ (q : Query). silent_lem q (silent q) in
        let known : i.prom_metrics
            ≡ some (record {
              oom_killed = false;
              restart_count = pos 0;
              avg_cpu_usage_pct = none;
              throttled = false;
            }) =
          passed ∙ rw (none_of (restarts w), none_of (oom_kills w), none_of (cpu_load w)) refl in
        (rw (none_of (cpu_request w)) refl, rw known refl, rw known refl, refl, refl)
