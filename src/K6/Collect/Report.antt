-- ===== src/K6/Collect/Report.antt =====
-- `main` of k6/collect_bank_krr_run.py: what it refuses, and the report that it writes. Instants are
-- whole microseconds.
use practical_project.Base.{
  ℕ, zero, suc, ◌*◌, ◌/◌, Bool, true, false, not, ◌&&◌, List, [], ◌∷◌, ◌++◌, Option, none, some,
  if◌then◌else◌, String,
}
use practical_project.Base.Int.{ℤ, pos, negsuc, ◌-ℤ◌, leb_ℤ, ltb_ℤ, sub_ℕ}
use practical_project.Base.Classes.{nat_eq, ◌==◌ as equals}
use practical_project.Base.Equality.{list_eq, option_eq}
use practical_project.Float.{Floats}
use practical_project.Float.Literal.{codes}
use practical_project.K6.{WorkloadRun, Http, EquivalenceKey, Report}
use practical_project.K6.Collect.{
  Container, RangeQuery, worker_nodes, karpenter_nodes, Answers, parse_duration_seconds, float_of_ℤ,
  range_stats, collect_workload,
}

-- Why the command ends before it collects.
pub data CollectError : Type 0 where
  end_not_later executed_at_missing bad_history history_mismatch executed_too_far run_id_mismatch
        phase_mismatch :
      CollectError

pub data Outcome {ℓ} (A : Type ℓ) : Type ℓ where
  done : A → Outcome A
  refused : CollectError → Outcome A

infixl 5 ◌>>=◌
abbrev pub ◌>>=◌ {ℓ κ} : {A : Type ℓ} {B : Type κ} → Outcome A → (A → Outcome B) → Outcome B
done a >>= f = f a
refused e >>= f = refused e

abbrev pub refuse_if : Bool → CollectError → Outcome (Unit {0})
refuse_if true e = refused e
refuse_if false e = done tt

-- The seconds of a span, its fraction dropped; and the size of a number.
abbrev pub seconds_in : ℤ → ℤ
seconds_in (pos n) = pos (n / 1000000)
seconds_in (negsuc n) = sub_ℕ 0 (suc n / 1000000)

abbrev pub size_of : ℤ → ℕ
size_of (pos n) = n
size_of (negsuc n) = suc n

-- `krr_analysis_window`: when KRR ran, and the seconds between the end of the run and that.
pub record Window : Type 0 where
  pub executed_at : ℤ
  pub effective_started_at : ℤ
  pub experiment_end_offset_seconds : ℤ

pub record Arguments (F V : Type 0) : Type 0 where
  pub run_id : List ℕ
  pub phase : List ℕ
  pub start : ℤ
  pub end_at : ℤ
  pub application_commit : List ℕ
  pub scenario : List ℕ
  pub scenario_sha256 : List ℕ
  pub krr_history_duration : List ℕ
  pub krr_executed_at : Option ℤ
  pub krr_max_end_offset_seconds : ℕ
  pub has_krr_results : Bool
  pub equivalence : EquivalenceKey → Option V

-- What `load_k6_summary` reads.
pub record Summary (F : Type 0) : Type 0 where
  pub run_id : Option (List ℕ)
  pub phase : Option (List ℕ)
  pub offered_count : Option ℤ
  pub system_count : Option ℤ
  pub business_count : Option ℤ
  pub dropped_count : Option ℤ
  pub offered_rate : Option F
  pub successful_rate : Option F
  pub latency_p95 : Option F
  pub latency_p99 : Option F

abbrev pub count_or_zero : Option ℤ → ℤ
count_or_zero none = pos 0
count_or_zero (some n) = n

abbrev pub is_zero : ℤ → Bool
is_zero (pos zero) = true
is_zero _ = false

abbrev pub is_missing : Option ℤ → Bool
is_missing none = true
is_missing (some x) = false

abbrev pub above : ℕ → ℤ → Bool
above limit x = ltb_ℤ (pos limit) (pos (size_of x))

module _ {F V : Type 0} where
  abbrev pub window_of : Arguments F V → ℤ → ℕ → Window
  window_of a executed history = record {
    executed_at = executed;
    effective_started_at = executed -ℤ pos (history * 1000000);
    experiment_end_offset_seconds = seconds_in (executed -ℤ a.end_at);
  }

  -- The window of KRR's history against that of the run, where KRR was run.
  unfoldable pub krr_window : Arguments F V → Outcome (Option Window)
  unfolding parse_duration_seconds ◌-ℤ◌
  krr_window a = elim (a.krr_executed_at) [
    | none ↦ done none
    | some executed ↦ elim (parse_duration_seconds a.krr_history_duration) [
      | none ↦ refused bad_history
      | some history ↦ do
        mismatch ←
            refuse_if
              (above a.krr_max_end_offset_seconds (pos history -ℤ seconds_in (a.end_at -ℤ a.start)))
              history_mismatch
        far ←
            refuse_if (above a.krr_max_end_offset_seconds (seconds_in (executed -ℤ a.end_at)))
              executed_too_far
        done (some (window_of a executed history))
    ]
  ]

  -- All that is tested before anything is collected.
  unfoldable pub validate : Arguments F V → Summary F → Outcome (Option Window)
  unfolding krr_window
  validate a summary = do
    order ← refuse_if (leb_ℤ a.end_at a.start) end_not_later
    given ← refuse_if (a.has_krr_results && is_missing a.krr_executed_at) executed_at_missing
    window ← krr_window a
    same_run ← refuse_if (not (equals summary.run_id (some a.run_id))) run_id_mismatch
    same_phase ← refuse_if (not (equals summary.phase (some a.phase))) phase_mismatch
    done window

-- `WORKLOADS`
abbrev pub backend : String → String → String → List ℕ × Container
backend id workload container = (
  codes id,
  record { namespace = codes "backend"; workload = codes workload; container = codes container },
)

abbrev pub workloads_list : List (List ℕ × Container)
workloads_list =
    (
      codes "frontend/mak-app-rollout/mak-container",
      record {
        namespace = codes "frontend";
        workload = codes "mak-app-rollout";
        container = codes "mak-container";
      },
    )
    ∷ backend "backend/userservice/userservice" "userservice" "userservice"
    ∷ backend "backend/userservice/worker" "userservice" "worker"
    ∷ backend "backend/contacts/contacts" "contacts" "contacts"
    ∷ backend "backend/contacts/worker" "contacts" "worker"
    ∷ backend "backend/balancereader/balancereader" "balancereader" "balancereader"
    ∷ backend "backend/balancereader/worker" "balancereader" "worker"
    ∷ backend "backend/ledgerwriter/ledgerwriter" "ledgerwriter" "ledgerwriter"
    ∷ backend "backend/ledgerwriter/worker" "ledgerwriter" "worker"
    ∷ backend "backend/transactionhistory/transactionhistory" "transactionhistory"
        "transactionhistory"
    ∷ backend "backend/transactionhistory/worker" "transactionhistory" "worker"
    ∷ []

module _ {F : Type 0} (fl : Floats F) where
  abbrev pub rate_of : ℤ → ℤ → Option F
  rate_of count offered =
      if is_zero offered then none else some (fl.div (float_of_ℤ fl count) (float_of_ℤ fl offered))

  -- `load_k6_summary`
  unfoldable pub http_of : Summary F → Http F
  http_of s =
      let offered = count_or_zero s.offered_count in
      record {
        offered_rps = s.offered_rate;
        successful_rps = s.successful_rate;
        dropped_iterations = some (count_or_zero s.dropped_count);
        system_error_rate = rate_of (count_or_zero s.system_count) offered;
        business_failure_rate = rate_of (count_or_zero s.business_count) offered;
        p95_ms = s.latency_p95;
        p99_ms = s.latency_p99;
      }

module _ {F : Type 0} (fl : Floats F) (fmean float_sum : List F → F) (answers : Answers) where
  abbrev pub with_workload :
      List ℕ
      → Option (WorkloadRun F)
      → List (List ℕ × WorkloadRun F) × List (List ℕ)
      → List (List ℕ × WorkloadRun F) × List (List ℕ)
  with_workload id none (workloads, errors) = (workloads, id ∷ errors)
  with_workload id (some w) (workloads, errors) = ((id, w) ∷ workloads, errors)

  -- The loop over the containers: what was collected, and the identifiers whose queries failed.
  unfoldable pub collect_each :
      List (List ℕ × Container) → List (List ℕ × WorkloadRun F) × List (List ℕ)
  unfolding collect_workload
  collect_each [] = ([], [])
  collect_each ((id, c) ∷ rest) =
      with_workload id (collect_workload fl fmean float_sum answers c) (collect_each rest)

  abbrev pub node_errors : String → RangeQuery → List (List ℕ)
  node_errors name q = elim (range_stats fl fmean float_sum answers q) [
    | none ↦ codes name ∷ []
    | some s ↦ []
  ]

  module _ {V : Type 0} where
    -- The report of a run.
    unfoldable pub report_of : Arguments F V → Summary F → Report F V
    unfolding collect_each http_of range_stats ◌-ℤ◌
    report_of a summary =
        let (workloads, errors) = collect_each workloads_list in
        record {
          run_id = a.run_id;
          scenario = a.scenario;
          scenario_sha256 = a.scenario_sha256;
          duration_seconds =
              fl.div (float_of_ℤ fl (a.end_at -ℤ a.start)) (float_of_ℤ fl (pos 1000000));
          application_commit = a.application_commit;
          equivalence = a.equivalence;
          http = http_of fl summary;
          workloads = workloads;
          collection_warnings =
              errors
              ++ (node_errors "worker_nodes" worker_nodes
                  ++ node_errors "karpenter_nodes" karpenter_nodes);
        }

    -- `main`: the report, with the window of KRR's history.
    unfoldable pub collect_run : Arguments F V → Summary F → Outcome (Report F V × Option Window)
    unfolding validate report_of
    collect_run a summary = do window ← validate a summary; done (report_of a summary, window)
