-- ===== src/Finops/Namespace/Listed.antt =====
-- From KRR's listing of a namespace to the approval card: the analysis of finops/app/main.py and the
-- card of alarm/main.py.
use practical_project.Base.{
  ℕ, ◌≡◌, refl, sym, subst, ap, ◌∙◌, true, false, List, [], ◌∷◌, Option, none, some, All, All-map,
  Any, inl, inr,
}
use mathlib.Core.Option.{some-injective, none-ne-some}
use practical_project.Base.Int.{ℤ}
use practical_project.Base.Classes.{nat_eq}
use practical_project.Base.Equality.{list_beq_iff}
use practical_project.Base.Raises.{Ensures, Ensures-of}
use practical_project.Base.Json.{str}
use practical_project.Float.{Floats}
use practical_project.Float.Literal.{codes, is_empty}
use practical_project.Finops.{RuleStatus, pass, warn, fail}
use practical_project.Finops.Verdict.{Evaluation, evaluate_optimization}
use practical_project.Finops.Krr.{Entry, Results}
use practical_project.Finops.Krr.Rows.{is_job}
use practical_project.Finops.Service.{
  Collected, AnalysisResponse, ServiceState, or_text, is_passed, completed, request_of,
  run_analysis, analyze_each,
}
use practical_project.Finops.Namespace.{status_text, report_workload, report_workloads}
use practical_project.Alarm.{Target}
use practical_project.Alarm.Gateway.{approvable, is_named}
use practical_project.Alarm.Cards.{HasPassed, approvable-HasPassed}

pass_text : (s : RuleStatus) → status_text s ≡ codes "PASS" → is_passed s ≡ true
pass_text pass h = refl
pass_text warn h = cc ((list_beq_iff (status_text warn) (codes "PASS")).1 h)
pass_text fail h = cc ((list_beq_iff (status_text fail) (codes "PASS")).1 h)

module _ {F : Type 0} where
  -- An entry of the results that has these names and is no job.
  abbrev pub Names : List ℕ → List ℕ → List ℕ → List ℕ × Entry F → Type 0
  Names namespace workload container p =
      (p.1.namespace ≡ namespace)
      × (p.1.workload ≡ str workload)
      × (p.1.container ≡ str container)
      × (is_job p.1.kind ≡ false)

  abbrev pub response_target : AnalysisResponse F → Target
  response_target r = record {
    namespace = r.namespace;
    deployment_name = r.deployment_name;
    container_name = r.container_name;
  }

  -- A response for the target that passed.
  abbrev pub PassedFor : Target → AnalysisResponse F → Type 0
  PassedFor t r = (response_target r ≡ t) × (is_passed r.evaluation.overall_status ≡ true)

  HasPassed-Any :
      (t : Target) (rs : List (AnalysisResponse F))
      → HasPassed t (report_workloads rs)
      → Any (PassedFor t) rs
  unfolding report_workloads report_workload
  HasPassed-Any t [] h = elim h [ ]
  HasPassed-Any t (r ∷ rs) (inl (e, h)) = inl (e, pass_text r.evaluation.overall_status h)
  HasPassed-Any t (r ∷ rs) (inr h) = inr (HasPassed-Any t rs h)

module _ {F : Type 0} (fl : Floats F) where
  completed_names :
      (deployment namespace container : List ℕ) (c : Collected F) (now : ℤ) (s : ServiceState F)
      (e : Option (Evaluation F)) (r : AnalysisResponse F)
      → (completed fl deployment namespace container c now s e).0 ≡ some r
      → response_target r
        ≡ record { namespace = namespace; deployment_name = deployment; container_name = container }
  completed_names deployment namespace container c now s none r h = elim (none-ne-some r h) [ ]
  completed_names deployment namespace container c now s (some e) r h =
      sym (ap response_target (some-injective _ r h))

  module _ (namespace : List ℕ) (results : Results F) where
    -- Collected for a container that the results have.
    abbrev pub Gathered : Collected F → Type 0
    Gathered c =
        Any (Names namespace c.krr.workload c.krr.container) results
        × (is_empty c.krr.container ≡ false)

    -- A container of the namespace that the results have.
    abbrev pub ListedTarget : Target → Type 0
    ListedTarget t =
        Any (Names t.namespace t.deployment_name t.container_name) results
        × (t.namespace ≡ namespace)

    abbrev pub Listed : AnalysisResponse F → Type 0
    Listed r = ListedTarget (response_target r)

    analysis-Listed :
        (c : Collected F) (now : ℤ) (s : ServiceState F) (r : AnalysisResponse F)
        → Gathered c
        → (run_analysis fl c.krr.workload namespace c.krr.container c now s).0 ≡ some r
        → Listed r
    unfolding run_analysis
    analysis-Listed c now s r (names, filled) h =
        let names_of =
          completed_names c.krr.workload namespace
            (or_text c.krr.container (or_text c.krr.container c.krr.workload)) c now s
            (evaluate_optimization fl (request_of c)) r h in
        let own : or_text c.krr.container (or_text c.krr.container c.krr.workload)
            ≡ c.krr.container =
          rw filled refl in
        subst ListedTarget
          (sym (
            names_of
            ∙ ap
                (λ (k : List ℕ). record {
                  namespace = namespace;
                  deployment_name = c.krr.workload;
                  container_name = k;
                })
                own))
          (names, refl)

    analysis-Ensures :
        (c : Collected F) (now : ℤ) (s : ServiceState F)
        → Gathered c
        → Ensures Listed (run_analysis fl c.krr.workload namespace c.krr.container c now s).0
    analysis-Ensures c now s g =
        Ensures-of Listed (run_analysis fl c.krr.workload namespace c.krr.container c now s).0
          (λ (r : AnalysisResponse F). analysis-Listed c now s r g)

    with_response :
        (o : Option (AnalysisResponse F)) (rs : List (AnalysisResponse F))
        → Ensures Listed o
        → All Listed rs
        → All Listed (elim o [ none ↦ rs | some r ↦ r ∷ rs ])
    with_response none rs h hs = hs
    with_response (some r) rs h hs = (h, hs)

    pub analyze_each-Listed :
        (now : ℤ) (cs : List (Collected F)) (s : ServiceState F)
        → All Gathered cs
        → All Listed (analyze_each fl namespace now cs s).0
    unfolding analyze_each
    analyze_each-Listed now [] s h = tt
    analyze_each-Listed now (c ∷ cs) s (g, gs) =
        let out = run_analysis fl c.krr.workload namespace c.krr.container c now s in
        with_response out.0 (analyze_each fl namespace now cs out.1).0 (analysis-Ensures c now s g)
          (analyze_each-Listed now cs out.1 gs)

    Any-target :
        (t : Target) (rs : List (AnalysisResponse F))
        → All Listed rs
        → Any (PassedFor t) rs
        → ListedTarget t
    Any-target t [] h p = elim p [ ]
    Any-target t (r ∷ rs) h (inl p) = subst ListedTarget p.0 h.0
    Any-target t (r ∷ rs) h (inr p) = Any-target t rs h.1 p

    -- What the card of these responses covers.
    pub card-Listed :
        (rs : List (AnalysisResponse F))
        → All Listed rs
        → All
            (λ (t : Target). ListedTarget t × Any (PassedFor t) rs)
            (approvable (report_workloads rs))
    card-Listed rs h =
        All-map
          (λ (t : Target) (p : (is_named t ≡ true) × HasPassed t (report_workloads rs)).
            let passed = HasPassed-Any t rs p.1 in (Any-target t rs h passed, passed))
          (approvable (report_workloads rs)) (approvable-HasPassed (report_workloads rs))
