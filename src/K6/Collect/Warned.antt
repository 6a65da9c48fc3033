-- ===== src/K6/Collect/Warned.antt =====
-- A run of k6/collect_bank_krr_run.py in which a query fails, and what k6/compare_bank_krr_runs.py
-- makes of its report.
use practical_project.Base.{
  ℕ, ◌≡◌, refl, false, List, [], ◌∷◌, ◌++◌, Option, none, some, ◌⊎◌, inl, inr, Any,
}
use mathlib.Core.Option.{some-ne-none}
use practical_project.Base.Classes.{Eq}
use practical_project.Base.Raises.{◌>>=◌}
use practical_project.Float.{Floats}
use practical_project.K6.{WorkloadRun, Report}
use practical_project.K6.Compare.{Thresholds, is_nil}
use practical_project.K6.Compare.Verdict.{compare_passes}
use practical_project.K6.Compare.Passed.{compare_passes-Warned}
use practical_project.K6.Collect.{
  Container, RangeQuery, cpu_usage, memory_usage, cpu_request, memory_request, cpu_limit,
  memory_limit, cpu_ratio, memory_ratio, throttle, replicas, InstantQuery, restart, oom, Answers,
  collect_workload,
}
use practical_project.K6.Collect.Report.{
  Arguments, Summary, done, Window, workloads_list, with_workload, collect_each, report_of,
  validate, collect_run,
}

-- A step that raises, and one behind which all raises.
bind_fails : {A B : Type 0} (m : Option A) (f : A → Option B) → m ≡ none → (m >>= f) ≡ none
bind_fails m f h = rw h refl

bind_none :
    {A B : Type 0} (m : Option A) (f : A → Option B) → ((a : A) → f a ≡ none) → (m >>= f) ≡ none
bind_none none f h = refl
bind_none (some a) f h = h a

ruleset failing = (bind_none, bind_fails)

abbrev pub range_queries : Container → List RangeQuery
range_queries c =
    cpu_usage c
    ∷ memory_usage c
    ∷ cpu_request c
    ∷ memory_request c
    ∷ cpu_limit c
    ∷ memory_limit c
    ∷ cpu_ratio c
    ∷ memory_ratio c
    ∷ throttle c
    ∷ replicas c
    ∷ []

is_nil-left : (left right : List (List ℕ)) → is_nil left ≡ false → is_nil (left ++ right) ≡ false
is_nil-left [] right h = cc
is_nil-left (x ∷ left) right h = refl

module _ {F : Type 0} (fl : Floats F) (fmean float_sum : List F → F) (answers : Answers) where
  -- A query of the container gets no answer.
  abbrev pub Unanswered : Container → Type 0
  Unanswered c =
      Any (λ (q : RangeQuery). answers.range q ≡ none) (range_queries c)
      ⊎ Any (λ (q : InstantQuery). answers.instant q ≡ none) (restart c ∷ oom c ∷ [])

  collect_workload-Unanswered :
      (c : Container) → Unanswered c → collect_workload fl fmean float_sum answers c ≡ none
  unfolding collect_workload
  collect_workload-Unanswered c (inl (inl h)) = search failing depth 20
  collect_workload-Unanswered c (inl (inr (inl h))) = search failing depth 20
  collect_workload-Unanswered c (inl (inr (inr (inl h)))) = search failing depth 20
  collect_workload-Unanswered c (inl (inr (inr (inr (inl h))))) = search failing depth 20
  collect_workload-Unanswered c (inl (inr (inr (inr (inr (inl h)))))) = search failing depth 20
  collect_workload-Unanswered c (inl (inr (inr (inr (inr (inr (inl h))))))) =
      search failing depth 20
  collect_workload-Unanswered c (inl (inr (inr (inr (inr (inr (inr (inl h)))))))) =
      search failing depth 20
  collect_workload-Unanswered c (inl (inr (inr (inr (inr (inr (inr (inr (inl h))))))))) =
      search failing depth 20
  collect_workload-Unanswered c (inl (inr (inr (inr (inr (inr (inr (inr (inr (inl h)))))))))) =
      search failing depth 20
  collect_workload-Unanswered c
        (inl (inr (inr (inr (inr (inr (inr (inr (inr (inr (inl h))))))))))) =
      search failing depth 20
  collect_workload-Unanswered c (inr (inl h)) = search failing depth 20
  collect_workload-Unanswered c (inr (inr (inl h))) = search failing depth 20
  collect_workload-Unanswered c (inr (inr (inr h))) = elim h [ ]
  collect_workload-Unanswered c
        (inl (inr (inr (inr (inr (inr (inr (inr (inr (inr (inr h))))))))))) =
      elim h [ ]

  with_workload-warned :
      (id : List ℕ) (o : Option (WorkloadRun F))
      (rest : List (List ℕ × WorkloadRun F) × List (List ℕ))
      → (o ≡ none) ⊎ (is_nil rest.1 ≡ false)
      → is_nil (with_workload fl fmean float_sum answers id o rest).1 ≡ false
  with_workload-warned id none rest h = refl
  with_workload-warned id (some w) rest (inl h) = elim (some-ne-none w h) [ ]
  with_workload-warned id (some w) rest (inr h) = h

  collect_each-warned :
      (list : List (List ℕ × Container))
      → Any (λ (p : List ℕ × Container). Unanswered p.1) list
      → is_nil (collect_each fl fmean float_sum answers list).1 ≡ false
  unfolding collect_each
  collect_each-warned [] h = elim h [ ]
  collect_each-warned ((id, c) ∷ rest) (inl h) =
      with_workload-warned id (collect_workload fl fmean float_sum answers c)
        (collect_each fl fmean float_sum answers rest) (inl (collect_workload-Unanswered c h))
  collect_each-warned ((id, c) ∷ rest) (inr h) =
      with_workload-warned id (collect_workload fl fmean float_sum answers c)
        (collect_each fl fmean float_sum answers rest) (inr (collect_each-warned rest h))

  module _ {V : Type 0} ⦃v_eq : Eq V⦄ where
    warned_report :
        (a : Arguments F V) (summary : Summary F)
        → Any (λ (p : List ℕ × Container). Unanswered p.1) workloads_list
        → is_nil (report_of fl fmean float_sum answers a summary).collection_warnings ≡ false
    unfolding report_of
    warned_report a summary h =
        is_nil-left (collect_each fl fmean float_sum answers workloads_list).1 _
          (collect_each-warned workloads_list h)

    -- When Prometheus leaves a query of any container without an answer, the run is reported all the
    -- same if its arguments are accepted, but no comparison with its report passes, be it the first
    -- or the second.
    pub collect_run-Unanswered :
        (a : Arguments F V) (summary : Summary F) (window : Option Window)
        → Any (λ (p : List ℕ × Container). Unanswered p.1) workloads_list
        → validate a summary ≡ done window
        → (r : Report F V) × (collect_run fl fmean float_sum answers a summary ≡ done (r, window))
          × ((t : Thresholds F) (other : Report F V)
              → (compare_passes fl t r other ≡ false) × (compare_passes fl t other r ≡ false))
    unfolding collect_run
    collect_run-Unanswered a summary window h accepted = (
      report_of fl fmean float_sum answers a summary,
      rw accepted refl,
      λ t other.
          compare_passes-Warned fl t (report_of fl fmean float_sum answers a summary) other
            (warned_report a summary h),
    )
