-- ===== src/K6/Compare/Rows.antt =====
-- The table of workloads that `compare` in k6/compare_bank_krr_runs.py returns.
use practical_project.Base.{
  ℕ, Bool, true, false, not, ◌&&◌, ◌||◌, List, [], ◌∷◌, Option, none, some, ltb, ◌==◌,
  if◌then◌else◌,
}
use practical_project.Base.Classes.{nat_eq}
use practical_project.Base.Equality.{list_eq}
use practical_project.Base.Dict.{lookup}
use practical_project.Float.{Floats}
use practical_project.K6.{Stats, WorkloadRun}
use practical_project.K6.Compare.{Thresholds, ratio, cpu_limited}
use practical_project.K6.Compare.Verdict.{holds, reduction_of}

pub record Row (F : Type 0) : Type 0 where
  pub cpu_request_before : Option F
  pub cpu_request_after : Option F
  pub cpu_request_reduction : Option F
  pub memory_request_before : Option F
  pub memory_request_after : Option F
  pub memory_request_reduction : Option F
  pub post_cpu_throttling_avg : Option F
  pub post_cpu_throttling_p95 : Option F
  pub post_oom : Option F
  pub post_restarts : Option F
  pub passes : Bool

-- Texts in the order of their code points.
abbrev pub leb_text : List ℕ → List ℕ → Bool
leb_text [] b = true
leb_text (x ∷ xs) [] = false
leb_text (x ∷ xs) (y ∷ ys) =
    let rest = leb_text xs ys in if ltb x y then true else if x == y then rest else false

-- An identifier into a sorted list that holds each once.
abbrev pub insert_text : List ℕ → List (List ℕ) → List (List ℕ)
insert_text a [] = a ∷ []
insert_text a (b ∷ rest) =
    let behind = insert_text a rest in
    if leb_text a b then (if leb_text b a then b ∷ rest else a ∷ b ∷ rest) else b ∷ behind

module _ {F : Type 0} where
  abbrev pub no_stats : Stats F
  no_stats = record { avg = none; p95 = none; max = none }

  -- What `.get` finds in `{}`.
  abbrev pub no_workload : WorkloadRun F
  no_workload = record {
    cpu_usage_cores = no_stats;
    memory_working_set_bytes = no_stats;
    cpu_request_cores_per_replica = no_stats;
    memory_request_bytes_per_replica = no_stats;
    cpu_limit_cores_per_replica = no_stats;
    memory_limit_bytes_per_replica = no_stats;
    cpu_usage_request_ratio = no_stats;
    memory_usage_request_ratio = no_stats;
    cpu_throttling_ratio = no_stats;
    restart_increase = none;
    oom_killed_pods = none;
    replicas = no_stats;
  }

  abbrev pub workload_or_none : Option (WorkloadRun F) → WorkloadRun F
  workload_or_none none = no_workload
  workload_or_none (some w) = w

  abbrev pub with_identifiers : List (List ℕ × WorkloadRun F) → List (List ℕ) → List (List ℕ)
  with_identifiers [] ids = ids
  with_identifiers ((id, w) ∷ rest) ids = with_identifiers rest (insert_text id ids)

module _ {F : Type 0} (fl : Floats F) (thresholds : Thresholds F) where
  unfoldable pub throttling_stable : WorkloadRun F → Bool
  throttling_stable w =
      not (cpu_limited fl w)
      || holds (λ (x : F). fl.lt x thresholds.cpu_throttling_avg_max) w.cpu_throttling_ratio.avg
        && holds (λ (x : F). fl.lt x thresholds.cpu_throttling_p95_max) w.cpu_throttling_ratio.p95

  unfoldable pub is_stable : WorkloadRun F → Bool
  unfolding throttling_stable
  is_stable w =
      throttling_stable w
      && holds (λ (x : F). fl.le x thresholds.oom_increase_max) w.oom_killed_pods
      && holds (λ (x : F). fl.le x thresholds.restart_increase_max) w.restart_increase

  unfoldable pub row_of : WorkloadRun F → WorkloadRun F → Row F
  unfolding is_stable ratio
  row_of before after =
      let cpu_before = before.cpu_request_cores_per_replica.avg in
      let cpu_after = after.cpu_request_cores_per_replica.avg in
      let mem_before = before.memory_request_bytes_per_replica.avg in
      let mem_after = after.memory_request_bytes_per_replica.avg in
      record {
        cpu_request_before = cpu_before;
        cpu_request_after = cpu_after;
        cpu_request_reduction = reduction_of fl (ratio fl cpu_after cpu_before);
        memory_request_before = mem_before;
        memory_request_after = mem_after;
        memory_request_reduction = reduction_of fl (ratio fl mem_after mem_before);
        post_cpu_throttling_avg = after.cpu_throttling_ratio.avg;
        post_cpu_throttling_p95 = after.cpu_throttling_ratio.p95;
        post_oom = after.oom_killed_pods;
        post_restarts = after.restart_increase;
        passes = is_stable after;
      }

  abbrev pub rows_for :
      List (List ℕ × WorkloadRun F)
      → List (List ℕ × WorkloadRun F)
      → List (List ℕ)
      → List (List ℕ × Row F)
  rows_for before after [] = []
  rows_for before after (id ∷ ids) =
      (id, row_of (workload_or_none (lookup id before)) (workload_or_none (lookup id after)))
      ∷ rows_for before after ids

  -- A row for each identifier of either run, sorted.
  unfoldable pub rows :
      List (List ℕ × WorkloadRun F) → List (List ℕ × WorkloadRun F) → List (List ℕ × Row F)
  unfolding row_of lookup
  rows before after = rows_for before after (with_identifiers after (with_identifiers before []))
