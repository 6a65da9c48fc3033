-- ===== src/Finops/Service/Cache.antt =====
-- What finops/app/main.py answers of an analysis that it keeps.
use practical_project.Base.{
  ℕ, ◌*◌, ◌≡◌, refl, subst, inl, inr, Bool, true, false, List, [], ◌∷◌, ◌++◌, Option, none, some,
  Bool-cases,
}
use mathlib.Core.Option.{some-injective, none-ne-some}
use practical_project.Base.Int.{ℤ, pos, ◌-ℤ◌, ltb_ℤ}
use practical_project.Base.Classes.{nat_eq, ==-self}
use practical_project.Base.Equality.{list_eq}
use practical_project.Float.{Floats}
use practical_project.Float.Literal.{is_empty}
use practical_project.Finops.Verdict.{Evaluation, evaluate_optimization}
use practical_project.Finops.Service.{
  Collected, response_of, row_of, AnalysisResponse, ServiceState, or_text, cache_key, request_of,
  metrics_of, put, store_recommendation, fresh_or_removed, get_recommendation, Recommendation,
  not_found, conflict, recommended, is_passed, answered, get_last_recommendation, completed,
  run_analysis,
}

-- Whether a cached response is past its time to live, which is in seconds.
abbrev pub is_late : ℕ → ℤ → ℤ → Bool
is_late ttl now cached_at = ltb_ℤ (pos (ttl * 1000000)) (now -ℤ cached_at)

module _ {F : Type 0} where
  abbrev pub key_for : AnalysisResponse F → List ℕ
  key_for r = cache_key r.namespace r.deployment_name r.container_name

  stored_lem :
      (r : AnalysisResponse F) (now : ℤ) (s : ServiceState F)
      → (store_recommendation r now s).last_recommendations (key_for r) ≡ some (r, now)
  unfolding store_recommendation
  stored_lem r now s = rw (==-self (key_for r)) refl

  -- How a kept response is answered: 404 and forgotten when it is late, its final values when it
  -- passed, 409 when it did not.
  pub data IsAnswered (ttl : ℕ) (r : AnalysisResponse F) (cached_at now : ℤ) (key : List ℕ)
      : Recommendation → ServiceState F → Type 0 where
    late :
        {s : ServiceState F}
        → is_late ttl now cached_at ≡ true
        → s.last_recommendations key ≡ none
        → IsAnswered ttl r cached_at now key not_found s
    applicable :
        {s : ServiceState F}
        → is_late ttl now cached_at ≡ false
        → is_passed r.evaluation.overall_status ≡ true
        → IsAnswered ttl r cached_at now key
            (recommended r.container_name r.evaluation.recommendations.final.cpu
              r.evaluation.recommendations.final.memory r.evaluation.risk_score)
            s
    refused :
        {s : ServiceState F}
        → is_late ttl now cached_at ≡ false
        → is_passed r.evaluation.overall_status ≡ false
        → IsAnswered ttl r cached_at now key conflict s

  forgotten : (key : List ℕ) (s : ServiceState F) → (put key none s).last_recommendations key ≡ none
  forgotten key s = rw (==-self key) refl

  kept_answer :
      (ttl : ℕ) (r : AnalysisResponse F) (cached_at now : ℤ) (key : List ℕ) (s : ServiceState F)
      → let (cached, s') = fresh_or_removed ttl key now (some (r, cached_at)) s in
        IsAnswered ttl r cached_at now key (answered cached) s'
  kept_answer ttl r cached_at now key s = elim (Bool-cases (is_late ttl now cached_at)) [
    | inl old ↦ rw old (late old (forgotten key s))
    | inr young ↦ elim (Bool-cases (is_passed r.evaluation.overall_status)) [
      | inl passed ↦ rw (young, passed) (applicable young passed)
      | inr not_passed ↦ rw (young, not_passed) (refused young not_passed)
    ]
  ]

  asked_answer :
      (ttl : ℕ) (r : AnalysisResponse F) (cached_at now : ℤ) (s : ServiceState F)
      → is_empty r.container_name ≡ false
      → s.last_recommendations (key_for r) ≡ some (r, cached_at)
      → let asked =
          get_last_recommendation ttl r.namespace r.deployment_name r.container_name now s in
        IsAnswered ttl r cached_at now (key_for r) asked.0 asked.1
  unfolding get_last_recommendation get_recommendation
  asked_answer ttl r cached_at now s named found =
      let named_key : or_text r.container_name r.deployment_name ≡ r.container_name =
        rw named refl in
      rw (get_last_recommendation, get_recommendation, named_key, found)
        (kept_answer ttl r cached_at now (key_for r) s)

module _ {F : Type 0} (fl : Floats F) where
  completed_lem :
      (deployment namespace container : List ℕ) (c : Collected F) (now : ℤ) (s : ServiceState F)
      (e : Option (Evaluation F)) (r : AnalysisResponse F)
      → (completed fl deployment namespace container c now s e).0 ≡ some r
      → (completed fl deployment namespace container c now s e).1.last_recommendations (key_for r)
        ≡ some (r, now)
  completed_lem deployment namespace container c now s none r h = elim (none-ne-some r h) [ ]
  completed_lem deployment namespace container c now s (some e) r h =
      let r0 = response_of fl deployment namespace container e in
      let s0 = record s { rows = s.rows ++ row_of (metrics_of c.prom_raw) r0 ∷ [] } in
      subst
        (λ (x : AnalysisResponse F).
          (store_recommendation r0 now s0).last_recommendations (key_for x) ≡ some (x, now))
        (some-injective r0 r h) (stored_lem r0 now s0)

  -- A response that an analysis returns is what the recommendation endpoint answers for the same
  -- container from then on: its final values when it passed and the time to live has not run out, 409
  -- when it did not pass, and 404 once it is late, when the entry is removed too.
  pub run_analysis-IsAnswered :
      (deployment namespace container : List ℕ) (c : Collected F) (now : ℤ) (s : ServiceState F)
      (r : AnalysisResponse F) (ttl : ℕ) (later : ℤ)
      → (run_analysis fl deployment namespace container c now s).0 ≡ some r
      → is_empty r.container_name ≡ false
      → let asked =
          get_last_recommendation ttl r.namespace r.deployment_name r.container_name later
            (run_analysis fl deployment namespace container c now s).1 in
        IsAnswered ttl r now later (key_for r) asked.0 asked.1
  unfolding run_analysis
  run_analysis-IsAnswered deployment namespace container c now s r ttl later h named =
      let name = or_text container (or_text c.krr.container deployment) in
      asked_answer ttl r now later (run_analysis fl deployment namespace container c now s).1 named
        (completed_lem deployment namespace name c now s (evaluate_optimization fl (request_of c)) r
          h)
