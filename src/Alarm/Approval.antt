-- ===== src/Alarm/Approval.antt =====
-- What the buttons of alarm/main.py apply.
use practical_project.Base.{
  ℕ, ◌≡◌, refl, ◌⊎◌, subst, true, List, [], ◌∷◌, none, inl, inr, if◌then◌else◌, length,
}
use practical_project.Alarm.{
  Target, finops_apply, Notice, preparing, applying, applied, nothing_pending, batch_running,
  batch_applied, Workflow, Call, Reply, State, Settings,
}
use practical_project.Alarm.Http.{
  update_telegram_message, fetch_finops_recommendation, trigger_github_workflow,
}
use practical_project.Alarm.Gateway.{
  Callback, stored, popped, is_filled, final_values, run_rollback, apply_target, approve,
  apply_each, approve_all, reject_all,
}
use practical_project.Alarm.Quiet.{
  workload_of, Applies, Applies-refl, Applies-then, Applies-still, update-Applies, fetch-Applies,
  trigger-Applies,
}

filled-cases : (entries : List Target) → (entries ≡ []) ⊎ (is_filled entries ≡ true)
filled-cases [] = inl refl
filled-cases (t ∷ ts) = inr refl

module _ (reply : List Call → Call → Reply) (settings : Settings) where
  abbrev pub edited : Callback → Notice → State → State
  edited c notice s = update_telegram_message reply settings c.chat c.message c.text notice s

  pub edited-Applies :
      (c : Callback) (notice : Notice) (s : State) → Applies [] s (edited c notice s)
  edited-Applies c notice s = update-Applies reply settings c.chat c.message c.text notice s

  apply_target-Applies :
      (t : Target) (values : List ℕ × List ℕ) (s : State)
      → Applies (t ∷ []) s (apply_target reply settings t values s).1
  unfolding apply_target
  apply_target-Applies t values s =
      trigger-Applies reply settings (finops_apply t values.0 values.1) []
        settings.gitops_target_branch s

  pub approve-Applies :
      (c : Callback) (t : Target) (s : State) → Applies (t ∷ []) s (approve reply settings c t s)
  unfolding approve
  approve-Applies c t s =
      let s1 = edited c (preparing t) s in
      let (recommendation, s2) = fetch_finops_recommendation reply settings t s1 in
      let values = final_values recommendation in
      let s3 = edited c (applying t values.0 values.1) s2 in
      let (_, s4) = apply_target reply settings t values s3 in
      let before =
        Applies-then [] [] s s1 s2 (edited-Applies c (preparing t) s)
          (fetch-Applies reply settings t s1) in
      let before' =
        Applies-then [] [] s s2 s3 before (edited-Applies c (applying t values.0 values.1) s2) in
      let done = Applies-then [] (t ∷ []) s s3 s4 before' (apply_target-Applies t values s3) in
      Applies-still (t ∷ []) s s4 _ done (edited-Applies c (applied t values.0 values.1) s4)

  apply_each-Applies :
      (ts : List Target) (s : State) → Applies ts s (apply_each reply settings ts s).1
  unfolding apply_each
  apply_each-Applies [] s = Applies-refl s
  apply_each-Applies (t ∷ ts) s =
      let (recommendation, s1) = fetch_finops_recommendation reply settings t s in
      let values = final_values recommendation in
      let (_, s2) = apply_target reply settings t values s1 in
      let (_, s3) = apply_each reply settings ts s2 in
      let one =
        Applies-then [] (t ∷ []) s s1 s2 (fetch-Applies reply settings t s)
          (apply_target-Applies t values s1) in
      Applies-then (t ∷ []) ts s s2 s3 one (apply_each-Applies ts s2)

  pub approve_all-Applies :
      (c : Callback) (s : State)
      → Applies
          (popped (s.registry c.message))
          (stored c.message none s)
          (approve_all reply settings c s)
  unfolding approve_all
  approve_all-Applies c s =
      let entries = popped (s.registry c.message) in
      let s1 = stored c.message none s in
      let s2 = edited c (batch_running (length entries)) s1 in
      let (lines, s3) = apply_each reply settings entries s2 in
      let done =
        Applies-then [] entries s1 s2 s3 (edited-Applies c (batch_running (length entries)) s1)
          (apply_each-Applies entries s2) in
      elim (filled-cases entries) [
        | inl empty ↦ rw (approve_all, empty) (edited-Applies c nothing_pending s1)
        | inr filled ↦
            rw (approve_all, filled)
              (Applies-still entries s1 s3 (edited c (batch_applied (length entries) lines) s3) done
                (edited-Applies c (batch_applied (length entries) lines) s3))
      ]

  pub reject_all-Applies :
      (c : Callback) (s : State)
      → Applies [] (stored c.message none s) (reject_all reply settings c s)
  unfolding reject_all
  reject_all-Applies c s = edited-Applies c _ (stored c.message none s)

  pub run_rollback-Applies :
      (c : Callback) (running started failed : Notice) (workflow : Workflow) (s : State)
      → workload_of workflow ≡ []
      → Applies [] s (run_rollback reply settings c running workflow started failed s)
  unfolding run_rollback
  run_rollback-Applies c running started failed workflow s none_applied =
      let s1 = update_telegram_message reply settings c.chat c.message [] running s in
      let (ok, s2) =
        trigger_github_workflow reply settings workflow settings.rollback_workflow_repo_name
          settings.rollback_workflow_branch s1 in
      let notice = if ok then started else failed in
      let quiet =
        subst (λ (l : List Target). Applies l s1 s2) none_applied
          (trigger-Applies reply settings workflow settings.rollback_workflow_repo_name
            settings.rollback_workflow_branch s1) in
      let begun =
        Applies-then [] [] s s1 s2 (update-Applies reply settings c.chat c.message [] running s)
          quiet in
      Applies-then [] [] s s2 _ begun (update-Applies reply settings c.chat c.message [] notice s2)
