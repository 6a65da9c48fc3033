-- ===== src/Alarm/Quiet.antt =====
-- Which calls apply values to a workload, and which steps of alarm/main.py make none of them.
use practical_project.Base.{
  ℕ, ◌≡◌, refl, sym, subst, ◌⊎◌, ◌∙◌, ap, true, false, List, [], ◌∷◌, ◌++◌, Option, none,
  Bool-cases, inl, inr,
}
use practical_project.Base.Int.{ℤ}
use practical_project.Alarm.{
  Target, Button, Workflow, finops_apply, Letter, workflow_unreachable, workflow_refused, Notice,
  Call, send_message, edit_message, answer_callback, dispatch, get_recommendation, Body, Reply,
  replied, unreachable, State, Settings,
}
use practical_project.Alarm.Http.{
  logged, answer, wants_retry, is_accepted, or_else, send_telegram_message, update_telegram_message,
  answer_telegram_callback, fetch_finops_recommendation, trigger_github_workflow,
}
use mathlib.Core.List.{append-nil, append_assoc}

-- The workload that a workflow applies values to.
abbrev pub workload_of : Workflow → List Target
workload_of (finops_apply t _ _) = t ∷ []
workload_of _ = []

abbrev pub applied_by : Call → List Target
applied_by (dispatch _ _ workflow) = workload_of workflow
applied_by _ = []

-- The workloads that values were applied to, in order.
abbrev pub applied_targets : List Call → List Target
applied_targets [] = []
applied_targets (c ∷ cs) = applied_by c ++ applied_targets cs

pub applied_targets-append :
    (calls : List Call) (c : Call)
    → applied_targets (calls ++ c ∷ []) ≡ applied_targets calls ++ applied_by c
applied_targets-append [] c = append-nil (applied_by c)
applied_targets-append (d ∷ calls) c =
    ap (λ (l : List Target). applied_by d ++ l) (applied_targets-append calls c)
    ∙ sym (append_assoc (applied_by d) (applied_targets calls) (applied_by c))

-- From one state to another, values are applied to these workloads and the registry is left alone.
pub record Applies (targets : List Target) (s s' : State) : Type 0 where
  pub calls_lem : applied_targets s'.calls ≡ applied_targets s.calls ++ targets
  pub registry_lem : s'.registry ≡ s.registry

pub Applies-refl : (s : State) → Applies [] s s
Applies-refl s = record {
  calls_lem = sym (append-nil (applied_targets s.calls));
  registry_lem = refl;
}

pub Applies-then :
    (ts us : List Target) (s s' s'' : State)
    → Applies ts s s'
    → Applies us s' s''
    → Applies (ts ++ us) s s''
Applies-then ts us s s' s'' a b = record {
  calls_lem =
      b.calls_lem
      ∙ ap (λ (l : List Target). l ++ us) a.calls_lem
      ∙ append_assoc (applied_targets s.calls) ts us;
  registry_lem = b.registry_lem ∙ a.registry_lem;
}

pub Applies-still :
    (ts : List Target) (s s' s'' : State) → Applies ts s s' → Applies [] s' s'' → Applies ts s s''
Applies-still ts s s' s'' a b =
    subst (λ (l : List Target). Applies l s s'') (append-nil ts) (Applies-then ts [] s s' s'' a b)

Reply-cases :
    (r : Reply)
    → (r ≡ unreachable) ⊎ ((status : ℕ) × (body : Option Body) × (r ≡ replied status body))
Reply-cases unreachable = inl refl
Reply-cases (replied status body) = inr (status, body, refl)

module _ (reply : List Call → Call → Reply) (settings : Settings) where
  logged-Applies : (c : Call) (s : State) → Applies (applied_by c) s (logged reply settings c s)
  logged-Applies c s = record { calls_lem = applied_targets-append s.calls c; registry_lem = refl }

  pub send-Applies :
      (letter : Letter) (markup : Option (List Button)) (s : State)
      → Applies [] s (send_telegram_message reply settings letter markup s).1
  unfolding send_telegram_message
  send-Applies letter markup s = logged-Applies (send_message letter markup) s

  pub update-Applies :
      (chat : ℤ) (message : ℕ) (original : List ℕ) (notice : Notice) (s : State)
      → Applies [] s (update_telegram_message reply settings chat message original notice s)
  unfolding update_telegram_message
  update-Applies chat message original notice s =
      let c = edit_message chat message original notice true in
      let s1 = logged reply settings c s in
      let plain = edit_message chat message original notice false in
      elim (Bool-cases (wants_retry reply settings (answer reply settings c s))) [
        | inl again ↦
            rw (update_telegram_message, again)
              (Applies-then [] [] s s1 (logged reply settings plain s1) (logged-Applies c s)
                (logged-Applies plain s1))
        | inr done ↦ rw (update_telegram_message, done) (logged-Applies c s)
      ]

  pub callback-Applies :
      (id : List ℕ) (s : State) → Applies [] s (answer_telegram_callback reply settings id s)
  unfolding answer_telegram_callback
  callback-Applies [] s = Applies-refl s
  callback-Applies (c ∷ id) s = logged-Applies (answer_callback (c ∷ id)) s

  pub fetch-Applies :
      (t : Target) (s : State) → Applies [] s (fetch_finops_recommendation reply settings t s).1
  unfolding fetch_finops_recommendation
  fetch-Applies t s = logged-Applies (get_recommendation t) s

  pub trigger-Applies :
      (workflow : Workflow) (repo ref : List ℕ) (s : State)
      → Applies
          (workload_of workflow)
          s
          (trigger_github_workflow reply settings workflow repo ref s).1
  unfolding trigger_github_workflow
  trigger-Applies workflow repo ref s =
      let own = or_else reply settings repo settings.github_repo_name in
      let c = dispatch own (or_else reply settings ref settings.target_branch) workflow in
      let s1 = logged reply settings c s in
      let made = logged-Applies c s in
      let reported = λ (letter : Letter).
        Applies-still (workload_of workflow) s s1
          (send_telegram_message reply settings letter none s1).1 made
          (send-Applies letter none s1) in
      elim (Reply-cases (answer reply settings c s)) [
        | inl failed ↦ rw (trigger_github_workflow, failed) (reported workflow_unreachable)
        | inr (status, body, answered) ↦ elim (Bool-cases (is_accepted reply settings status)) [
          | inl accepted ↦ rw (trigger_github_workflow, answered, accepted) made
          | inr refused ↦
              rw (trigger_github_workflow, answered, refused)
                (reported (workflow_refused own workflow status))
        ]
      ]
