-- ===== src/Alarm/Http.antt =====
-- The calls of alarm/main.py to Telegram, GitHub and the FinOps engine. What is answered may depend on
-- every call made before.
use practical_project.Base.{
  ℕ, Bool, true, false, ◌||◌, List, [], ◌∷◌, ◌++◌, Option, none, some, ◌==◌, if◌then◌else◌,
}
use practical_project.Base.Int.{ℤ}
use practical_project.Float.Literal.{is_empty}
use practical_project.Alarm.{
  Target, Button, Workflow, Letter, workflow_refused, workflow_unreachable, Notice, Call,
  send_message, edit_message, answer_callback, dispatch, get_recommendation, Body, Reply, replied,
  unreachable, State, Settings,
}

module _ (reply : List Call → Call → Reply) (settings : Settings) where
  -- The call is made, and the answer read.
  abbrev pub logged : Call → State → State
  logged c s = record s { calls = s.calls ++ c ∷ [] }

  abbrev pub answer : Call → State → Reply
  answer c s = reply s.calls c

  abbrev pub sent_id : Reply → Option ℕ
  sent_id unreachable = none
  sent_id (replied status none) = none
  sent_id (replied status (some body)) = if status == 200 then body.message_id else none

  unfoldable pub send_telegram_message : Letter → Option (List Button) → State → Option ℕ × State
  send_telegram_message letter markup s =
      let c = send_message letter markup in (sent_id (answer c s), logged c s)

  -- Whether `update_telegram_message` tries again without markup.
  abbrev pub wants_retry : Reply → Bool
  wants_retry unreachable = false
  wants_retry (replied status none) = if status == 200 then false else true
  wants_retry (replied status (some body)) =
      if status == 200 then (if body.ok then false else true) else true

  unfoldable pub update_telegram_message : ℤ → ℕ → List ℕ → Notice → State → State
  update_telegram_message chat message original notice s =
      let c = edit_message chat message original notice true in
      if wants_retry (answer c s)
      then logged (edit_message chat message original notice false) (logged c s)
      else logged c s

  unfoldable pub answer_telegram_callback : List ℕ → State → State
  answer_telegram_callback id s = if is_empty id then s else logged (answer_callback id) s

  abbrev pub recommendation_in : Reply → Option Body
  recommendation_in unreachable = none
  recommendation_in (replied status body) = if status == 200 then body else none

  unfoldable pub fetch_finops_recommendation : Target → State → Option Body × State
  fetch_finops_recommendation t s =
      let c = get_recommendation t in (recommendation_in (answer c s), logged c s)

  abbrev pub or_else : List ℕ → List ℕ → List ℕ
  or_else a b = if is_empty a then b else a

  abbrev pub is_accepted : ℕ → Bool
  is_accepted status = status == 200 || status == 201 || status == 202 || status == 204

  unfoldable pub trigger_github_workflow : Workflow → List ℕ → List ℕ → State → Bool × State
  unfolding send_telegram_message
  trigger_github_workflow workflow repo_name ref s =
      let repo = or_else repo_name settings.github_repo_name in
      let c = dispatch repo (or_else ref settings.target_branch) workflow in
      elim (answer c s) [
        | unreachable ↦ (false, (send_telegram_message workflow_unreachable none (logged c s)).1)
        | replied status body ↦ if is_accepted status then (true, logged c s) else (
          false,
          (send_telegram_message (workflow_refused repo workflow status) none (logged c s)).1,
        )
      ]
