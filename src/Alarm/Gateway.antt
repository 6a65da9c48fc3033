-- ===== src/Alarm/Gateway.antt =====
-- The handlers of alarm/main.py.
use practical_project.Base.{
  ℕ, Bool, true, false, ◌&&◌, ◌||◌, not, List, [], ◌∷◌, ◌++◌, Option, none, some, length, ◌==◌,
  if◌then◌else◌,
}
use practical_project.Base.Int.{ℤ}
use practical_project.Base.Classes.{nat_eq}
use practical_project.Base.Equality.{list_beq}
use practical_project.Float.Literal.{codes, is_empty}
use practical_project.Alarm.{
  Target, callback, dashboard, Workflow, rollback, rollback_custom, finops_apply, Alert,
  alert_report, finops_report, finops_note, batch_card, Line, Notice, rollback_running,
  rollback_started, rollback_failed, custom_running, custom_started, custom_failed, preparing,
  rejected, applying, applied, nothing_pending, batch_running, batch_rejected, batch_applied, Call,
  Body, Reply, State, Settings,
}
use practical_project.Alarm.Names.{behind, target_of, button_data, without}
use practical_project.Alarm.Http.{
  send_telegram_message, update_telegram_message, answer_telegram_callback,
  fetch_finops_recommendation, trigger_github_workflow,
}

-- A workload of a batch, as the FinOps engine reports it; `line` is empty where it has
-- none, and an entry that the batch leaves out has the default that the handler gives it.
pub record Workload : Type 0 where
  pub target : Target
  pub overall_status : List ℕ
  pub line : List ℕ

pub record Callback : Type 0 where
  pub id : List ℕ
  pub callback_data : List ℕ
  pub chat : ℤ
  pub message : ℕ
  pub text : List ℕ

abbrev pub is_pass : List ℕ → Bool
is_pass status = list_beq status (codes "PASS")

abbrev pub is_named : Target → Bool
is_named t =
    not (is_empty t.namespace)
    && not (is_empty t.deployment_name)
    && not (is_empty t.container_name)

-- The workloads that an approval applies to: `registry_entries`.
unfoldable pub approvable : List Workload → List Target
approvable [] = []
approvable (w ∷ ws) =
    let rest = approvable ws in
    if is_pass w.overall_status && is_named w.target then w.target ∷ rest else rest

abbrev pub label : Target → List ℕ
label t = t.namespace ++ codes "/" ++ t.deployment_name ++ codes "/" ++ t.container_name

abbrev pub card_lines : List Workload → List (List ℕ)
card_lines [] = []
card_lines (w ∷ ws) = (if is_empty w.line then label w.target else w.line) ∷ card_lines ws

abbrev pub is_filled : List Target → Bool
is_filled [] = false
is_filled (_ ∷ _) = true

abbrev pub stored : ℕ → Option (List Target) → State → State
stored id entry s = record s { registry = λ (j : ℕ). if j == id then entry else s.registry j }

abbrev pub popped : Option (List Target) → List Target
popped none = []
popped (some entries) = entries

abbrev pub is_firing : List Alert → Bool
is_firing [] = false
is_firing (a ∷ rest) = list_beq a.status (codes "firing") || is_firing rest

-- `recommendation.get(key, default)`, and the default where there is no recommendation.
abbrev pub value_or : List ℕ → Option (List ℕ) → List ℕ
value_or default none = default
value_or default (some value) = value

abbrev pub final_values : Option Body → List ℕ × List ℕ
final_values none = (codes "298m", codes "100Mi")
final_values (some r) =
    (value_or (codes "298m") r.final_cpu, value_or (codes "100Mi") r.final_memory)

-- What a button's data asks for.
pub data Request : Type 0 where
  roll_back approve_cards reject_cards unknown : Request
  roll_back_to : List ℕ → Request
  approve_one reject_one : Target → Request

abbrev pub starts_with : List ℕ → List ℕ → Bool
starts_with prefix text = elim (behind prefix text) [ none ↦ false | some _ ↦ true ]

-- `callback_data == prefix or callback_data.startswith(prefix + ":")`
abbrev pub is_command : List ℕ → List ℕ → Bool
is_command prefix text = list_beq text prefix || starts_with (prefix ++ codes ":") text

-- `callback_data[len(prefix):]`, of a text that has the prefix.
abbrev pub arguments : List ℕ → List ℕ → List ℕ
arguments prefix text = elim (behind prefix text) [ none ↦ [] | some rest ↦ rest ]

-- The tests of the handler, in its order.
unfoldable pub request_of : List ℕ → Request
unfolding behind target_of without
request_of text =
    if list_beq text (codes "rollback_head")
    then roll_back
    else if starts_with (codes "rollback_custom_") text
    then roll_back_to (without (length text) (codes "rollback_custom_") text)
    else if is_command (codes "infra_approve") text
    then approve_one (target_of (arguments (codes "infra_approve") text))
    else if is_command (codes "infra_reject") text
    then reject_one (target_of (arguments (codes "infra_reject") text))
    else if list_beq text (codes "infra_approve_all")
    then approve_cards
    else if list_beq text (codes "infra_reject_all")
    then reject_cards
    else unknown

module _ (reply : List Call → Call → Reply) (settings : Settings) where
  unfoldable pub alertmanager_webhook : List Alert → State → State
  unfolding send_telegram_message
  alertmanager_webhook [] s = s
  alertmanager_webhook (a ∷ rest) s =
      let firing = is_firing (a ∷ rest) in
      let markup =
        if firing then some (callback (codes "rollback_head") ∷ dashboard ∷ []) else none in
      (send_telegram_message reply settings (alert_report (a ∷ rest) firing) markup s).1

  unfoldable pub handle_finops_report : Target → List ℕ → List ℕ → State → State
  unfolding send_telegram_message button_data
  handle_finops_report t telegram_message overall_status s =
      let buttons =
        callback (button_data (codes "infra_approve") t)
        ∷ callback (button_data (codes "infra_reject") t)
        ∷ [] in
      let markup = if is_pass overall_status then some buttons else none in
      let letter =
        if is_empty telegram_message
        then finops_note t.namespace t.deployment_name
        else finops_report telegram_message in
      (send_telegram_message reply settings letter markup s).1

  abbrev pub registered : Option ℕ → List Target → State → State
  registered none entries s = s
  registered (some id) entries s = if is_filled entries then stored id (some entries) s else s

  unfoldable pub handle_deploy_batch_approval : List Workload → State → State
  unfolding send_telegram_message approvable
  handle_deploy_batch_approval [] s = s
  handle_deploy_batch_approval (w ∷ ws) s =
      let entries = approvable (w ∷ ws) in
      let buttons =
        callback (codes "infra_approve_all") ∷ callback (codes "infra_reject_all") ∷ [] in
      let markup = if is_filled entries then some buttons else none in
      let letter = batch_card (length (w ∷ ws)) (length entries) (card_lines (w ∷ ws)) in
      let (id, s') = send_telegram_message reply settings letter markup s in
      registered id entries s'

  -- The rollback of a workflow, with the status shown before and after.
  unfoldable pub run_rollback : Callback → Notice → Workflow → Notice → Notice → State → State
  unfolding update_telegram_message trigger_github_workflow
  run_rollback c running workflow started failed s =
      let s1 = update_telegram_message reply settings c.chat c.message [] running s in
      let (ok, s2) =
        trigger_github_workflow reply settings workflow settings.rollback_workflow_repo_name
          settings.rollback_workflow_branch s1 in
      update_telegram_message reply settings c.chat c.message [] (if ok then started else failed) s2

  -- A target's latest values, applied: whether the workflow started, and the values.
  unfoldable pub apply_target : Target → List ℕ × List ℕ → State → Bool × State
  unfolding trigger_github_workflow
  apply_target t values s =
      trigger_github_workflow reply settings (finops_apply t values.0 values.1) []
        settings.gitops_target_branch s

  unfoldable pub approve : Callback → Target → State → State
  unfolding update_telegram_message fetch_finops_recommendation apply_target
  approve c t s =
      let update = update_telegram_message reply settings c.chat c.message c.text in
      let (recommendation, s2) =
        fetch_finops_recommendation reply settings t (update (preparing t) s) in
      let values = final_values recommendation in
      let (_, s3) = apply_target t values (update (applying t values.0 values.1) s2) in
      update (applied t values.0 values.1) s3

  -- The loop over the workloads of a batch.
  unfoldable pub apply_each : List Target → State → List Line × State
  unfolding fetch_finops_recommendation apply_target
  apply_each [] s = ([], s)
  apply_each (t ∷ ts) s =
      let (recommendation, s1) = fetch_finops_recommendation reply settings t s in
      let values = final_values recommendation in
      let (ok, s2) = apply_target t values s1 in
      let (lines, s3) = apply_each ts s2 in
      (record { started = ok; target = t; cpu = values.0; memory = values.1 } ∷ lines, s3)

  unfoldable pub approve_all : Callback → State → State
  unfolding update_telegram_message apply_each
  approve_all c s =
      let update = update_telegram_message reply settings c.chat c.message c.text in
      let entries = popped (s.registry c.message) in
      let s1 = stored c.message none s in
      let (lines, s2) = apply_each entries (update (batch_running (length entries)) s1) in
      if is_filled entries
      then update (batch_applied (length entries) lines) s2
      else update nothing_pending s1

  unfoldable pub reject_all : Callback → State → State
  unfolding update_telegram_message
  reject_all c s =
      let update = update_telegram_message reply settings c.chat c.message c.text in
      let entries = popped (s.registry c.message) in
      let s1 = stored c.message none s in
      update (if is_filled entries then batch_rejected (length entries) else nothing_pending) s1

  unfoldable pub handle_request : Callback → Request → State → State
  unfolding run_rollback approve approve_all reject_all update_telegram_message
  handle_request c roll_back s =
      run_rollback c rollback_running (rollback settings.gitops_target_branch) rollback_started
        rollback_failed s
  handle_request c (roll_back_to tag) s =
      run_rollback c (custom_running tag) (rollback_custom tag settings.gitops_target_branch)
        (custom_started tag) (custom_failed tag) s
  handle_request c (approve_one t) s = approve c t s
  handle_request c (reject_one t) s =
      update_telegram_message reply settings c.chat c.message c.text (rejected t) s
  handle_request c approve_cards s = approve_all c s
  handle_request c reject_cards s = reject_all c s
  handle_request c unknown s = s

  unfoldable pub telegram_callback_webhook : Option Callback → State → State
  unfolding answer_telegram_callback request_of handle_request
  telegram_callback_webhook none s = s
  telegram_callback_webhook (some c) s =
      handle_request c (request_of c.callback_data) (answer_telegram_callback reply settings c.id s)
