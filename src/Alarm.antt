-- ===== src/Alarm.antt =====
-- The Telegram gateway of alarm/main.py: its calls to other services, its registry of approval cards
-- and the names in its buttons. A text is the list of its code points; a message made for readers is
-- a constructor with the values that are put into it.
pub mod Names
pub mod Http
pub mod Gateway
pub mod Quiet
pub mod Approval
pub mod Presses
pub mod Offers
pub mod Cards
pub mod Buttons
mod Tests
use practical_project.Base.{ℕ, Bool, List, Option}
use practical_project.Base.Int.{ℤ}

pub record Target : Type 0 where
  pub namespace : List ℕ
  pub deployment_name : List ℕ
  pub container_name : List ℕ

-- A button of a message: with its `callback_data`, or a link to the dashboard.
pub data Button : Type 0 where
  callback : List ℕ → Button
  dashboard : Button

-- A workflow and its inputs.
pub data Workflow : Type 0 where
  rollback : List ℕ → Workflow
  rollback_custom : List ℕ → List ℕ → Workflow
  finops_apply : Target → List ℕ → List ℕ → Workflow

pub record Alert : Type 0 where
  pub alertname : List ℕ
  pub severity : List ℕ
  pub status : List ℕ
  pub summary : List ℕ

-- What `send_telegram_message` is given.
pub data Letter : Type 0 where
  workflow_refused : List ℕ → Workflow → ℕ → Letter
  workflow_unreachable : Letter
  alert_report : List Alert → Bool → Letter
  finops_report : List ℕ → Letter
  finops_note : List ℕ → List ℕ → Letter
  batch_card : ℕ → ℕ → List (List ℕ) → Letter

-- A line of the summary of a batch: whether its workflow started, and the values.
pub record Line : Type 0 where
  pub started : Bool
  pub target : Target
  pub cpu : List ℕ
  pub memory : List ℕ

-- The status that a message is edited to, below its original text.
pub data Notice : Type 0 where
  rollback_running rollback_started rollback_failed : Notice
  custom_running custom_started custom_failed : List ℕ → Notice
  preparing rejected : Target → Notice
  applying applied : Target → List ℕ → List ℕ → Notice
  nothing_pending : Notice
  batch_running batch_rejected : ℕ → Notice
  batch_applied : ℕ → List Line → Notice

-- A request to another service. `edit_message` has the chat, the message, the original text, the
-- status and whether the text is marked up.
pub data Call : Type 0 where
  send_message : Letter → Option (List Button) → Call
  edit_message : ℤ → ℕ → List ℕ → Notice → Bool → Call
  answer_callback : List ℕ → Call
  dispatch : List ℕ → List ℕ → Workflow → Call
  get_recommendation : Target → Call

-- The fields that the program reads of an answer.
pub record Body : Type 0 where
  pub ok : Bool
  pub message_id : Option ℕ
  pub final_cpu : Option (List ℕ)
  pub final_memory : Option (List ℕ)

-- The answer to a request: its status code and its body, `none` if that does not parse; or the
-- exception that the request ends in.
pub data Reply : Type 0 where
  replied : ℕ → Option Body → Reply
  unreachable : Reply

-- `_batch_approval_registry`, and the calls made so far.
pub record State : Type 0 where
  pub calls : List Call
  pub registry : ℕ → Option (List Target)

-- The constants read from the environment.
pub record Settings : Type 0 where
  pub github_repo_name : List ℕ
  pub target_branch : List ℕ
  pub rollback_workflow_repo_name : List ℕ
  pub rollback_workflow_branch : List ℕ
  pub gitops_target_branch : List ℕ
