-- ===== src/Alarm/Tests.antt =====
-- Presses of buttons, with services that always answer and with services that never do.
use practical_project.Base.{
  Any, ℕ, ◌≡◌, refl, inl, inr, true, List, [], ◌∷◌, ◌++◌, none, some, All, if◌then◌else◌, ◌==◌,
}
use practical_project.Base.Int.{pos}
use practical_project.Float.Literal.{codes}
use practical_project.Alarm.{Target, Call, Reply, replied, unreachable, State, Settings}
use practical_project.Alarm.Gateway.{
  Workload, Callback, request_of, approve_one, reject_one, stored, telegram_callback_webhook,
}
use practical_project.Alarm.Names.{button_data}
use practical_project.Alarm.Quiet.{applied_targets}
use practical_project.Alarm.Presses.{approve_cards_effect, card_handled_once}
use practical_project.Alarm.Offers.{Event, Offers, batch, press, run, start, run-AppliesOffered}
use practical_project.Alarm.Buttons.{IsPlain, request_of-button_data}

abbrev worker : Target
worker = record {
  namespace = codes "sample-fastapi";
  deployment_name = codes "sample-worker";
  container_name = codes "worker";
}

abbrev api : Target
api = record {
  namespace = codes "sample-fastapi";
  deployment_name = codes "sample-api";
  container_name = codes "api";
}

abbrev settings : Settings
settings = record {
  github_repo_name = codes "mak-argocd-deploy";
  target_branch = codes "main";
  rollback_workflow_repo_name = codes "practical-project";
  rollback_workflow_branch = codes "dev";
  gitops_target_branch = codes "main";
}

-- Every request is answered, and every message has the number 7.
abbrev prompt : List Call → Call → Reply
prompt calls c = replied 200 (
    some (record {
      ok = true;
      message_id = some 7;
      final_cpu = some (codes "250m");
      final_memory = none;
    }))

abbrev silent : List Call → Call → Reply
silent calls c = unreachable

-- A state with one card.
abbrev carded : State
carded = record {
  calls = [];
  registry = λ (id : ℕ). if id == 7 then some (worker ∷ api ∷ []) else none;
}

abbrev pressed : List ℕ → Callback
pressed command = record {
  id = codes "q1";
  callback_data = command;
  chat = pos 1;
  message = 7;
  text = codes "card";
}

approve_cards_effect_example :
    (applied_targets
        (telegram_callback_webhook silent settings
          (some (pressed (codes "infra_approve_all")))
          carded).calls
      ≡ [] ++ worker ∷ api ∷ [])
    × ((telegram_callback_webhook silent settings
          (some (pressed (codes "infra_approve_all")))
          carded).registry
        ≡ (stored 7 none carded).registry)
unfolding request_of
approve_cards_effect_example =
    approve_cards_effect silent settings (pressed (codes "infra_approve_all")) carded refl

card_handled_once_example :
    applied_targets
      (telegram_callback_webhook prompt settings (some (pressed (codes "infra_approve_all"))) (
        telegram_callback_webhook prompt settings
          (some (pressed (codes "infra_reject_all")))
          carded)).calls
    ≡ applied_targets
        (telegram_callback_webhook prompt settings
          (some (pressed (codes "infra_reject_all")))
          carded).calls
unfolding request_of
card_handled_once_example =
    card_handled_once prompt settings (pressed (codes "infra_reject_all"))
      (pressed (codes "infra_approve_all")) carded (inr refl) (inl refl) refl

-- A card with one workload that passed and one that did not, and then both kinds of approval.
abbrev mixed : List Workload
mixed =
    record { target = worker; overall_status = codes "PASS"; line = [] }
    ∷ record { target = api; overall_status = codes "FAIL"; line = [] }
    ∷ []

abbrev events : List Event
events =
    batch (
      record { target = worker; overall_status = codes "PASS"; line = [] }
      ∷ record { target = api; overall_status = codes "FAIL"; line = [] }
      ∷ [])
    ∷ press (pressed (codes "infra_approve_all"))
    ∷ press (pressed (codes "infra_approve:sample-fastapi:sample-worker:worker"))
    ∷ []

run-AppliesOffered_example :
    All
      (λ (t : Target). Any (Offers t) events)
      (applied_targets (run prompt settings events (start prompt settings)).calls)
run-AppliesOffered_example = run-AppliesOffered prompt settings events

abbrev shop : Target
shop = record {
  namespace = codes "prod";
  deployment_name = codes "api";
  container_name = codes "web";
}

shop-IsPlain : IsPlain shop
shop-IsPlain = record {
  namespace_filled = refl;
  deployment_filled = refl;
  container_filled = refl;
  namespace_free = (refl, (refl, (refl, (refl, tt))));
  deployment_free = (refl, (refl, (refl, tt)));
  container_free = (refl, (refl, (refl, tt)));
}

request_of-button_data_example :
    (request_of (button_data (codes "infra_approve") shop) ≡ approve_one shop)
    × (request_of (button_data (codes "infra_reject") shop) ≡ reject_one shop)
request_of-button_data_example = request_of-button_data shop shop-IsPlain
