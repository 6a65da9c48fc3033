-- ===== src/Alarm/Offers.antt =====
-- The events that reach alarm/main.py, and the workloads that they offer for approval.
use practical_project.Base.{
  ℕ, ◌≡◌, refl, true, false, arith, Any, All-map, sym, subst, inl, inr, List, [], ◌∷◌, ◌++◌, Option,
  none, some, ◌==◌, All, All-append, All-split, Bool-cases,
}
use practical_project.Alarm.{Target, Alert, Call, Reply, State, Settings, rejected}
use practical_project.Alarm.Gateway.{
  Workload, Callback, is_named, approvable, stored, popped, registered, Request, roll_back,
  roll_back_to, approve_one, reject_one, approve_cards, reject_cards, unknown, request_of,
  handle_request, telegram_callback_webhook, alertmanager_webhook, handle_finops_report,
  handle_deploy_batch_approval,
}
use practical_project.Float.Literal.{is_empty}
use practical_project.Alarm.Cards.{HasPassed, approvable-HasPassed}
use practical_project.Alarm.Quiet.{applied_targets, Applies, callback-Applies, send-Applies}
use practical_project.Alarm.Approval.{
  approve-Applies, approve_all-Applies, reject_all-Applies, run_rollback-Applies, edited-Applies,
}

-- What arrives at the gateway.
pub data Event : Type 0 where
  alerts : List Alert → Event
  report : Target → List ℕ → List ℕ → Event
  batch : List Workload → Event
  press : Callback → Event

-- The workloads that an event offers: those of a batch that passed, or the one that a single
-- approval names.
abbrev pub requested : Request → List Target
requested (approve_one t) = t ∷ []
requested _ = []

abbrev pub offered : Event → List Target
offered (batch workloads) = approvable workloads
offered (press c) = requested (request_of c.callback_data)
offered _ = []

-- What it means that an event offers a workload: a batch has it with the status PASS, and its three
-- names are not empty; or the button of its own approval is pressed.
abbrev pub HasFullName : Target → Type 0
HasFullName t =
    (is_empty t.namespace ≡ false)
    × (is_empty t.deployment_name ≡ false)
    × (is_empty t.container_name ≡ false)

abbrev pub Offers : Target → Event → Type 0
Offers t (batch workloads) = HasFullName t × HasPassed t workloads
Offers t (press c) = request_of c.callback_data ≡ approve_one t
Offers t _ = ⊥

full_name : (t : Target) → is_named t ≡ true → HasFullName t
full_name t h = (ground (arith, h), ground (arith, h), ground (arith, h))

requested_ok : (r : Request) → All (λ (t : Target). r ≡ approve_one t) (requested r)
requested_ok roll_back = tt
requested_ok (roll_back_to tag) = tt
requested_ok (approve_one t) = (refl, tt)
requested_ok (reject_one t) = tt
requested_ok approve_cards = tt
requested_ok reject_cards = tt
requested_ok unknown = tt

offered_ok : (e : Event) → All (λ (t : Target). Offers t e) (offered e)
offered_ok (alerts list) = tt
offered_ok (report t text status) = tt
offered_ok (batch workloads) =
    All-map
      (λ (t : Target) (p : (is_named t ≡ true) × HasPassed t workloads). (full_name t p.0, p.1))
      (approvable workloads) (approvable-HasPassed workloads)
offered_ok (press c) = requested_ok (request_of c.callback_data)

abbrev pub all_offered : List Event → List Target
all_offered [] = []
all_offered (e ∷ es) = offered e ++ all_offered es

all_offered_ok : (es : List Event) → All (λ (t : Target). Any (Offers t) es) (all_offered es)
all_offered_ok [] = tt
all_offered_ok (e ∷ es) =
    All-append (λ (t : Target). Any (Offers t) (e ∷ es)) (offered e) (all_offered es)
      (All-map (λ (t : Target) (p : Offers t e). inl p) (offered e) (offered_ok e))
      (All-map (λ (t : Target) (p : Any (Offers t) es). inr p) (all_offered es) (all_offered_ok es))

module _ (reply : List Call → Call → Reply) (settings : Settings) where
  abbrev pub handle : Event → State → State
  handle (alerts list) s = alertmanager_webhook reply settings list s
  handle (report t text status) s = handle_finops_report reply settings t text status s
  handle (batch workloads) s = handle_deploy_batch_approval reply settings workloads s
  handle (press c) s = telegram_callback_webhook reply settings (some c) s

  abbrev pub run : List Event → State → State
  run [] s = s
  run (e ∷ es) s = run es (handle e s)

  module _ {ℓ} (P : Target → Type ℓ) where
    record IsOffered (s : State) : Type ℓ where
      applied_ok : All P (applied_targets s.calls)
      cards_ok : (id : ℕ) → All P (popped (s.registry id))

    Applies-IsOffered :
        (ts : List Target) (s s' : State) → Applies ts s s' → All P ts → IsOffered s → IsOffered s'
    Applies-IsOffered ts s s' a ok o = record {
      applied_ok =
          subst (All P) (sym a.calls_lem)
            (All-append P (applied_targets s.calls) ts o.applied_ok ok);
      cards_ok = λ id.
          subst (λ (r : ℕ → Option (List Target)). All P (popped (r id))) (sym a.registry_lem)
            (o.cards_ok id);
    }

    stored-All :
        (id j : ℕ) (entry : Option (List Target)) (s : State)
        → All P (popped entry)
        → IsOffered s
        → All P (popped ((stored id entry s).registry j))
    stored-All id j entry s ok o = elim (Bool-cases (j == id)) [
      | inl here ↦ rw here ok
      | inr there ↦ rw there (o.cards_ok j)
    ]

    stored-IsOffered :
        (id : ℕ) (entry : Option (List Target)) (s : State)
        → All P (popped entry)
        → IsOffered s
        → IsOffered (stored id entry s)
    stored-IsOffered id entry s ok o = record {
      applied_ok = o.applied_ok;
      cards_ok = λ j. stored-All id j entry s ok o;
    }

    registered_ok :
        (id : Option ℕ) (entries : List Target) (s : State)
        → All P entries
        → IsOffered s
        → IsOffered (registered reply settings id entries s)
    registered_ok none entries s ok o = o
    registered_ok (some id) [] s ok o = o
    registered_ok (some id) (t ∷ ts) s ok o = stored-IsOffered id (some (t ∷ ts)) s ok o

    quiet : (s s' : State) → Applies [] s s' → IsOffered s → IsOffered s'
    quiet s s' a o = Applies-IsOffered [] s s' a tt o

    request_ok :
        (c : Callback) (r : Request) (s : State)
        → All P (requested r)
        → IsOffered s
        → IsOffered (handle_request reply settings c r s)
    unfolding handle_request
    request_ok c roll_back s ok o =
        quiet s _ (run_rollback-Applies reply settings c _ _ _ _ s refl) o
    request_ok c (roll_back_to tag) s ok o =
        quiet s _ (run_rollback-Applies reply settings c _ _ _ _ s refl) o
    request_ok c (approve_one t) s ok o =
        Applies-IsOffered (t ∷ []) s _ (approve-Applies reply settings c t s) ok o
    request_ok c (reject_one t) s ok o =
        quiet s _ (edited-Applies reply settings c (rejected t) s) o
    request_ok c approve_cards s ok o =
        Applies-IsOffered (popped (s.registry c.message)) (stored c.message none s) _
          (approve_all-Applies reply settings c s) (o.cards_ok c.message)
          (stored-IsOffered c.message none s tt o)
    request_ok c reject_cards s ok o =
        quiet (stored c.message none s) _ (reject_all-Applies reply settings c s)
          (stored-IsOffered c.message none s tt o)
    request_ok c unknown s ok o = o

    handle_ok : (e : Event) (s : State) → All P (offered e) → IsOffered s → IsOffered (handle e s)
    unfolding alertmanager_webhook handle_finops_report handle_deploy_batch_approval
        telegram_callback_webhook approvable
    handle_ok (alerts []) s ok o = o
    handle_ok (alerts (a ∷ rest)) s ok o = quiet s _ (send-Applies reply settings _ _ s) o
    handle_ok (report t text status) s ok o = quiet s _ (send-Applies reply settings _ _ s) o
    handle_ok (batch []) s ok o = o
    handle_ok (batch (w ∷ ws)) s ok o =
        registered_ok _ (approvable (w ∷ ws)) _ ok (quiet s _ (send-Applies reply settings _ _ s) o)
    handle_ok (press c) s ok o =
        request_ok c (request_of c.callback_data) _ ok
          (quiet s _ (callback-Applies reply settings c.id s) o)

    run_ok :
        (es : List Event) (s : State) → All P (all_offered es) → IsOffered s → IsOffered (run es s)
    run_ok [] s ok o = o
    run_ok (e ∷ es) s ok o =
        let (now, later) = All-split P (offered e) (all_offered es) ok in
        run_ok es (handle e s) later (handle_ok e s now o)

  abbrev pub start : State
  start = record { calls = []; registry = λ (id : ℕ). none }

  -- From the start, whatever arrives in whatever order and however the other services answer: values
  -- are applied only to a workload that one of the events offers, a batch that has it with the status
  -- PASS and a full name, or the button of its own approval.
  pub run-AppliesOffered :
      (es : List Event)
      → All (λ (t : Target). Any (Offers t) es) (applied_targets (run es start).calls)
  run-AppliesOffered es =
      (run_ok (λ (t : Target). Any (Offers t) es) es start (all_offered_ok es)
        (record { applied_ok = tt; cards_ok = λ id. tt })).applied_ok
