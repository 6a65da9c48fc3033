-- ===== src/Alarm/Presses.antt =====
-- Presses of the buttons of an approval card of alarm/main.py.
use practical_project.Base.{
  ℕ, ◌≡◌, refl, subst, ◌∙◌, ap, ◌⊎◌, inl, inr, List, [], ◌++◌, Option, none, some, arith,
  if◌then◌else◌, ◌==◌,
}
use practical_project.Alarm.{Target, Call, Reply, State, Settings}
use practical_project.Alarm.Http.{answer_telegram_callback}
use practical_project.Alarm.Gateway.{
  Callback, stored, popped, approve_all, approve_cards, reject_cards, request_of, handle_request,
  telegram_callback_webhook,
}
use practical_project.Alarm.Quiet.{applied_targets, Applies, callback-Applies}
use practical_project.Alarm.Approval.{approve_all-Applies, reject_all-Applies}
use mathlib.Core.List.{append-nil}

abbrev IsCardPress : Callback → Type 0
IsCardPress c =
    (request_of c.callback_data ≡ approve_cards) ⊎ (request_of c.callback_data ≡ reject_cards)

-- From a state whose card is taken off the registry, so many workloads are applied.
record Takes (message : ℕ) (targets : List Target) (s s' : State) : Type 0 where
  targets_lem : applied_targets s'.calls ≡ applied_targets s.calls ++ targets
  taken_lem : s'.registry ≡ (stored message none s).registry

stored_after :
    (message : ℕ) (s s' : State)
    → s'.registry ≡ s.registry
    → (stored message none s').registry ≡ (stored message none s).registry
stored_after message s s' h =
    ap (λ (r : ℕ → Option (List Target)). λ (j : ℕ). if j == message then none else r j) h

taken_off : (i j : ℕ) (s : State) → i ≡ j → (stored j none s).registry i ≡ none
taken_off i j s h = ground arith

module _ (reply : List Call → Call → Reply) (settings : Settings) where
  abbrev press : Callback → State → State
  press c s = telegram_callback_webhook reply settings (some c) s

  after_answer :
      (message : ℕ) (ts : List Target) (s s1 s' : State)
      → Applies [] s s1
      → Applies ts (stored message none s1) s'
      → Takes message ts s s'
  after_answer message ts s s1 s' a b = record {
    targets_lem =
        b.calls_lem
        ∙ ap (λ (l : List Target). l ++ ts) (a.calls_lem ∙ append-nil (applied_targets s.calls));
    taken_lem = b.registry_lem ∙ stored_after message s s1 a.registry_lem;
  }

  approve-Takes :
      (c : Callback) (s : State)
      → request_of c.callback_data ≡ approve_cards
      → Takes c.message (popped (s.registry c.message)) s (press c s)
  unfolding telegram_callback_webhook handle_request
  approve-Takes c s h =
      let s1 = answer_telegram_callback reply settings c.id s in
      let a = callback-Applies reply settings c.id s in
      rw (telegram_callback_webhook, h, handle_request)
        (subst (λ (l : List Target). Takes c.message l s (approve_all reply settings c s1))
          (ap (λ (r : ℕ → Option (List Target)). popped (r c.message)) a.registry_lem)
          (after_answer c.message _ s s1 _ a (approve_all-Applies reply settings c s1)))

  reject-Takes :
      (c : Callback) (s : State)
      → request_of c.callback_data ≡ reject_cards
      → Takes c.message [] s (press c s)
  unfolding telegram_callback_webhook handle_request
  reject-Takes c s h =
      let s1 = answer_telegram_callback reply settings c.id s in
      rw (telegram_callback_webhook, h, handle_request)
        (after_answer c.message [] s s1 _ (callback-Applies reply settings c.id s)
          (reject_all-Applies reply settings c s1))

  -- When the approval button of a card is pressed, exactly the workloads that are registered for the
  -- card are applied, each once and in order, whatever the other services answer, and the card is
  -- taken off the registry, which is left alone otherwise.
  pub approve_cards_effect :
      (c : Callback) (s : State)
      → request_of c.callback_data ≡ approve_cards
      → (applied_targets (press c s).calls
          ≡ applied_targets s.calls ++ popped (s.registry c.message))
        × ((press c s).registry ≡ (stored c.message none s).registry)
  approve_cards_effect c s h = let t = approve-Takes c s h in (t.targets_lem, t.taken_lem)

  card-Takes :
      (c : Callback) (s : State)
      → IsCardPress c
      → (ts : List Target) × Takes c.message ts s (press c s)
        × ((ts ≡ popped (s.registry c.message)) ⊎ (ts ≡ []))
  card-Takes c s (inl h) = (popped (s.registry c.message), approve-Takes c s h, inl refl)
  card-Takes c s (inr h) = ([], reject-Takes c s h, inr refl)

  -- A card is handled once: after a press of either of its buttons, a further press of either, by
  -- anyone, applies nothing.
  pub card_handled_once :
      (first second : Callback) (s : State)
      → IsCardPress first
      → IsCardPress second
      → second.message ≡ first.message
      → applied_targets (press second (press first s)).calls ≡ applied_targets (press first s).calls
  card_handled_once first second s f g same =
      let s1 = press first s in
      let (ts, taken, _) = card-Takes first s f in
      let (us, again, which) = card-Takes second s1 g in
      let free : s1.registry second.message ≡ none =
        ap (λ (r : ℕ → Option (List Target)). r second.message) taken.taken_lem
        ∙ taken_off _ _ s same in
      let nothing : us ≡ [] = elim which [
        | inl all ↦ all ∙ ap popped free
        | inr none_left ↦ none_left
      ] in
      again.targets_lem
      ∙ ap (λ (l : List Target). applied_targets s1.calls ++ l) nothing
      ∙ append-nil (applied_targets s1.calls)

  -- When the rejection button of a card is pressed, nothing is applied and the card is taken off the
  -- registry, which is left alone otherwise.
  pub reject_cards_effect :
      (c : Callback) (s : State)
      → request_of c.callback_data ≡ reject_cards
      → (applied_targets (press c s).calls ≡ applied_targets s.calls)
        × ((press c s).registry ≡ (stored c.message none s).registry)
  reject_cards_effect c s h =
      let t = reject-Takes c s h in
      (t.targets_lem ∙ append-nil (applied_targets s.calls), t.taken_lem)
