-- ===== src/Billing/Replay.antt =====
-- Stripe delivers an event at least once: what the second delivery of an event does.
use text.Mathlib.TextEquality.{eq_iff}
use operational_inbox.Common.{
  ℕ, Bool, true, false, List, String, [], ◌∷◌, ◌++◌, any, ◌≡◌, ◌∙◌, ◌⊎◌, refl, sym, subst, arith,
  Bool-cases, Option-cases, inl, inr,
}
use operational_inbox.Settings.{Settings}
use operational_inbox.Accounts.{BillingProfile, User}
use operational_inbox.Setup.{Naming, Setup}
use operational_inbox.Billing.Subscriptions.{Subscription, Event, EventObject}
use operational_inbox.Billing.Events.{
  WebhookEvent, Ledger, Stripe, Processed, raised, processed, Delivery, nothing_new, interrupted,
  current, delivered_by, profile_by_user, profile_for_object, apply_subscription, dispatch,
  is_event, webhook_row, process_event,
}

abbrev pub events_of : Processed → List WebhookEvent → List WebhookEvent
events_of raised events = events
events_of (processed r b) events = b.events

pub apply-events :
    (st : Settings) (n : Naming) (now : ℕ) (p : BillingProfile) (s : Subscription) (created : ℕ)
    (b : Ledger)
    → events_of (apply_subscription st n now p s created b) b.events ≡ b.events
unfolding apply_subscription
apply-events st n now p s created b = ground arith

dispatch-events :
    (st : Settings) (n : Naming) (now created : ℕ) (p : BillingProfile) (b : Ledger) (d : Delivery)
    → events_of (dispatch st n now created p b d) b.events ≡ b.events
unfolding dispatch
dispatch-events st n now created p b nothing_new = refl
dispatch-events st n now created p b interrupted = refl
dispatch-events st n now created p b (current s) = apply-events st n now p s created b

profile-events : (obj : EventObject) (b : Ledger) → (profile_for_object obj b).0.events ≡ b.events
unfolding profile_for_object profile_by_user
profile-events obj b = ground arith

any-append :
    (test : WebhookEvent → Bool) (e : WebhookEvent) (events : List WebhookEvent)
    → test e ≡ true
    → any test (events ++ e ∷ []) ≡ true
any-append test e [] h = ground arith
any-append test e (x ∷ events) h = ground (arith, any-append test e events h)

processed-has :
    (st : Settings) (n : Naming) (now : ℕ) (stripe : Stripe) (e : Event) (r : Bool) (b b' : Ledger)
    → process_event st n now stripe e b ≡ processed r b'
    → any (is_event e.id) b'.events ≡ true
unfolding process_event
processed-has st n now stripe e r b b' done =
    let b1 = record b { events = b.events ++ webhook_row e ∷ [] } in
    let new = any-append (is_event e.id) (webhook_row e) b.events ((eq_iff e.id e.id).1 refl) in
    elim (Bool-cases (any (is_event e.id) b.events)) [
      | inl h ↦ ground arith
      | inr h ↦ elim (Option-cases (profile_for_object e.object b1).1) [
        | inl f ↦ ground (arith, profile-events e.object b1)
        | inr (p, f) ↦ ground (
          arith,
          profile-events e.object b1,
          dispatch-events st n now e.created p (profile_for_object e.object b1).0
              (delivered_by stripe e),
        )
      ]
    ]

any-kept :
    (test : WebhookEvent → Bool) (e : WebhookEvent) (events : List WebhookEvent)
    → any test events ≡ true
    → any test (events ++ e ∷ []) ≡ true
any-kept test e [] h = ground arith
any-kept test e (x ∷ events) h = ground (arith, any-kept test e events)

events_cases :
    (x : Processed) (old other : List WebhookEvent)
    → (events_of x old ≡ old) ⊎ (events_of x old ≡ events_of x other)
events_cases raised old other = inl refl
events_cases (processed r b) old other = inr refl

dispatched :
    (st : Settings) (n : Naming) (k : String) (now created : ℕ) (p : BillingProfile) (b : Ledger)
    (d : Delivery) (old : List WebhookEvent)
    → any (is_event k) old ≡ true
    → any (is_event k) b.events ≡ true
    → any (is_event k) (events_of (dispatch st n now created p b d) old) ≡ true
dispatched st n k now created p b d old h h' =
    elim (events_cases (dispatch st n now created p b d) old b.events) [
      | inl e ↦ subst (λ es. any (is_event k) es ≡ true) (sym e) h
      | inr e ↦
          subst (λ es. any (is_event k) es ≡ true)
            (sym (e ∙ dispatch-events st n now created p b d)) h'
    ]

still_has :
    (st : Settings) (n : Naming) (k : String) (now : ℕ) (stripe : Stripe) (e : Event) (b : Ledger)
    → any (is_event k) b.events ≡ true
    → any (is_event k) (events_of (process_event st n now stripe e b) b.events) ≡ true
unfolding process_event
still_has st n k now stripe e b h =
    let b1 = record b { events = b.events ++ webhook_row e ∷ [] } in
    let kept = any-kept (is_event k) (webhook_row e) b.events h in
    elim (Bool-cases (any (is_event e.id) b.events)) [
      | inl old ↦ ground arith
      | inr new ↦ elim (Option-cases (profile_for_object e.object b1).1) [
        | inl f ↦ ground (arith, profile-events e.object b1)
        | inr (p, f) ↦
            let (b2, found) = profile_for_object e.object b1 in
            let before =
              subst (λ es. any (is_event k) es ≡ true) (sym (profile-events e.object b1)) kept in
            ground
              (arith, before, dispatched st n k now e.created p b2 (delivered_by stripe e) b.events)
      ]
    ]

-- What happens to the tables between two deliveries: another event is delivered, or something else
-- writes users, profiles or domains.
pub data Turn : Type 0 where
  delivery : (now : ℕ) → Stripe → Event → Turn
  elsewhere : List User → Setup → Turn

-- A delivery that raises leaves the tables as they were.
abbrev pub after : Processed → Ledger → Ledger
after raised b = b
after (processed r b') b = b'

unfoldable pub turns : Settings → Naming → List Turn → Ledger → Ledger
turns st n [] b = b
turns st n (delivery now stripe e ∷ ts) b =
    turns st n ts (after (process_event st n now stripe e b) b)
turns st n (elsewhere users setup ∷ ts) b =
    turns st n ts (record b { users = users; setup = setup })

after-events : (x : Processed) (b : Ledger) → (after x b).events ≡ events_of x b.events
after-events raised b = refl
after-events (processed r b') b = refl

turns-has :
    (st : Settings) (n : Naming) (k : String) (ts : List Turn) (b : Ledger)
    → any (is_event k) b.events ≡ true
    → any (is_event k) (turns st n ts b).events ≡ true
unfolding turns
turns-has st n k [] b h = h
turns-has st n k (delivery now stripe e ∷ ts) b h =
    turns-has st n k ts (after (process_event st n now stripe e b) b) (
      subst (λ es. any (is_event k) es ≡ true)
        (sym (after-events (process_event st n now stripe e b) b))
        (still_has st n k now stripe e b h))
turns-has st n k (elsewhere users setup ∷ ts) b h =
    turns-has st n k ts (record b { users = users; setup = setup }) h

-- Once an event is processed, every later delivery of an event with its ID changes nothing, however
-- many other events are delivered and whatever users, profiles and domains become in between, at any
-- time, whatever Stripe answers then and whatever else the delivery says.
pub replay_ignored :
    (st : Settings) (n : Naming) (now now' : ℕ) (stripe stripe' : Stripe) (e e' : Event) (r : Bool)
    (b b' : Ledger) (ts : List Turn)
    → process_event st n now stripe e b ≡ processed r b'
    → e'.id ≡ e.id
    → process_event st n now' stripe' e' (turns st n ts b') ≡ processed false (turns st n ts b')
unfolding process_event
replay_ignored st n now now' stripe stripe' e e' r b b' ts done same =
    let known =
      subst (λ k. any (is_event k) (turns st n ts b').events ≡ true) (sym same)
        (turns-has st n e.id ts b' (processed-has st n now stripe e r b b' done)) in
    ground arith
