-- ===== src/Billing/Ordering.antt =====
-- Stripe does not promise the order of its events: what one event, and the order of two, changes.
use operational_inbox.Common.{
  ℕ, Bool, true, false, Option, some, String, List, [], ◌∷◌, ◌++◌, ◌&&◌, ◌||◌, not, ltb, any, find,
  if◌then◌else◌, ◌≡◌, ◌≢◌, ◌<◌, refl, sym, ◌∙◌, ap, subst, arith, Bool-cases, inl, inr,
}
use text.Mathlib.TextEquality.{eq_iff}
use operational_inbox.Settings.{Settings}
use operational_inbox.Accounts.{BillingProfile, is_pro}
use operational_inbox.Setup.{Setup, Naming}
use operational_inbox.Capacity.{reconcile}
use operational_inbox.Billing.Subscriptions.{Subscription, Event, write_subscription}
use operational_inbox.Billing.Events.{
  WebhookEvent, Ledger, Stripe, Processed, raised, processed, current, is_customer, change_profile,
  profile_for_object, has_other_owner, delivered_by, apply_subscription, dispatch, is_event,
  webhook_row, process_event,
}
use operational_inbox.Billing.Replay.{apply-events, events_of}
use operational_inbox.Billing.Standing.{
  Standing, standing_of, standing_from, newer, IsHeld, changed-IsHeld, IsKept, reconcile-IsHeld,
}

-- The customer's profile, with the newer of the two standings.
abbrev IsNewest : String → BillingProfile → Subscription → ℕ → Setup → Type 0
IsNewest c p s created db =
    (q : BillingProfile) × (standing_of q ≡ newer (standing_of p) (standing_from s created))
    × IsHeld c q db

written-IsHeld :
    (c : String) (p : BillingProfile) (s : Subscription) (created : ℕ) (db : Setup)
    → IsHeld c p db
    → IsHeld c
        (write_subscription s created p)
        (change_profile p.user_id (write_subscription s created) db)
unfolding write_subscription
written-IsHeld c p s created db =
    changed-IsHeld c (write_subscription s created) (λ _. refl) (λ _. refl) p db

reconciled :
    (st : Settings) (n : Naming) (c : String) (now : ℕ) (p : BillingProfile) (s : Subscription)
    (created : ℕ) (db : Setup)
    → IsHeld c (write_subscription s created p) db
    → IsKept c (write_subscription s created p) ((reconcile st n p.user_id now db).0, 0)
unfolding write_subscription
reconciled st n c now p s created db held =
    reconcile-IsHeld st n c now (write_subscription s created p) db held

written-IsNewest :
    (c : String) (p : BillingProfile) (s : Subscription) (created : ℕ) (db : Setup)
    → ltb created p.last_stripe_event_created ≡ false
    → IsKept c (write_subscription s created p) (db, 0)
    → IsNewest c p s created db
unfolding write_subscription
written-IsNewest c p s created db newest (q, (_, _, same), held) = (q, same ∙ ground arith, held)

-- What holds of the tables, unless an exception leaves them as they were.
abbrev Ends : (Setup → Type 0) → Processed → Type 0
Ends P raised = Unit
Ends P (processed r b) = P b.setup

either-Ends :
    (P : Setup → Type 0) (b : Bool) (x y : Processed)
    → (b ≡ true → Ends P x)
    → (b ≡ false → Ends P y)
    → Ends P (if b then x else y)
either-Ends P true x y hx hy = hx refl
either-Ends P false x y hx hy = hy refl

apply-IsNewest :
    (st : Settings) (n : Naming) (c : String) (now : ℕ) (p : BillingProfile) (s : Subscription)
    (created : ℕ) (b : Ledger)
    → IsHeld c p b.setup
    → Ends (IsNewest c p s created) (apply_subscription st n now p s created b)
unfolding apply_subscription
apply-IsNewest st n c now p s created b held =
    let written = write_subscription s created p in
    let saved = change_profile p.user_id (write_subscription s created) b.setup in
    let saved_held = written-IsHeld c p s created b.setup held in
    let P = IsNewest c p s created in
    either-Ends P (ltb created p.last_stripe_event_created) _ _ (λ stale. (p, ground arith, held))
      (λ fresh.
        either-Ends P (has_other_owner s p b.setup.profiles) _ _ (λ _. tt)
          (λ _.
            either-Ends P
              ((is_pro p && not (is_pro written) || not (is_pro p) && is_pro written)
                || not (is_pro written))
              _ _
              (λ _.
                written-IsNewest c p s created (reconcile st n p.user_id now saved).0 fresh
                  (reconciled st n c now p s created saved saved_held))
              (λ _.
                written-IsNewest c p s created saved fresh
                  (written, (refl, refl, refl), saved_held))))

found_profile :
    (c : String) (e : Event) (p : BillingProfile) (b : Ledger)
    → e.object.customer ≡ some c
    → find (is_customer c) b.setup.profiles ≡ some p
    → profile_for_object e.object b ≡ (b, some p)
unfolding profile_for_object
found_profile c e p b named found = ground arith

step :
    (st : Settings) (n : Naming) (c : String) (now : ℕ) (stripe : Stripe) (e : Event)
    (p : BillingProfile) (s : Subscription) (b : Ledger)
    → IsHeld c p b.setup
    → e.object.customer ≡ some c
    → any (is_event e.id) b.events ≡ false
    → delivered_by stripe e ≡ current s
    → process_event st n now stripe e b
      ≡ apply_subscription st n now p s e.created
          (record b { events = b.events ++ webhook_row e ∷ [] })
unfolding process_event dispatch
step st n c now stripe e p s b held named new said =
    let b1 = record b { events = b.events ++ webhook_row e ∷ [] } in
    let found = found_profile c e p b1 named held.0 in ground arith

-- A new event about a Stripe customer's subscription leaves the account with the newer of two
-- standings, the one that the profile had and the one that the event brings, the event's at a tie, and
-- the profile still belongs to the customer and the user, also when the change of plan starts, runs or
-- ends the grace period of the account's domains.
pub event_keeps_newest :
    (st : Settings) (n : Naming) (c : String) (now : ℕ) (stripe : Stripe) (e : Event)
    (p : BillingProfile) (s : Subscription) (r : Bool) (b b' : Ledger)
    → IsHeld c p b.setup
    → e.object.customer ≡ some c
    → any (is_event e.id) b.events ≡ false
    → delivered_by stripe e ≡ current s
    → process_event st n now stripe e b ≡ processed r b'
    → (q : BillingProfile) × (standing_of q ≡ newer (standing_of p) (standing_from s e.created))
      × IsHeld c q b'.setup
event_keeps_newest st n c now stripe e p s r b b' held named new said done =
    let b1 = record b { events = b.events ++ webhook_row e ∷ [] } in
    subst (Ends (IsNewest c p s e.created))
      (sym (step st n c now stripe e p s b held named new said) ∙ done)
      (apply-IsNewest st n c now p s e.created b1 held)

any-append :
    (k : String) (e : Event) (events : List WebhookEvent)
    → e.id ≢ k
    → any (is_event k) events ≡ false
    → any (is_event k) (events ++ webhook_row e ∷ []) ≡ false
any-append k e [] other h = elim (Bool-cases (is_event k (webhook_row e))) [
  | inl hit ↦ elim (other ((eq_iff e.id k).0 hit)) [ ]
  | inr miss ↦ ground arith
]
any-append k e (x ∷ events) other h = ground (arith, any-append k e events other)

-- What the second of two events finds.
still_new :
    (st : Settings) (n : Naming) (c : String) (now : ℕ) (stripe : Stripe) (e f : Event)
    (p : BillingProfile) (s : Subscription) (r : Bool) (b b' : Ledger)
    → IsHeld c p b.setup
    → e.object.customer ≡ some c
    → any (is_event e.id) b.events ≡ false
    → delivered_by stripe e ≡ current s
    → process_event st n now stripe e b ≡ processed r b'
    → e.id ≢ f.id
    → any (is_event f.id) b.events ≡ false
    → any (is_event f.id) b'.events ≡ false
still_new st n c now stripe e f p s r b b' held named new said done other fresh =
    let b1 = record b { events = b.events ++ webhook_row e ∷ [] } in
    let kept = apply-events st n now p s e.created b1 in
    let result = sym (step st n c now stripe e p s b held named new said) ∙ done in
    subst (λ events. any (is_event f.id) events ≡ false)
      (sym (sym (ap (λ x. events_of x b1.events) result) ∙ kept))
      (any-append f.id e b.events other fresh)

same_found :
    (o : Option BillingProfile) (a b : BillingProfile)
    → o ≡ some a
    → o ≡ some b
    → standing_of a ≡ standing_of b
same_found o a b x y = ground arith

newer_twice :
    (a x x' y : Standing)
    → x'.as_of ≡ x.as_of
    → x.as_of < y.as_of
    → newer (newer a x) y ≡ newer (newer a y) x'
newer_twice a x x' y same before = ground arith

-- Two new events of different times about the subscription of one Stripe customer, whose profile is
-- stored, leave the same standing in either order and whenever each is processed, if none of the
-- four deliveries raises and Stripe shows the same subscription for the later of the two events in
-- both orders. What Stripe shows for the earlier event may differ between the orders.
pub order_irrelevant :
    (st : Settings) (n : Naming) (c : String) (stripe1 stripe2 stripe3 stripe4 : Stripe)
    (now1 now2 now3 now4 : ℕ) (e f : Event) (p q q' : BillingProfile) (s s' t : Subscription)
    (r1 r2 r3 r4 : Bool) (b b1 b2 b3 b4 : Ledger)
    → IsHeld c p b.setup
    → (e.object.customer ≡ some c) × (f.object.customer ≡ some c)
    → (any (is_event e.id) b.events ≡ false) × (any (is_event f.id) b.events ≡ false)
    → (delivered_by stripe1 e ≡ current s) × (delivered_by stripe4 e ≡ current s')
    → (delivered_by stripe2 f ≡ current t) × (delivered_by stripe3 f ≡ current t)
    → e.id ≢ f.id
    → e.created < f.created
    → process_event st n now1 stripe1 e b ≡ processed r1 b1
    → process_event st n now2 stripe2 f b1 ≡ processed r2 b2
    → process_event st n now3 stripe3 f b ≡ processed r3 b3
    → process_event st n now4 stripe4 e b3 ≡ processed r4 b4
    → find (is_customer c) b2.setup.profiles ≡ some q
    → find (is_customer c) b4.setup.profiles ≡ some q'
    → standing_of q ≡ standing_of q'
order_irrelevant st n c stripe1 stripe2 stripe3 stripe4 now1 now2 now3 now4 e f p q q' s s' t r1 r2
      r3 r4 b b1 b2 b3 b4 held named new early late other before first second third fourth found
      found' =
    let (p1, s1, h1) =
      event_keeps_newest st n c now1 stripe1 e p s r1 b b1 held named.0 new.0 early.0 first in
    let (p2, s2, h2) =
      event_keeps_newest st n c now2 stripe2 f p1 t r2 b1 b2 h1 named.1
        (still_new st n c now1 stripe1 e f p s r1 b b1 held named.0 new.0 early.0 first other new.1)
        late.0 second in
    let (p3, s3, h3) =
      event_keeps_newest st n c now3 stripe3 f p t r3 b b3 held named.1 new.1 late.1 third in
    let (p4, s4, h4) =
      event_keeps_newest st n c now4 stripe4 e p3 s' r4 b3 b4 h3 named.0
        (still_new st n c now3 stripe3 f e p t r3 b b3 held named.1 new.1 late.1 third
          (λ w. other (sym w)) new.0)
        early.1 fourth in
    let swap =
      newer_twice (standing_of p) (standing_from s e.created) (standing_from s' e.created)
        (standing_from t f.created) refl before in
    same_found (find (is_customer c) b2.setup.profiles) q p2 found h2.0
    ∙ s2
    ∙ ap (λ x. newer x (standing_from t f.created)) s1
    ∙ swap
    ∙ sym (ap (λ x. newer x (standing_from s' e.created)) s3)
    ∙ sym s4
    ∙ same_found (find (is_customer c) b4.setup.profiles) p4 q' h4.0 found'
