-- ===== src/Billing/Events.antt =====
-- `_profile_for_object`, `_apply_subscription` and `process_event` of inbox/services/billing.py.
-- Stripe's answers are arguments: each call of the API may see another state of the subscription.
use Prim.Native.Char.{code}
use text.Mathlib.Text.{◌==◌ as str_eq}
use operational_inbox.Common.{
  ℕ, Bool, true, false, Option, none, some, String, List, [], ◌∷◌, ◌++◌, ◌==◌, ◌&&◌, ◌||◌, not, ltb,
  any, find, update_where, if◌then◌else◌,
}
use operational_inbox.Settings.{Settings}
use operational_inbox.Accounts.{User, BillingProfile, is_pro}
use operational_inbox.Setup.{Setup, Naming}
use operational_inbox.Capacity.{ensure_profile, reconcile}
use operational_inbox.Billing.Subscriptions.{Subscription, Event, EventObject, write_subscription}

-- `class StripeWebhookEvent`
pub record WebhookEvent : Type 0 where
  pub stripe_event_id : String
  pub event_type : String
  pub stripe_created : ℕ

pub record Ledger : Type 0 where
  pub events : List WebhookEvent
  pub users : List User
  pub setup : Setup

-- `Subscription.retrieve`: an `InvalidRequestError` is told apart from the other exceptions.
pub data Retrieved : Type 0 where
  retrieved : Subscription → Retrieved
  invalid_request unreachable : Retrieved

-- The API during one event: whether a secret key is set, and its answers.
pub record Stripe : Type 0 where
  pub is_configured : Bool
  pub retrieve : String → Retrieved

-- An exception rolls the transaction back.
pub data Processed : Type 0 where
  raised : Processed
  processed : Bool → Ledger → Processed

abbrev pub starts_with : String → String → Bool
starts_with String.[] s = true
starts_with (String.◌∷◌ c p) String.[] = false
starts_with (String.◌∷◌ c p) (String.◌∷◌ d s) = code c == code d && starts_with p s

abbrev pub has_text : Option String → String → Bool
has_text none s = false
has_text (some t) s = str_eq t s

abbrev pub is_customer : String → BillingProfile → Bool
is_customer c p = has_text p.stripe_customer_id c

abbrev pub is_profile_of : ℕ → BillingProfile → Bool
is_profile_of user p = p.user_id == user

-- The customer is stored once.
unfoldable pub adopt_customer : Option String → BillingProfile → BillingProfile
adopt_customer none p = p
adopt_customer (some c) p = elim p.stripe_customer_id [
  | none ↦ record p { stripe_customer_id = some c }
  | some k ↦ if str_eq k "" then record p { stripe_customer_id = some c } else p
]

abbrev pub change_profile : ℕ → (BillingProfile → BillingProfile) → Setup → Setup
change_profile user change db = record db {
  profiles = update_where (is_profile_of user) change db.profiles;
}

-- The profile by the account that the object names.
unfoldable pub profile_by_user : EventObject → Ledger → Ledger × Option BillingProfile
profile_by_user obj b = elim obj.user_id [
  | none ↦ (b, none)
  | some user ↦
      if any (λ (u : User). u.id == user) b.users
      then (let (profiles, p) = ensure_profile user b.setup.profiles in
          let named = record b.setup { profiles = profiles } in
          (
            record b { setup = change_profile user (adopt_customer obj.customer) named },
            some (adopt_customer obj.customer p),
          ))
      else (b, none)
]

-- `_profile_for_object`
unfoldable pub profile_for_object : EventObject → Ledger → Ledger × Option BillingProfile
profile_for_object obj b = elim obj.customer [
  | none ↦ profile_by_user obj b
  | some c ↦ elim (find (is_customer c) b.setup.profiles) [
    | some p ↦ (b, some p)
    | none ↦ profile_by_user obj b
  ]
]

-- A subscription belongs to one profile, by the column's constraint.
abbrev pub has_other_owner : Subscription → BillingProfile → List BillingProfile → Bool
has_other_owner s p =
    any (λ q. not (q.user_id == p.user_id) && has_text q.stripe_subscription_id s.id)

-- `_apply_subscription`
unfoldable pub apply_subscription :
    Settings
    → Naming
    → (now : ℕ) → BillingProfile
    → Subscription
    → (created : ℕ) → Ledger
    → Processed
apply_subscription st n now p s created b =
    if ltb created p.last_stripe_event_created
    then processed true b
    else if has_other_owner s p b.setup.profiles
    then raised
    else (let written = write_subscription s created p in
        let saved = change_profile p.user_id (write_subscription s created) b.setup in
        let was = is_pro p in
        let now_pro = is_pro written in
        if (was && not now_pro || not was && now_pro) || not now_pro
        then processed true (record b { setup = (reconcile st n p.user_id now saved).0 })
        else processed true (record b { setup = saved }))

-- What an event says of the subscription: nothing, an exception, or its new state.
pub data Delivery : Type 0 where
  nothing_new interrupted : Delivery
  current : Subscription → Delivery

-- `stripe.Subscription.retrieve`, with the state that stands in when Stripe knows none.
unfoldable pub fetch : Stripe → String → (otherwise : Delivery) → Delivery
fetch stripe id otherwise =
    if not stripe.is_configured then interrupted else elim (stripe.retrieve id) [
      | retrieved s ↦ current s
      | invalid_request ↦ otherwise
      | unreachable ↦ interrupted
    ]

-- The branches on the event's type.
unfoldable pub delivered_by : Stripe → Event → Delivery
delivered_by stripe e =
    if str_eq e.event_type "checkout.session.completed"
    then elim e.object.subscription [ none ↦ nothing_new | some id ↦ fetch stripe id interrupted ]
    else if not (starts_with "customer.subscription." e.event_type)
    then nothing_new
    else if str_eq e.event_type "customer.subscription.deleted"
    then current e.object.as_subscription
    else fetch stripe e.object.as_subscription.id (current e.object.as_subscription)

-- The rest of the handler, for the profile that the event is about.
unfoldable pub dispatch :
    Settings → Naming → (now created : ℕ) → BillingProfile → Ledger → Delivery → Processed
dispatch st n now created p b nothing_new = processed true b
dispatch st n now created p b interrupted = raised
dispatch st n now created p b (current s) = apply_subscription st n now p s created b

abbrev pub is_event : String → WebhookEvent → Bool
is_event id e = str_eq e.stripe_event_id id

abbrev pub webhook_row : Event → WebhookEvent
webhook_row e = record {
  stripe_event_id = e.id;
  event_type = e.event_type;
  stripe_created = e.created;
}

-- `process_event`
unfoldable pub process_event : Settings → Naming → (now : ℕ) → Stripe → Event → Ledger → Processed
process_event st n now stripe e b =
    if any (is_event e.id) b.events
    then processed false b
    else (let (b', found) =
          profile_for_object e.object (record b { events = b.events ++ webhook_row e ∷ [] }) in
        elim found [
          | none ↦ processed true b'
          | some p ↦ dispatch st n now e.created p b' (delivered_by stripe e)
        ])
