-- ===== src/Billing/Subscriptions.antt =====
-- The objects that Stripe sends and what `_apply_subscription` reads of a subscription
-- (inbox/services/billing.py). Stripe's times are whole seconds since the epoch.
use text.Mathlib.Text.{◌==◌ as str_eq}
use operational_inbox.Common.{
  ℕ, Bool, Option, none, some, String, List, [], ◌∷◌, ltb, max, seconds, if◌then◌else◌,
}
use operational_inbox.Accounts.{BillingProfile, SubscriptionStatus}

-- A line of a subscription: `price` is `none` without a price.
pub record Item : Type 0 where
  pub current_period_end : Option ℕ
  pub price : Option String

-- `plan` is the metadata's `operational_inbox_plan`.
pub record Subscription : Type 0 where
  pub id : String
  pub status : Option String
  pub current_period_end : Option ℕ
  pub items : List Item
  pub plan : Option String
  pub cancel_at_period_end : Bool

-- The object of an event. A customer or a subscription that is missing or empty is `none`, and so is
-- the account that the metadata name or, without one, the client reference.
pub record EventObject : Type 0 where
  pub customer : Option String
  pub user_id : Option ℕ
  pub subscription : Option String
  pub as_subscription : Subscription

pub record Event : Type 0 where
  pub id : String
  pub event_type : String
  pub created : ℕ
  pub object : EventObject

-- The end of a period that is there and not zero.
abbrev pub nonzero : Option ℕ → Option ℕ
nonzero none = none
nonzero (some n) = if ltb 0 n then some n else none

-- `max` of the items' ends, if there are any.
unfoldable pub latest_end : List Item → Option ℕ
latest_end [] = none
latest_end (i ∷ items) = elim (nonzero i.current_period_end) [
  | none ↦ latest_end items
  | some n ↦ elim (latest_end items) [ none ↦ some n | some m ↦ some (max n m) ]
]

-- `_timestamp`
abbrev pub timestamp : Option ℕ → Option ℕ
timestamp none = none
timestamp (some n) = some (seconds n)

-- `_subscription_period_end`
unfoldable pub subscription_period_end : Subscription → Option ℕ
subscription_period_end s = elim (nonzero s.current_period_end) [
  | some n ↦ timestamp (some n)
  | none ↦ timestamp (latest_end s.items)
]

abbrev pub text_of : Option String → String
text_of none = ""
text_of (some s) = s

-- `_subscription_price_id`
unfoldable pub subscription_price_id : Subscription → String
subscription_price_id s = elim s.items [ [] ↦ "" | i ∷ rest ↦ text_of i.price ]

-- A status by its text; one that is not known counts as none.
unfoldable pub parse_status : Option String → SubscriptionStatus
parse_status none = SubscriptionStatus.nothing
parse_status (some s) =
    if str_eq s "incomplete"
    then SubscriptionStatus.incomplete
    else if str_eq s "incomplete_expired"
    then SubscriptionStatus.incomplete_expired
    else if str_eq s "trialing"
    then SubscriptionStatus.trialing
    else if str_eq s "active"
    then SubscriptionStatus.active
    else if str_eq s "past_due"
    then SubscriptionStatus.past_due
    else if str_eq s "canceled"
    then SubscriptionStatus.canceled
    else if str_eq s "unpaid"
    then SubscriptionStatus.unpaid
    else if str_eq s "paused"
    then SubscriptionStatus.paused
    else SubscriptionStatus.nothing

-- The columns that `_apply_subscription` writes.
unfoldable pub write_subscription : Subscription → (created : ℕ) → BillingProfile → BillingProfile
write_subscription s created p = record p {
  stripe_subscription_id = some s.id;
  stripe_price_id = subscription_price_id s;
  subscription_plan = text_of s.plan;
  subscription_status = parse_status s.status;
  current_period_end = subscription_period_end s;
  cancel_at_period_end = s.cancel_at_period_end;
  last_stripe_event_created = created;
}
