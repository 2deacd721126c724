-- ===== src/Accounts/Profiles.antt =====
-- `class User` and `class BillingProfile` of inbox/models.py, with the fields that the services
-- read and write.
use operational_inbox.Common.{ℕ, Bool, true, false, Option, none, String, ◌&&◌}
use text.Mathlib.Text.{◌==◌ as str_eq}

pub record User : Type 0 where
  pub id : ℕ
  pub is_authenticated : Bool
  pub is_active : Bool

pub data SubscriptionStatus : Type 0 where
  nothing incomplete incomplete_expired trialing active past_due canceled unpaid paused :
      SubscriptionStatus

pub record BillingProfile : Type 0 where
  pub user_id : ℕ
  pub stripe_customer_id : Option String
  pub stripe_subscription_id : Option String
  pub stripe_price_id : String
  pub subscription_plan : String
  pub subscription_status : SubscriptionStatus
  pub current_period_end : Option ℕ
  pub cancel_at_period_end : Bool
  pub last_stripe_event_created : ℕ
  pub free_primary_domain_id : Option ℕ
  pub domain_grace_ends_at : Option ℕ

-- The statuses under which a subscription is paid for.
abbrev pub is_active_status : SubscriptionStatus → Bool
is_active_status SubscriptionStatus.active = true
is_active_status SubscriptionStatus.trialing = true
is_active_status SubscriptionStatus.past_due = true
is_active_status _ = false

-- The property `is_pro`.
abbrev pub is_pro : BillingProfile → Bool
is_pro p = is_active_status p.subscription_status && str_eq p.subscription_plan "pro"

-- The row that `get_or_create(user=user)` adds: the model's defaults.
abbrev pub new_profile : ℕ → BillingProfile
new_profile user = record {
  user_id = user;
  stripe_customer_id = none;
  stripe_subscription_id = none;
  stripe_price_id = "";
  subscription_plan = "";
  subscription_status = SubscriptionStatus.nothing;
  current_period_end = none;
  cancel_at_period_end = false;
  last_stripe_event_created = 0;
  free_primary_domain_id = none;
  domain_grace_ends_at = none;
}
