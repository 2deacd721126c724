-- ===== src/Billing/Tests.antt =====
-- The theorems on Stripe's events at a concrete account.
use text.Mathlib.TextEquality.{eq_iff}
use operational_inbox.Common.{
  List, ℕ, String, true, false, none, some, [], ◌∷◌, ◌≡◌, ◌≢◌, refl, arith, find,
}
use operational_inbox.Settings.{default_settings}
use operational_inbox.Samples.{sample_user, sample_setup, sample_naming}
use operational_inbox.Accounts.{BillingProfile, new_profile}
use operational_inbox.Capacity.{
  reconcile, reconcile_profile, disable_after_grace, ensure_profile, ordered_domains,
  selected_primary,
}
use operational_inbox.Billing.Subscriptions.{
  Event, Subscription, write_subscription, parse_status, subscription_period_end,
  subscription_price_id,
}
use operational_inbox.Billing.Events.{
  Ledger, Stripe, unreachable, Processed, raised, processed, is_customer, process_event,
  profile_for_object, delivered_by, dispatch, apply_subscription,
}
use operational_inbox.Billing.Standing.{standing_of, standing_from, newer, IsHeld}
use operational_inbox.Billing.Replay.{Turn, delivery, elsewhere, turns, replay_ignored}
use operational_inbox.Billing.Ordering.{event_keeps_newest, order_irrelevant}

abbrev stripe : Stripe
stripe = record { is_configured = true; retrieve = λ id. unreachable }

abbrev subscription : (plan status : String) → Subscription
subscription plan status = record {
  id = "sub_1";
  status = some status;
  current_period_end = some 5000;
  items = record { current_period_end = none; price = some "price_1" } ∷ [];
  plan = some plan;
  cancel_at_period_end = false;
}

abbrev ended : (id : String) (created : ℕ) → String → Event
ended id created status = record {
  id = id;
  event_type = "customer.subscription.deleted";
  created = created;
  object = record {
    customer = some "cus_1";
    user_id = none;
    subscription = none;
    as_subscription = subscription "pro" status;
  };
}

abbrev customer : BillingProfile
customer = record (new_profile 1) { stripe_customer_id = some "cus_1" }

abbrev ledger : Ledger
ledger = record {
  events = [];
  users = sample_user ∷ [];
  setup = record sample_setup { profiles = customer ∷ [] };
}

abbrev run_event : (now : ℕ) → Event → Ledger → Processed
run_event now e b = process_event default_settings sample_naming now stripe e b

abbrev ledger_of : Processed → Ledger
ledger_of raised = ledger
ledger_of (processed r b) = b

abbrev profile_in : Ledger → BillingProfile
profile_in b = elim (find (is_customer "cus_1") b.setup.profiles) [ none ↦ customer | some p ↦ p ]

abbrev first_ledger : Ledger
first_ledger = ledger_of (run_event 100 (ended "evt_1" 10 "active") ledger)

abbrev second_ledger : Ledger
second_ledger = ledger_of (run_event 200 (ended "evt_2" 20 "canceled") first_ledger)

abbrev late_ledger : Ledger
late_ledger = ledger_of (run_event 150 (ended "evt_2" 20 "canceled") ledger)

abbrev both_ledger : Ledger
both_ledger = ledger_of (run_event 250 (ended "evt_1" 10 "active") late_ledger)

abbrev between_turns : List Turn
between_turns = delivery 200 stripe (ended "evt_2" 20 "canceled") ∷ elsewhere [] ledger.setup ∷ []

replay_ignored_example :
    process_event default_settings sample_naming 900 stripe
      (ended "evt_1" 30 "canceled")
      (turns default_settings sample_naming between_turns first_ledger)
    ≡ processed false (turns default_settings sample_naming between_turns first_ledger)
unfolding process_event profile_for_object delivered_by dispatch apply_subscription
    write_subscription parse_status subscription_period_end subscription_price_id reconcile
    reconcile_profile disable_after_grace ensure_profile ordered_domains selected_primary
replay_ignored_example =
    replay_ignored default_settings sample_naming 100 900 stripe stripe (ended "evt_1" 10 "active")
      (ended "evt_1" 30 "canceled") true ledger first_ledger between_turns refl refl

event_keeps_newest_example :
    (q : BillingProfile) × (standing_of q
      ≡ newer (standing_of customer) (standing_from (subscription "pro" "canceled") 20))
    × IsHeld "cus_1" q late_ledger.setup
unfolding process_event profile_for_object delivered_by dispatch apply_subscription
    write_subscription parse_status subscription_period_end subscription_price_id reconcile
    reconcile_profile disable_after_grace ensure_profile ordered_domains selected_primary
event_keeps_newest_example =
    event_keeps_newest default_settings sample_naming "cus_1" 150 stripe
      (ended "evt_2" 20 "canceled") customer (subscription "pro" "canceled") true ledger late_ledger
      (refl, refl) refl refl refl refl

different : (ended "evt_1" 10 "active").id ≢ (ended "evt_2" 20 "canceled").id
different e = absurd (let p = (eq_iff "evt_1" "evt_2").1 e in ground arith)

order_irrelevant_example :
    standing_of (profile_in second_ledger) ≡ standing_of (profile_in both_ledger)
unfolding process_event profile_for_object delivered_by dispatch apply_subscription
    write_subscription parse_status subscription_period_end subscription_price_id reconcile
    reconcile_profile disable_after_grace ensure_profile ordered_domains selected_primary
order_irrelevant_example =
    order_irrelevant default_settings sample_naming "cus_1" stripe stripe stripe stripe 100 200 150
      250 (ended "evt_1" 10 "active") (ended "evt_2" 20 "canceled") customer
      (profile_in second_ledger) (profile_in both_ledger) (subscription "pro" "active")
      (subscription "pro" "active") (subscription "pro" "canceled") true true true true ledger
      first_ledger second_ledger late_ledger both_ledger (refl, refl) (refl, refl) (refl, refl)
      (refl, refl) (refl, refl) different (ground arith) refl refl refl refl refl refl
