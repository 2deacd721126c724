-- ===== src/Billing/Standing.antt =====
-- What an account has paid for, by its billing profile (inbox/models.py), and what keeps it.
use operational_inbox.Common.{
  ℕ, Bool, true, false, Option, none, some, String, List, [], ◌∷◌, ◌==◌, ◌||◌, ltb, leb, length,
  find, update_where, if◌then◌else◌, ◌≡◌, refl, sym, ◌∙◌, ap, subst, arith,
}
use operational_inbox.Settings.{Settings}
use operational_inbox.Accounts.{BillingProfile, SubscriptionStatus, is_pro, Domain}
use operational_inbox.Accounts.Entitlements.{profile_of}
use operational_inbox.Setup.{Setup, Naming}
use operational_inbox.Capacity.{
  ensure_profile, reconcile, reconcile_profile, disable_after_grace, disable_for_capacity,
  disable_others, stop_receiving, save_profile, ordered_domains, selected_primary, with_primary,
  grace_end,
}
use operational_inbox.Billing.Subscriptions.{
  Subscription, subscription_price_id, text_of, parse_status, subscription_period_end,
}
use operational_inbox.Billing.Events.{is_customer, is_profile_of, change_profile, has_text}

-- What an account has paid for, and as of which event.
pub record Standing : Type 0 where
  pub subscription : Option String
  pub price : String
  pub plan : String
  pub status : SubscriptionStatus
  pub period_end : Option ℕ
  pub is_ending : Bool
  pub as_of : ℕ

abbrev pub standing_of : BillingProfile → Standing
standing_of p = record {
  subscription = p.stripe_subscription_id;
  price = p.stripe_price_id;
  plan = p.subscription_plan;
  status = p.subscription_status;
  period_end = p.current_period_end;
  is_ending = p.cancel_at_period_end;
  as_of = p.last_stripe_event_created;
}

abbrev pub standing_from : Subscription → ℕ → Standing
standing_from s created = record {
  subscription = some s.id;
  price = subscription_price_id s;
  plan = text_of s.plan;
  status = parse_status s.status;
  period_end = subscription_period_end s;
  is_ending = s.cancel_at_period_end;
  as_of = created;
}

-- The specification: of two standings the newer one, and the second at a tie.
abbrev pub newer : Standing → Standing → Standing
newer old new = if ltb new.as_of old.as_of then old else new

-- The profile of a Stripe customer and of its user.
abbrev pub IsHeld : String → BillingProfile → Setup → Type 0
IsHeld c p db =
    (find (is_customer c) db.profiles ≡ some p) × (profile_of p.user_id db.profiles ≡ some p)

find-passes :
    (test : BillingProfile → Bool) (ps : List BillingProfile) (p : BillingProfile)
    → find test ps ≡ some p
    → test p ≡ true
find-passes test [] p e = ground arith
find-passes test (x ∷ ps) p e = ground (arith, find-passes test ps p)

module _ (c : String) (f : BillingProfile → BillingProfile)
    (same_user : (p : BillingProfile) → (f p).user_id ≡ p.user_id)
    (same_customer : (p : BillingProfile) → (f p).stripe_customer_id ≡ p.stripe_customer_id) where
  customer_after :
      (p : BillingProfile) (ps : List BillingProfile)
      → find (is_customer c) ps ≡ some p
      → find (is_customer c) (update_where (is_profile_of p.user_id) f ps) ≡ some (f p)
  customer_after p [] e = ground arith
  customer_after p (x ∷ ps) e = ground (arith, customer_after p ps, same_customer x)

  user_after :
      (user : ℕ) (p : BillingProfile) (ps : List BillingProfile)
      → profile_of user ps ≡ some p
      → profile_of user (update_where (is_profile_of user) f ps) ≡ some (f p)
  user_after user p [] e = ground arith
  user_after user p (x ∷ ps) e = ground (arith, user_after user p ps, same_user x)

  pub changed-IsHeld :
      (p : BillingProfile) (db : Setup)
      → IsHeld c p db
      → IsHeld c (f p) (change_profile p.user_id f db)
  changed-IsHeld p db (e, u) = (
    customer_after p db.profiles e,
    subst (λ k. profile_of k (update_where (is_profile_of p.user_id) f db.profiles) ≡ some (f p))
        (sym (same_user p)) (user_after p.user_id p db.profiles u),
  )

-- A row that is saved as a whole.
customer_saved :
    (c : String) (p q : BillingProfile) (ps : List BillingProfile)
    → q.user_id ≡ p.user_id
    → is_customer c q ≡ true
    → find (is_customer c) ps ≡ some p
    → find
        (is_customer c)
        (update_where (λ (x : BillingProfile). x.user_id == q.user_id) (λ _. q) ps)
      ≡ some q
customer_saved c p q [] u h e = ground arith
customer_saved c p q (x ∷ ps) u h e = ground (arith, customer_saved c p q ps)

user_saved :
    (user : ℕ) (p q : BillingProfile) (ps : List BillingProfile)
    → q.user_id ≡ user
    → profile_of user ps ≡ some p
    → profile_of user (update_where (λ (x : BillingProfile). x.user_id == q.user_id) (λ _. q) ps)
      ≡ some q
user_saved user p q [] u e = ground arith
user_saved user p q (x ∷ ps) u e = ground (arith, user_saved user p q ps)

disable-profiles :
    (n : Naming) (k now : ℕ) (db : Setup)
    → (disable_for_capacity n k now db).0.profiles ≡ db.profiles
unfolding disable_for_capacity stop_receiving
disable-profiles n k now db = ground arith

others-profiles :
    (n : Naming) (primary now : ℕ) (ds : List Domain) (db : Setup)
    → (disable_others n primary now ds db).0.profiles ≡ db.profiles
unfolding disable_others
others-profiles n primary now [] db = refl
others-profiles n primary now (d ∷ ds) db = ground (
  arith,
  disable-profiles n d.id now db,
  others-profiles n primary now ds db,
  others-profiles n primary now ds (disable_for_capacity n d.id now db).0,
)

-- What reconciling the domains keeps of a profile.
abbrev pub IsLike : BillingProfile → BillingProfile → Type 0
IsLike p q =
    (q.user_id ≡ p.user_id)
    × (q.stripe_customer_id ≡ p.stripe_customer_id)
    × (standing_of q ≡ standing_of p)

saved-IsHeld :
    (c : String) (p q : BillingProfile) (db : Setup)
    → IsLike p q
    → IsHeld c p db
    → IsHeld c q (save_profile q db)
saved-IsHeld c p q db (u, k, _) (e, held) = (
  customer_saved c p q db.profiles u
      (ap (λ t. has_text t c) k ∙ find-passes (is_customer c) db.profiles p e) e,
  user_saved q.user_id p q db.profiles refl
      (subst (λ j. profile_of j db.profiles ≡ some p) (sym u) held),
)

primary-IsLike : (d : Option Domain) (p : BillingProfile) → IsLike p (with_primary d p)
primary-IsLike none p = (refl, refl, refl)
primary-IsLike (some d) p = (refl, refl, refl)

-- The account's profile after a step.
abbrev pub IsKept : String → BillingProfile → Setup × ℕ → Type 0
IsKept c p (db, count) = (q : BillingProfile) × IsLike p q × IsHeld c q db

either-IsKept :
    (c : String) (p : BillingProfile) (b : Bool) (x y : Setup × ℕ)
    → IsKept c p x
    → IsKept c p y
    → IsKept c p (if b then x else y)
either-IsKept c p true x y kx ky = kx
either-IsKept c p false x y kx ky = ky

ensured :
    (p : BillingProfile) (db : Setup)
    → profile_of p.user_id db.profiles ≡ some p
    → ensure_profile p.user_id db.profiles ≡ (db.profiles, p)
unfolding ensure_profile
ensured p db e = ground arith

grace-IsKept :
    (n : Naming) (c : String) (primary : Option Domain) (now : ℕ) (domains : List Domain)
    (p q saved : BillingProfile) (db : Setup)
    → IsLike p saved
    → IsLike p q
    → IsLike saved q
    → IsHeld c saved db
    → IsKept c p (disable_after_grace n primary now domains q db)
unfolding disable_after_grace
grace-IsKept n c none now domains p q saved db kept like same held = (saved, kept, held)
grace-IsKept n c (some d) now domains p q saved db kept like same held =
    let ended = record q { domain_grace_ends_at = none } in
    (
      ended,
      like,
      saved-IsHeld c saved ended (disable_others n d.id now domains db).0 same
          (rw (others-profiles n d.id now domains db) held),
    )

profile-IsKept :
    (st : Settings) (n : Naming) (c : String) (now : ℕ) (p : BillingProfile) (db : Setup)
    → IsHeld c p db
    → IsKept c p (reconcile_profile st n p.user_id now p db)
unfolding reconcile_profile
profile-IsKept st n c now p db held =
    let domains = ordered_domains p.user_id db.domains in
    let primary = selected_primary p.free_primary_domain_id domains in
    let chosen = with_primary primary p in
    let like = primary-IsLike primary p in
    let ended = record chosen { domain_grace_ends_at = none } in
    let waiting = record chosen { domain_grace_ends_at = some (grace_end st now chosen) } in
    let running = saved-IsHeld c p waiting db like held in
    either-IsKept c p (is_pro chosen || leb (length domains) 1) _ _
      (ended, like, saved-IsHeld c p ended db like held)
      (either-IsKept c p (ltb now (grace_end st now chosen)) _ _ (waiting, like, running)
        (grace-IsKept n c primary now domains p chosen waiting (save_profile waiting db) like like
          (refl, refl, refl) running))

pub reconcile-IsHeld :
    (st : Settings) (n : Naming) (c : String) (now : ℕ) (p : BillingProfile) (db : Setup)
    → IsHeld c p db
    → IsKept c p (reconcile st n p.user_id now db)
unfolding reconcile
reconcile-IsHeld st n c now p db held =
    let found = ensured p db held.1 in
    subst
      (λ (e : List BillingProfile × BillingProfile).
        IsKept c p (reconcile_profile st n p.user_id now e.1 (record db { profiles = e.0 })))
      (sym found) (profile-IsKept st n c now p db held)
