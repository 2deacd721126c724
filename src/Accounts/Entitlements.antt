-- ===== src/Accounts/Entitlements.antt =====
-- What a plan entitles an account to, and which domain a Free Core account may manage
-- (inbox/services/entitlements.py).
use operational_inbox.Common.{
  ℕ, Bool, true, false, Option, none, some, List, ◌==◌, is_id, find, filter, first, order_by,
  if◌then◌else◌,
}
use operational_inbox.Settings.{Settings}
use operational_inbox.Accounts.Domains.{Domain, is_active_of, created_before}
use operational_inbox.Accounts.Profiles.{User, BillingProfile, is_pro}

pub data Plan : Type 0 where
  free pro : Plan

pub record Entitlements : Type 0 where
  pub plan : Plan
  pub is_pro : Bool
  pub domain_limit : ℕ
  pub outbound : Bool
  pub custom_settings : Bool

abbrev pub free_entitlements : Entitlements
free_entitlements = record {
  plan = free;
  is_pro = false;
  domain_limit = 1;
  outbound = true;
  custom_settings = false;
}

-- `Entitlements` of a paid plan, whose domain limit is a setting.
abbrev pub pro_entitlements : Settings → Entitlements
pro_entitlements s = record {
  plan = pro;
  is_pro = true;
  domain_limit = s.max_domains_per_user;
  outbound = true;
  custom_settings = true;
}

-- `user.billing_profile`
abbrev pub profile_of : ℕ → List BillingProfile → Option BillingProfile
profile_of user = find (λ p. p.user_id == user)

unfoldable pub for_user : Settings → List BillingProfile → User → Entitlements
for_user s profiles user =
    if user.is_authenticated
    then elim (profile_of user.id profiles) [
      | none ↦ free_entitlements
      | some p ↦ if is_pro p then pro_entitlements s else free_entitlements
    ]
    else free_entitlements

unfoldable pub active_domains : ℕ → List Domain → List Domain
active_domains owner = filter (is_active_of owner)

-- The chosen domain if it is active, else the oldest active one.
unfoldable pub free_primary_domain : List BillingProfile → List Domain → User → Option Domain
unfolding active_domains
free_primary_domain profiles domains user =
    let active = active_domains user.id domains in
    let oldest = first (order_by created_before active) in
    elim (profile_of user.id profiles) [
      | none ↦ oldest
      | some p ↦ elim (find (λ (d : Domain). is_id p.free_primary_domain_id d.id) active) [
        | some d ↦ some d
        | none ↦ oldest
      ]
    ]

unfoldable pub can_manage_domain :
    Settings → List BillingProfile → List Domain → User → Domain → Bool
unfolding for_user free_primary_domain
can_manage_domain s profiles domains user domain =
    if (for_user s profiles user).is_pro
    then true
    else elim (free_primary_domain profiles domains user) [
      | none ↦ false
      | some primary ↦ primary.id == domain.id
    ]
