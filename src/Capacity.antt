-- ===== src/Capacity.antt =====
-- The active-domain capacity of a Free Core account: inbox/services/domain_entitlements.py.
pub mod Primary
pub mod Enforcement
mod Tests
use operational_inbox.Common.{
  ℕ, Bool, true, false, Option, none, some, String, List, [], ◌∷◌, ◌++◌, ◌==◌, ◌&&◌, ◌||◌, not, ltb,
  leb, ◌+◌, find, filter, first, length, order_by, any, update_where, if◌then◌else◌, is_id, is_none,
  is_some, or_else, days, map,
}
use operational_inbox.Settings.{Settings}
use operational_inbox.Accounts.{
  Domain, OutboundStatus, DomainStatus, is_disabled, is_active_of, created_before, User,
  BillingProfile, is_pro, new_profile,
}
use operational_inbox.Accounts.Entitlements.{for_user, profile_of}
use operational_inbox.Setup.{
  Setup, SetupAudit, disabled_after_capacity_grace, Naming, capacity_disable, enqueue, log_setup,
  Transition, cancelled, is_in_progress, Route, DomainTest, expired, is_pending_test, has_domain_id,
}

pub record DomainCapacity : Type 0 where
  pub used : ℕ
  pub limit : ℕ
  pub primary_domain_id : Option ℕ
  pub grace_ends_at : Option ℕ

-- The property `over_capacity`.
abbrev pub over_capacity : DomainCapacity → Bool
over_capacity c = ltb c.limit c.used

-- `_active_domains(user).order_by("created_at", "id")`
unfoldable pub ordered_domains : ℕ → List Domain → List Domain
ordered_domains owner domains = order_by created_before (filter (is_active_of owner) domains)

unfoldable pub selected_primary : Option ℕ → List Domain → Option Domain
selected_primary selected_id domains =
    elim (find (λ (d : Domain). is_id selected_id d.id) domains) [
      | some d ↦ some d
      | none ↦ first domains
    ]

abbrev pub domain_id_of : Option Domain → Option ℕ
domain_id_of none = none
domain_id_of (some d) = some d.id

unfoldable pub domain_capacity : Settings → User → Setup → DomainCapacity
domain_capacity s user db =
    let domains = ordered_domains user.id db.domains in
    elim (profile_of user.id db.profiles) [
      | none ↦ record {
        used = length domains;
        limit = (for_user s db.profiles user).domain_limit;
        primary_domain_id = domain_id_of (first domains);
        grace_ends_at = none;
      }
      | some p ↦ record {
        used = length domains;
        limit = (for_user s db.profiles user).domain_limit;
        primary_domain_id = domain_id_of (selected_primary p.free_primary_domain_id domains);
        grace_ends_at = p.domain_grace_ends_at;
      }
    ]

-- What disabling writes into the domain's row.
unfoldable pub disable_row : Domain → Domain
disable_row d = record d {
  status = DomainStatus.disabled;
  inbound_ready = false;
  outbound_ready = false;
  outbound_status = OutboundStatus.disabled;
  outbound_error_code = "";
  outbound_error_message = "";
}

-- The routes, transitions and tests that belong to a domain stop with it.
unfoldable pub stop_receiving : (domain now : ℕ) → Setup → Setup
stop_receiving domain now db = record db {
  routes =
      update_where (λ (r : Route). r.domain_id == domain) (λ r. record r { is_active = false })
        db.routes;
  transitions =
      update_where (λ (t : Transition). t.domain_id == domain && is_in_progress t.status)
        (λ t. record t { status = cancelled; cancelled_at = some now }) db.transitions;
  tests =
      update_where (λ (t : DomainTest). t.domain_id == domain && is_pending_test t.status)
        (λ t. record t { status = expired }) db.tests;
}

-- `_disable_for_capacity`
unfoldable pub disable_for_capacity : Naming → (domain now : ℕ) → Setup → Setup × Bool
disable_for_capacity n domain now db = elim (find (has_domain_id domain) db.domains) [
  | none ↦ (db, false)
  | some locked ↦ if is_disabled locked.status then (db, false) else (
    log_setup
        (record { domain_id = domain; object_id = domain; event = disabled_after_capacity_grace })
        (enqueue n capacity_disable domain now now (some domain) (
          stop_receiving domain now
            (record db { domains = update_where (has_domain_id domain) disable_row db.domains }))),
    true,
  )
]

-- The loop over the domains beside the primary, with the number that it disabled.
unfoldable pub disable_others : Naming → (primary now : ℕ) → List Domain → Setup → Setup × ℕ
disable_others n primary now [] db = (db, 0)
disable_others n primary now (d ∷ ds) db =
    let (db', done) = if d.id == primary then (db, false) else disable_for_capacity n d.id now db in
    let (db'', count) = disable_others n primary now ds db' in
    (db'', if done then count + 1 else count)

-- `BillingProfile.objects.get_or_create(user=user)`
unfoldable pub ensure_profile : ℕ → List BillingProfile → List BillingProfile × BillingProfile
ensure_profile user profiles = elim (profile_of user profiles) [
  | some p ↦ (profiles, p)
  | none ↦ (profiles ++ new_profile user ∷ [], new_profile user)
]

abbrev pub save_profile : BillingProfile → Setup → Setup
save_profile p db = record db {
  profiles = update_where (λ (q : BillingProfile). q.user_id == p.user_id) (λ _. p) db.profiles;
}

-- The choice of the primary domain is kept in the profile.
abbrev pub with_primary : Option Domain → BillingProfile → BillingProfile
with_primary none p = p
with_primary (some d) p = record p { free_primary_domain_id = some d.id }

-- The end of the grace period, once it runs.
abbrev pub grace_end : Settings → (now : ℕ) → BillingProfile → ℕ
grace_end s now p = or_else p.domain_grace_ends_at (now + days s.domain_downgrade_grace_days)

-- The end of the grace period: the domains beside the primary are disabled.
unfoldable pub disable_after_grace :
    Naming → (primary : Option Domain) (now : ℕ) → List Domain → BillingProfile → Setup → Setup × ℕ
disable_after_grace n none now domains profile db = (db, 0)
disable_after_grace n (some d) now domains profile db =
    let (done, disabled) = disable_others n d.id now domains db in
    (save_profile (record profile { domain_grace_ends_at = none }) done, disabled)

-- The rest of `reconcile_domain_capacity`, for the locked profile.
unfoldable pub reconcile_profile :
    Settings → Naming → (user now : ℕ) → BillingProfile → Setup → Setup × ℕ
reconcile_profile s n user now found locked =
    let domains = ordered_domains user locked.domains in
    let primary = selected_primary found.free_primary_domain_id domains in
    let profile = with_primary primary found in
    if is_pro profile || leb (length domains) 1
    then (save_profile (record profile { domain_grace_ends_at = none }) locked, 0)
    else (let ends = grace_end s now profile in
        let running = save_profile (record profile { domain_grace_ends_at = some ends }) locked in
        if ltb now ends
        then (running, 0)
        else disable_after_grace n primary now domains profile running)

-- `reconcile_domain_capacity`, with the number of domains that were disabled.
unfoldable pub reconcile : Settings → Naming → (user now : ℕ) → Setup → Setup × ℕ
reconcile s n user now db =
    let (profiles, found) = ensure_profile user db.profiles in
    reconcile_profile s n user now found (record db { profiles = profiles })

unfoldable pub reconcile_domain_capacity :
    Settings → Naming → User → (now : ℕ) → Setup → Setup × DomainCapacity × ℕ
reconcile_domain_capacity s n user now db =
    let (db', disabled) = reconcile s n user.id now db in
    (db', domain_capacity s user db', disabled)

-- `select_free_primary_domain`; `none` is the `ValueError`.
unfoldable pub select_free_primary_domain : (user domain : ℕ) → Setup → Option Setup
select_free_primary_domain user domain db =
    let (profiles, profile) = ensure_profile user db.profiles in
    if is_pro profile
    then none
    else if any (λ (d : Domain). has_domain_id domain d && is_active_of user d) db.domains
    then some (
        save_profile (record profile { free_primary_domain_id = some domain })
          (record db { profiles = profiles }))
    else none
