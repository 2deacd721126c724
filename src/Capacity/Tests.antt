-- ===== src/Capacity/Tests.antt =====
-- The theorems on the domain capacity at concrete rows.
use operational_inbox.Common.{some, [], ◌∷◌, ◌≡◌, arith, find}
use operational_inbox.Settings.{default_settings}
use operational_inbox.Accounts.{new_profile}
use operational_inbox.Accounts.Entitlements.{free_primary_domain}
use operational_inbox.Setup.{Setup, has_domain_id}
use operational_inbox.Samples.{sample_user, sample_domain, sample_setup, sample_naming}
use operational_inbox.Capacity.{
  domain_capacity, reconcile, disable_row, ordered_domains, selected_primary, ensure_profile,
}
use operational_inbox.Capacity.Primary.{primaries_agree}
use operational_inbox.Capacity.Enforcement.{reconcile_enforces}

primaries_agree_example :
    (domain_capacity default_settings sample_user sample_setup).primary_domain_id ≡ some 3
unfolding free_primary_domain
primaries_agree_example =
    primaries_agree default_settings sample_user sample_setup ((ground arith, tt), (tt, tt))

-- The grace period of user 1 ended at time 50.
abbrev after_grace : Setup
after_grace = record sample_setup {
  profiles = record (new_profile 1) { domain_grace_ends_at = some 50 } ∷ [];
}

reconcile_enforces_example :
    find (has_domain_id 8) (reconcile default_settings sample_naming 1 60 after_grace).0.domains
    ≡ some (disable_row (sample_domain 8 20))
unfolding ordered_domains selected_primary ensure_profile
reconcile_enforces_example = reconcile_enforces default_settings sample_naming 1 60 8 after_grace
