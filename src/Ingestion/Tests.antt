-- ===== src/Ingestion/Tests.antt =====
-- The theorems on the routing of envelopes at a concrete envelope.
use operational_inbox.Common.{true, none, [], ◌∷◌, ◌≡◌, refl, all, any}
use operational_inbox.Accounts.{Domain, SetupMode}
use operational_inbox.Setup.{Setup, Route, RouteKind}
use operational_inbox.Samples.{sample_domain, sample_setup}
use operational_inbox.Ingestion.Recipients.{Addresses, normalized, distinct, route_domains}
use operational_inbox.Ingestion.Tenancy.{is_tenant_safe, mail_stays_in_tenant}
use operational_inbox.Ingestion.Arrival.{delivers, served_mail_arrives}

abbrev addresses : Addresses
addresses = record {
  strip = λ s. s;
  casefold = λ s. s;
  route_address = λ k. "f7@in.operationalinbox.com";
}

abbrev direct_domain : Domain
direct_domain = record (sample_domain 3 10) { setup_mode = SetupMode.direct_mx }

abbrev alias_route : Route
alias_route = record {
  id = 30;
  domain_id = 8;
  routing_transition = none;
  setup_generation = 1;
  kind = RouteKind.forwarding_alias;
  is_active = true;
  grace_until = none;
}

-- A domain with its own MX, and one that is forwarded.
abbrev two_domains : Setup
two_domains = record sample_setup {
  domains = direct_domain ∷ record (sample_domain 8 20) { hostname = "example.net" } ∷ [];
  routes = alias_route ∷ [];
}

mail_stays_in_tenant_example :
    all (is_tenant_safe addresses two_domains) (
      route_domains addresses 100
        ("ops@example.org" ∷ "f7@in.operationalinbox.com" ∷ "x@example.com" ∷ [])
        two_domains)
    ≡ true
mail_stays_in_tenant_example =
    mail_stays_in_tenant addresses 100
      ("ops@example.org" ∷ "f7@in.operationalinbox.com" ∷ "x@example.com" ∷ []) two_domains

served_mail_arrives_example :
    any
      (delivers 3 "ops@example.org")
      (route_domains addresses 100 ("ops@example.org" ∷ "x@example.com" ∷ []) two_domains)
    ≡ true
unfolding normalized distinct
served_mail_arrives_example =
    served_mail_arrives addresses 100 ("ops@example.org" ∷ "x@example.com" ∷ []) two_domains
      direct_domain "ops@example.org" refl refl refl refl refl refl refl refl
