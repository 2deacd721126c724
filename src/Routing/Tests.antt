-- ===== src/Routing/Tests.antt =====
-- The theorems on receiving-route transitions at concrete rows.
use operational_inbox.Common.{map, true, none, some, [], ◌∷◌, ◌≡◌, refl, arith, any, hours, count}
use operational_inbox.Settings.{default_settings}
use operational_inbox.Accounts.{SetupMode, DomainStatus}
use operational_inbox.Setup.{
  Setup, Transition, TransitionStatus, Route, RouteKind, direct_domain, DnsRecord, DomainTest,
  TestStatus,
}
use operational_inbox.Samples.{sample_domain, sample_setup, sample_naming}
use operational_inbox.Routing.{active_routing_transition, is_pending_of}
use operational_inbox.Routing.Opening.{begin_transition, create_transition, new_transition, begun}
use operational_inbox.Routing.Cutover.{locked_rows, finalize, finalize_locked, complete}
use operational_inbox.Routing.Reachable.{is_live, cutover_stays_reachable}
use operational_inbox.Routing.Transitions.{IsExclusive}
use operational_inbox.Routing.Steps.{begin, provision, stop, go}
use operational_inbox.Routing.Preparing.{
  record_provisioned, target_instructions, upsert_dns_instruction,
}
use operational_inbox.Routing.Probing.{make_test}
use operational_inbox.Routing.OneTest.{make_leaves_one_test}
use operational_inbox.Routing.OneAtATime.{one_transition_at_a_time}

-- The move of domain 3 to direct delivery, waiting for its test.
abbrev moving : Transition
moving = record {
  id = 40;
  domain_id = 3;
  generation = 2;
  from_mode = SetupMode.provider_forward;
  to_mode = SetupMode.direct_mx;
  from_domain_status = DomainStatus.ready;
  status = TransitionStatus.waiting_test;
  dns_verified_at = some 60;
  test_received_at = none;
  cutover_at = none;
  grace_until = none;
  cancelled_at = none;
  completed_at = none;
  error_code = "";
  error_message = "";
}

abbrev target_route : Route
target_route = record {
  id = 41;
  domain_id = 3;
  routing_transition = some 40;
  setup_generation = 2;
  kind = direct_domain;
  is_active = true;
  grace_until = none;
}

abbrev old_route : Route
old_route = record {
  id = 42;
  domain_id = 3;
  routing_transition = none;
  setup_generation = 1;
  kind = RouteKind.forwarding_alias;
  is_active = true;
  grace_until = none;
}

abbrev waiting_for : DomainTest
waiting_for = record {
  id = 43;
  domain_id = 3;
  routing_transition = some 40;
  setup_generation = 2;
  expected_setup_mode = SetupMode.direct_mx;
  expected_route_kind = direct_domain;
  status = TestStatus.pending;
  expires_at = 900;
  received_message = none;
}

abbrev before_cutover : Setup
before_cutover = record sample_setup {
  transitions = moving ∷ [];
  routes = old_route ∷ target_route ∷ [];
  tests = waiting_for ∷ [];
}

abbrev after_cutover : Setup
after_cutover =
    (finalize default_settings sample_naming 50 3 100 direct_domain waiting_for before_cutover).0

cutover_stays_reachable_example :
    (any (is_live moving direct_domain) after_cutover.routes ≡ true)
    × (any (is_live moving direct_domain) (complete 40 (hours 25) after_cutover).0.routes ≡ true)
unfolding locked_rows finalize finalize_locked
cutover_stays_reachable_example =
    cutover_stays_reachable default_settings sample_naming 50 3 100 (hours 25) direct_domain
      waiting_for waiting_for moving (sample_domain 3 10) before_cutover refl refl

-- The move begins from the sample tables.
abbrev begun_rows : Transition
begun_rows = new_transition 40 (sample_domain 3 10) SetupMode.direct_mx []

abbrev after_begin : Setup
after_begin =
    elim (create_transition sample_naming 40 41 30 (sample_domain 3 10) SetupMode.direct_mx
      sample_setup) [ begun t db ↦ db | _ ↦ sample_setup ]

abbrev provisioned : Setup
provisioned = record_provisioned "eu-west-1" "token" "" 40 after_begin

one_transition_at_a_time_example : IsExclusive provisioned.transitions
unfolding begin_transition create_transition active_routing_transition
one_transition_at_a_time_example =
    one_transition_at_a_time default_settings sample_naming sample_setup provisioned
      (go (begin 40 41 30 3 SetupMode.direct_mx begun_rows tt refl)
        (go (provision "eu-west-1" "token" "" 40) stop))
      (tt, λ domain. omega arith)

-- The transition of domain 3 is waiting for DNS, and the domain has its two instructions.
provisioned_rows :
    (map (λ (t : Transition). t.status) provisioned.transitions ≡ TransitionStatus.waiting_dns ∷ [])
    × (map (λ (r : DnsRecord). r.name) provisioned.dns_records
        ≡ "_operational-inbox-claim.example.org" ∷ "example.org" ∷ [])
unfolding begin_transition create_transition new_transition active_routing_transition
    record_provisioned target_instructions upsert_dns_instruction
provisioned_rows = (refl, refl)

-- The test that is there has expired, and a new one is made.
abbrev expired_test : DomainTest
expired_test = record waiting_for { expires_at = 100 }

make_leaves_one_test_example :
    count
      (is_pending_of 3)
      (make_test (λ x. true) 44 40 200 (record before_cutover { tests = expired_test ∷ [] })).tests
    ≡ 1
make_leaves_one_test_example =
    make_leaves_one_test (λ x. true) 44 40 200 moving (sample_domain 3 10)
      (record before_cutover { tests = expired_test ∷ [] }) refl refl refl
