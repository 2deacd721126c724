-- ===== src/Routing/Cutover.antt =====
-- `finalize_routing_transition_test` and `complete_expired_routing_transition`.
use operational_inbox.Common.{
  ℕ, Bool, true, false, Option, none, some, List, ◌==◌, ◌&&◌, ◌||◌, not, ◌+◌, find, update_where,
  if◌then◌else◌, or_else, is_id, is_some, is_none, any, leb, at_or_before, hours,
}
use operational_inbox.Settings.{Settings}
use operational_inbox.Accounts.{Domain, DomainStatus, is_disabled, is_mode}
use operational_inbox.Setup.{
  Setup, Transition, TransitionStatus, Route, RouteKind, DomainTest, TestStatus, Naming, DnsRecord,
  receiving_route_cutover, receiving_route_transition_completed, transition_complete, enqueue,
  log_setup, is_pending_test, has_domain_id,
}
use operational_inbox.Routing.{
  is_kind, route_kind_for_mode, has_transition_id, is_route_of, is_left_behind, is_pending_of,
  drop_direct_records, is_mx, is_ses_verification,
}
use operational_inbox.Routing.Opening.{is_grace, is_direct, is_waiting_test, complete_row}

-- The routes of the transition through which its test may arrive.
abbrev pub is_test_route : Transition → DomainTest → Route → Bool
is_test_route t x r =
    is_route_of t.id r
    && r.is_active
    && r.setup_generation == t.generation
    && is_kind r.kind x.expected_route_kind

-- The guard on the test's own row.
abbrev pub is_arrived : (message_domain now : ℕ) → RouteKind → DomainTest → Bool
is_arrived message_domain now arrival x =
    is_some x.routing_transition
    && is_pending_test x.status
    && not (leb x.expires_at now)
    && is_kind x.expected_route_kind arrival
    && is_none x.received_message
    && message_domain == x.domain_id

-- The guard on the transition, its domain and its routes.
abbrev pub is_cutover_ready : Transition → DomainTest → Domain → List Route → Bool
is_cutover_ready t x d routes =
    is_waiting_test t.status
    && t.generation == x.setup_generation
    && is_mode t.to_mode x.expected_setup_mode
    && not (is_disabled d.status)
    && any (is_test_route t x) routes

-- The routes that serve the domain until the cutover.
abbrev pub is_superseded_route : Transition → Domain → Route → Bool
is_superseded_route t d r =
    r.domain_id == d.id
    && r.is_active
    && is_kind r.kind (route_kind_for_mode t.from_mode)
    && r.setup_generation == d.inbound_setup_generation
    && not (is_route_of t.id r)

abbrev pub has_test_id : ℕ → DomainTest → Bool
has_test_id k x = x.id == k

unfoldable pub cutover_routes : (grace_until : ℕ) → Transition → Domain → List Route → List Route
cutover_routes grace_until t d routes =
    update_where (is_route_of t.id) (λ r. record r { grace_until = none; is_active = true })
      (update_where (is_superseded_route t d) (λ r. record r { grace_until = some grace_until })
        routes)

unfoldable pub cutover_tests :
    (message : ℕ) → DomainTest → Domain → List DomainTest → List DomainTest
cutover_tests message x d tests =
    update_where (λ y. is_pending_of d.id y && not (has_test_id x.id y))
      (λ y. record y { status = TestStatus.expired })
      (update_where (has_test_id x.id)
        (λ y. record y { status = TestStatus.received; received_message = some message }) tests)

abbrev pub cutover_transition : (grace_until now : ℕ) → Transition → Transition
cutover_transition grace_until now t = record t {
  status = TransitionStatus.grace;
  test_received_at = some now;
  cutover_at = some now;
  grace_until = some grace_until;
  error_code = "";
  error_message = "";
}

abbrev pub cutover_domain : (now : ℕ) → Transition → Domain → Domain
cutover_domain now t d = record d {
  setup_mode = t.to_mode;
  inbound_setup_generation = t.generation;
  status = DomainStatus.ready;
  ownership_verified = true;
  verified_at = some (or_else d.verified_at now);
  inbound_ready = true;
  error_code = "";
  error_message = "";
  last_checked_at = some now;
}

-- Direct delivery needs the MX and the verification records; forwarding drops them.
unfoldable pub cutover_records : Transition → Domain → List DnsRecord → List DnsRecord
cutover_records t d records =
    if is_direct t.to_mode
    then update_where
        (λ (r : DnsRecord).
          r.domain_id == d.id && (is_mx r.purpose || is_ses_verification r.purpose))
        (λ r. record r { is_required = true }) records
    else drop_direct_records d records

-- The writes of a cutover, in one transaction.
unfoldable pub cut_over :
    Settings → Naming → (message now : ℕ) → DomainTest → Transition → Domain → Setup → Setup
cut_over s n message now x t d db =
    let grace_until = now + hours s.routing_transition_grace_hours in
    log_setup (record { domain_id = d.id; object_id = t.id; event = receiving_route_cutover })
      (enqueue n transition_complete t.id grace_until now (some d.id) (record db {
        routes = cutover_routes grace_until t d db.routes;
        tests = cutover_tests message x d db.tests;
        transitions =
            update_where (has_transition_id t.id) (cutover_transition grace_until now)
              db.transitions;
        domains = update_where (has_domain_id d.id) (cutover_domain now t) db.domains;
        dns_records = cutover_records t d db.dns_records;
      }))

-- The rows that `finalize_routing_transition_test` locks: the test, its transition and its domain.
unfoldable pub locked_rows : (test : ℕ) → Setup → Option (DomainTest × Transition × Domain)
locked_rows test db = elim (find (has_test_id test) db.tests) [
  | none ↦ none
  | some x ↦ elim (find (λ (t : Transition). is_id x.routing_transition t.id) db.transitions) [
    | none ↦ none
    | some t ↦ elim (find (has_domain_id x.domain_id) db.domains) [
      | none ↦ none
      | some d ↦ some (x, t, d)
    ]
  ]
]

-- The guards and the writes under the locks. A missing row leaves everything as it is.
unfoldable pub finalize_locked :
    Settings
    → Naming
    → (message message_domain now : ℕ) → RouteKind
    → DomainTest
    → Setup
    → Setup × Bool
finalize_locked s n message message_domain now arrival test db = elim (locked_rows test.id db) [
  | none ↦ (db, false)
  | some (x, t, d) ↦
      if is_arrived message_domain now arrival x && is_cutover_ready t x d db.routes
      then (cut_over s n message now x t d db, true)
      else (db, false)
]

-- `finalize_routing_transition_test`, for the test row as the caller read it and the message that
-- arrived, by its ID and its domain.
unfoldable pub finalize :
    Settings
    → Naming
    → (message message_domain now : ℕ) → RouteKind
    → DomainTest
    → Setup
    → Setup × Bool
finalize s n message message_domain now arrival test db =
    if not (is_kind arrival test.expected_route_kind)
    then (db, false)
    else finalize_locked s n message message_domain now arrival test db

-- `complete_expired_routing_transition`
unfoldable pub complete : (transition now : ℕ) → Setup → Setup × Bool
complete transition now db = elim (find (has_transition_id transition) db.transitions) [
  | none ↦ (db, false)
  | some t ↦
      if is_grace t.status && at_or_before t.grace_until now
      then (
        log_setup
            (record {
              domain_id = t.domain_id;
              object_id = t.id;
              event = receiving_route_transition_completed;
            })
            (record db {
              routes =
                  update_where (is_left_behind t) (λ r. record r { is_active = false }) db.routes;
              transitions = update_where (has_transition_id t.id) (complete_row now) db.transitions;
            }),
        true,
      )
      else (db, false)
]
