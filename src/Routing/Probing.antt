-- ===== src/Routing/Probing.antt =====
-- `_assert_routing_transition_test_ready`, `_current_locked_routing_transition_test` and
-- `ensure_routing_transition_test` of inbox/services/routing_transitions.py. The rows of a domain's
-- tests stand in the order in which they were created. Whether the address of a stored test fits its
-- hash and the domain (`_test_address_matches`) is an argument, as the columns of the address are left
-- out.
use operational_inbox.Common.{
  ℕ, Bool, Option, none, some, List, [], ◌∷◌, ◌++◌, ◌==◌, ◌&&◌, ◌+◌, not, any, find, leb, hours,
  if◌then◌else◌, is_id, is_none,
}
use operational_inbox.Accounts.{Domain, is_mode, is_disabled}
use operational_inbox.Setup.{Setup, Transition, Route, DomainTest, TestStatus, has_domain_id}
use operational_inbox.Routing.{
  route_kind_for_mode, is_kind, has_transition_id, is_route_of, is_pending_of,
}
use operational_inbox.Routing.Opening.{is_waiting_test}

abbrev pub is_target_route : Transition → Route → Bool
is_target_route t r =
    is_route_of t.id r
    && r.is_active
    && r.setup_generation == t.generation
    && is_kind r.kind (route_kind_for_mode t.to_mode)

-- `_assert_routing_transition_test_ready`
abbrev pub is_test_ready : Transition → Domain → List Route → Bool
is_test_ready t d routes =
    is_waiting_test t.status && not (is_disabled d.status) && any (is_target_route t) routes

-- `exact_current_scope`
abbrev pub is_current_scope :
    (address_matches : DomainTest → Bool) → Transition → Domain → (now : ℕ) → DomainTest → Bool
is_current_scope address_matches t d now x =
    x.domain_id == d.id
    && is_id x.routing_transition t.id
    && x.setup_generation == t.generation
    && is_mode x.expected_setup_mode t.to_mode
    && is_kind x.expected_route_kind (route_kind_for_mode t.to_mode)
    && not (leb x.expires_at now)
    && is_none x.received_message
    && address_matches x

-- `_current_locked_routing_transition_test`: of the pending tests the newest one that fits, and the
-- table in which the others are expired.
unfoldable pub current_test :
    (address_matches : DomainTest → Bool)
    → Transition
    → Domain
    → (now : ℕ) → List DomainTest
    → List DomainTest × Option DomainTest
current_test address_matches t d now [] = ([], none)
current_test address_matches t d now (x ∷ xs) =
    let (rest, found) = current_test address_matches t d now xs in
    if not (is_pending_of d.id x)
    then (x ∷ rest, found)
    else if is_current_scope address_matches t d now x && is_none found
    then (x ∷ rest, some x)
    else (record x { status = TestStatus.expired } ∷ rest, found)

-- How one of the two transactions ends: with an error, which rolls it back, with the test that is
-- there, or without one.
pub data Looked : Type 0 where
  missing_row not_ready : Looked
  present : DomainTest → Setup → Looked
  absent : Transition → Domain → Setup → Looked

-- The first transaction, and the beginning of the second one.
unfoldable pub look_for_test :
    (address_matches : DomainTest → Bool) → (transition now : ℕ) → Setup → Looked
look_for_test address_matches transition now db =
    elim (find (has_transition_id transition) db.transitions) [
      | none ↦ missing_row
      | some t ↦ elim (find (has_domain_id t.domain_id) db.domains) [
        | none ↦ missing_row
        | some d ↦
            if not (is_test_ready t d db.routes)
            then not_ready
            else (let (tests, found) = current_test address_matches t d now db.tests in
                let settled = record db { tests = tests } in
                elim found [ some x ↦ present x settled | none ↦ absent t d settled ])
      ]
    ]

unfoldable pub new_test : (id now : ℕ) → Transition → Domain → DomainTest
new_test id now t d = record {
  id = id;
  domain_id = d.id;
  routing_transition = some t.id;
  setup_generation = t.generation;
  expected_setup_mode = t.to_mode;
  expected_route_kind = route_kind_for_mode t.to_mode;
  status = TestStatus.pending;
  expires_at = now + hours 24;
  received_message = none;
}

-- The tables that the first transaction leaves; between the two, the receipt rule is reconciled.
unfoldable pub expire_tests :
    (address_matches : DomainTest → Bool) → (transition now : ℕ) → Setup → Setup
expire_tests address_matches transition now db =
    elim (look_for_test address_matches transition now db) [
      | missing_row ↦ db
      | not_ready ↦ db
      | present x settled ↦ settled
      | absent t d settled ↦ settled
    ]

-- The second transaction, for the ID of a new row.
unfoldable pub make_test :
    (address_matches : DomainTest → Bool) → (id transition now : ℕ) → Setup → Setup
make_test address_matches id transition now db =
    elim (look_for_test address_matches transition now db) [
      | missing_row ↦ db
      | not_ready ↦ db
      | present x settled ↦ settled
      | absent t d settled ↦ record settled { tests = settled.tests ++ new_test id now t d ∷ [] }
    ]
