-- ===== src/Routing/Opening.antt =====
-- `begin_routing_transition`, `cancel_routing_transition` and the recording part of
-- `refresh_routing_transition`.
use operational_inbox.Common.{
  ◌||◌, any, ℕ, Bool, true, false, Option, none, some, List, [], ◌∷◌, ◌++◌, ◌&&◌, not, find,
  update_where, if◌then◌else◌, or_else, is_id,
}
use operational_inbox.Accounts.{Domain, SetupMode, DomainStatus, is_disabled, is_mode}
use operational_inbox.Setup.{
  Setup, Transition, TransitionStatus, Route, TestStatus, Naming,
  receiving_route_grace_ended_for_reverse, transition_provision, transition_cancel,
  resume_provision, enqueue, log_setup, is_pending_test, has_domain_id,
}
use operational_inbox.Routing.{
  route_kind_for_mode, is_cancellable, active_routing_transition, next_transition_generation,
  has_transition_id, is_route_of, is_left_behind, is_pending_of, drop_direct_records,
}

pub data RoutingError : Type 0 where
  receiving_disabled domain_disabled transition_in_progress already_active not_cancellable :
      RoutingError

-- What a call gives: a `ValidationError`, which rolls the transaction back, the transition that
-- already runs, or a new one.
pub data Begun : Type 0 where
  rejected : RoutingError → Begun
  kept : Transition → Begun
  begun : Transition → Setup → Begun

abbrev pub is_grace : TransitionStatus → Bool
is_grace TransitionStatus.grace = true
is_grace _ = false

abbrev pub complete_row : (now : ℕ) → Transition → Transition
complete_row now t = record t { status = TransitionStatus.complete; completed_at = some now }

-- The reverse of a transition in its grace period ends that period.
unfoldable pub end_grace : (now : ℕ) → Transition → Setup → Setup
end_grace now t db =
    log_setup
      (record {
        domain_id = t.domain_id;
        object_id = t.id;
        event = receiving_route_grace_ended_for_reverse;
      })
      (record db {
        routes = update_where (is_left_behind t) (λ r. record r { is_active = false }) db.routes;
        transitions = update_where (has_transition_id t.id) (complete_row now) db.transitions;
      })

unfoldable pub new_transition : (id : ℕ) → Domain → SetupMode → List Transition → Transition
new_transition id d target ts = record {
  id = id;
  domain_id = d.id;
  generation = next_transition_generation d ts;
  from_mode = d.setup_mode;
  to_mode = target;
  from_domain_status = d.status;
  status = TransitionStatus.preparing;
  dns_verified_at = none;
  test_received_at = none;
  cutover_at = none;
  grace_until = none;
  cancelled_at = none;
  completed_at = none;
  error_code = "";
  error_message = "";
}

unfoldable pub new_route : (id : ℕ) → Transition → Route
new_route id t = record {
  id = id;
  domain_id = t.domain_id;
  routing_transition = some t.id;
  setup_generation = t.generation;
  kind = route_kind_for_mode t.to_mode;
  is_active = true;
  grace_until = none;
}

-- The rows that a new transition brings, for the fresh IDs of its own row and its route's.
unfoldable pub create_transition :
    Naming → (id route_id now : ℕ) → Domain → SetupMode → Setup → Begun
create_transition n id route_id now d target db =
    if is_mode target d.setup_mode
    then rejected already_active
    else (let t = new_transition id d target db.transitions in
        begun t (
          enqueue n transition_provision t.id now now (some d.id) (record db {
            transitions = db.transitions ++ t ∷ [];
            routes = db.routes ++ new_route route_id t ∷ [];
            tests =
                update_where (is_pending_of d.id) (λ x. record x { status = TestStatus.expired })
                  db.tests;
          })))

-- `begin_routing_transition`; `none` is the missing row of `get(id=…)`.
unfoldable pub begin_transition :
    Naming → (id route_id now domain : ℕ) → SetupMode → Setup → Option Begun
begin_transition n id route_id now domain target db =
    elim (find (has_domain_id domain) db.domains) [
      | none ↦ none
      | some d ↦
          if not d.receiving_enabled
          then some (rejected receiving_disabled)
          else if is_disabled d.status
          then some (rejected domain_disabled)
          else elim (active_routing_transition d.id db.transitions) [
            | none ↦ some (create_transition n id route_id now d target db)
            | some current ↦
                if is_mode current.to_mode target
                then some (kept current)
                else if not (is_grace current.status)
                then some (rejected transition_in_progress)
                else some (create_transition n id route_id now d target (end_grace now current db))
          ]
    ]

abbrev pub cancel_row : (now : ℕ) → Transition → Transition
cancel_row now t = record t {
  status = TransitionStatus.cancelled;
  cancelled_at = some now;
  error_code = "";
  error_message = "";
}

abbrev pub is_cancelled : TransitionStatus → Bool
is_cancelled TransitionStatus.cancelled = true
is_cancelled _ = false

abbrev pub was_provisioning : DomainStatus → Bool
was_provisioning DomainStatus.provisioning = true
was_provisioning _ = false

abbrev pub is_direct : SetupMode → Bool
is_direct SetupMode.direct_mx = true
is_direct _ = false

-- The rows of a cancelled transition.
unfoldable pub close_transition : (now : ℕ) → Transition → Setup → Setup
close_transition now t db = record db {
  transitions = update_where (has_transition_id t.id) (cancel_row now) db.transitions;
  routes =
      update_where (is_route_of t.id) (λ r. record r { is_active = false; grace_until = none })
        db.routes;
  tests =
      update_where (λ x. is_id x.routing_transition t.id && is_pending_test x.status)
        (λ x. record x { status = TestStatus.expired }) db.tests;
}

pub data Cancelled : Type 0 where
  refused : RoutingError → Cancelled
  unchanged : Cancelled
  closed : Setup → Cancelled

-- `cancel_routing_transition`, with the job that takes up provisioning again and the one that
-- reconciles the receipt rule.
unfoldable pub cancel_transition : Naming → (transition now : ℕ) → Setup → Option Cancelled
cancel_transition n transition now db = elim (find (has_transition_id transition) db.transitions) [
  | none ↦ none
  | some t ↦
      if is_cancelled t.status
      then some unchanged
      else if not (is_cancellable t.status)
      then some (refused not_cancellable)
      else elim (find (has_domain_id t.domain_id) db.domains) [
        | none ↦ none
        | some d ↦
            let marked = close_transition now t db in
            let resumed =
              if was_provisioning t.from_domain_status
              then enqueue n resume_provision t.id now now (some d.id) marked
              else marked in
            some (
              closed (
                if is_direct t.to_mode
                then enqueue n transition_cancel t.id now now (some d.id)
                    (record resumed { dns_records = drop_direct_records d resumed.dns_records })
                else resumed))
      ]
]

abbrev pub is_waiting : TransitionStatus → Bool
is_waiting TransitionStatus.waiting_dns = true
is_waiting TransitionStatus.waiting_test = true
is_waiting _ = false

abbrev pub is_waiting_test : TransitionStatus → Bool
is_waiting_test TransitionStatus.waiting_test = true
is_waiting_test _ = false

-- What a look at DNS writes into the transition.
abbrev pub refreshed_row : (target_ready : Bool) (now : ℕ) → Transition → Transition
refreshed_row true now t = record t {
  status = TransitionStatus.waiting_test;
  dns_verified_at = some (or_else t.dns_verified_at now);
  error_code = "";
  error_message = "";
}
refreshed_row false now t = record t {
  status = TransitionStatus.waiting_dns;
  dns_verified_at = none;
}

-- The locked part of `refresh_routing_transition`, for what the DNS and SES probes found.
unfoldable pub record_refresh :
    (ownership_valid target_ready : Bool) (transition now : ℕ) → Setup → Setup
record_refresh ownership_valid target_ready transition now db =
    elim (find (has_transition_id transition) db.transitions) [
      | none ↦ db
      | some t ↦
          if not (is_waiting t.status)
            || any (λ (d : Domain). has_domain_id t.domain_id d && is_disabled d.status) db.domains
          then db
          else record db {
            domains =
                if ownership_valid
                then update_where (has_domain_id t.domain_id)
                    (λ d. record d {
                      ownership_verified = true;
                      verified_at = some (or_else d.verified_at now);
                    })
                    db.domains
                else db.domains;
            tests =
                if not target_ready && is_waiting_test t.status
                then update_where (λ x. is_id x.routing_transition t.id && is_pending_test x.status)
                    (λ x. record x { status = TestStatus.expired }) db.tests
                else db.tests;
            transitions =
                update_where (has_transition_id t.id) (refreshed_row target_ready now)
                  db.transitions;
          }
    ]
