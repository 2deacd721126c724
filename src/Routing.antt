-- ===== src/Routing.antt =====
-- The change of a domain's receiving route: inbox/services/routing_transitions.py. The child
-- modules hold the steps that open, close and cut over a transition.
pub mod Opening
pub mod Cutover
pub mod Preparing
pub mod Probing
pub mod Transitions
pub mod Steps
pub mod Opened
pub mod Settled
pub mod Prepared
pub mod OneAtATime
pub mod OneTest
pub mod Reachable
mod Tests
use operational_inbox.Common.{
  if◌then◌else◌, ◌||◌, ℕ, Bool, true, false, Option, none, some, List, [], ◌∷◌, ◌==◌, ◌&&◌, not,
  max, suc, is_id, leb, first, order_by, filter, any,
}
use operational_inbox.Accounts.{Domain, SetupMode, OutboundStatus}
use operational_inbox.Setup.{
  Setup, Transition, TransitionStatus, Route, RouteKind, direct_domain, forwarding_alias,
  test_delivery, is_in_progress, DnsRecord, DnsPurpose, DomainTest, is_pending_test,
}

abbrev pub is_kind : RouteKind → RouteKind → Bool
is_kind direct_domain direct_domain = true
is_kind forwarding_alias forwarding_alias = true
is_kind test_delivery test_delivery = true
is_kind _ _ = false

abbrev pub route_kind_for_mode : SetupMode → RouteKind
route_kind_for_mode SetupMode.direct_mx = direct_domain
route_kind_for_mode SetupMode.provider_forward = forwarding_alias

-- `status__in=CANCELLABLE_TRANSITION_STATUSES`
abbrev pub is_cancellable : TransitionStatus → Bool
is_cancellable TransitionStatus.preparing = true
is_cancellable TransitionStatus.waiting_dns = true
is_cancellable TransitionStatus.waiting_test = true
is_cancellable TransitionStatus.failed = true
is_cancellable _ = false

-- A filter on a nullable time, in which a null matches a null.
abbrev pub is_same_time : Option ℕ → Option ℕ → Bool
is_same_time none none = true
is_same_time (some a) (some b) = a == b
is_same_time _ _ = false

abbrev pub is_open_of : (domain : ℕ) → Transition → Bool
is_open_of domain t = t.domain_id == domain && is_in_progress t.status

abbrev pub newest_first : Transition → Transition → Bool
newest_first a b = leb b.generation a.generation

unfoldable pub active_routing_transition : (domain : ℕ) → List Transition → Option Transition
active_routing_transition domain transitions =
    first (order_by newest_first (filter (is_open_of domain) transitions))

-- `aggregate(value=Max("generation"))["value"] or 0`
unfoldable pub latest_generation : (domain : ℕ) → List Transition → ℕ
latest_generation domain [] = 0
latest_generation domain (t ∷ ts) =
    let latest = latest_generation domain ts in
    if t.domain_id == domain then max t.generation latest else latest

unfoldable pub next_transition_generation : Domain → List Transition → ℕ
next_transition_generation d ts = suc (max d.inbound_setup_generation (latest_generation d.id ts))

abbrev pub has_transition_id : ℕ → Transition → Bool
has_transition_id k t = t.id == k

-- `transition.routes`
abbrev pub is_route_of : (transition : ℕ) → Route → Bool
is_route_of k r = is_id r.routing_transition k

-- The active routes of the mode that a transition leaves, with the grace period it gave them.
abbrev pub is_left_behind : Transition → Route → Bool
is_left_behind t r =
    r.domain_id == t.domain_id
    && r.is_active
    && is_kind r.kind (route_kind_for_mode t.from_mode)
    && is_same_time r.grace_until t.grace_until
    && not (is_route_of t.id r)

-- `tests.filter(status=PENDING)` of one domain.
abbrev pub is_pending_of : (domain : ℕ) → DomainTest → Bool
is_pending_of domain t = t.domain_id == domain && is_pending_test t.status

abbrev pub is_outbound_disabled : OutboundStatus → Bool
is_outbound_disabled OutboundStatus.disabled = true
is_outbound_disabled _ = false

abbrev pub is_mx : DnsPurpose → Bool
is_mx DnsPurpose.mx = true
is_mx _ = false

abbrev pub is_ses_verification : DnsPurpose → Bool
is_ses_verification DnsPurpose.ses_verification = true
is_ses_verification _ = false

-- The direct-delivery instructions that go when the direct route does: the MX record, and the SES
-- verification unless outbound sending still uses it.
unfoldable pub drop_direct_records : Domain → List DnsRecord → List DnsRecord
drop_direct_records d records =
    filter
      (λ (r : DnsRecord). not (
        r.domain_id == d.id
        && (is_mx r.purpose
            || (is_outbound_disabled d.outbound_status && is_ses_verification r.purpose))))
      records
