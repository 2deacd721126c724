-- ===== src/Ingestion/Recipients.antt =====
-- `_route_domains` of inbox/services/ingestion.py. The addresses of the routes are given by their IDs.
use Prim.Native.String.{compare, ◌++◌ as str_append}
use text.Mathlib.Text.{◌==◌ as str_eq, is_le}
use operational_inbox.Common.{
  ℕ, Bool, true, false, Option, none, some, String, List, [], ◌∷◌, ◌++◌, ◌==◌, ◌&&◌, ◌||◌, not, ltb,
  leb, any, filter, map, order_by, is_some, if◌then◌else◌,
}
use operational_inbox.Accounts.{
  Domain, DomainStatus, direct_mx, provider_forward, is_mode, is_disabled,
}
use operational_inbox.Setup.{
  Setup, Route, RouteKind, Transition, TransitionStatus, preparing, waiting_dns, waiting_test,
  grace,
}
use operational_inbox.Outbound.Submission.Address.{behind_at, has_suffix}

-- Python's `strip` and `casefold`, and the addresses of the routes.
pub record Addresses : Type 0 where
  pub strip : String → String
  pub casefold : String → String
  pub route_address : ℕ → String

pub record RoutedDomain : Type 0 where
  pub domain : Domain
  pub recipients : List String
  pub routes : List Route

abbrev pub mem_text : String → List String → Bool
mem_text s = any (str_eq s)

-- A Python set, as the list of its members in the order of their first occurrence from the end.
unfoldable pub distinct : List String → List String
distinct [] = []
distinct (s ∷ rest) = let others = distinct rest in if mem_text s others then others else s ∷ others

abbrev pub has_at : String → Bool
has_at s = is_some (behind_at s)

-- The addresses of the envelope that are addresses at all, normalized.
unfoldable pub normalized : Addresses → List String → List String
normalized a recipients = distinct (map (λ s. a.casefold (a.strip s)) (filter has_at recipients))

abbrev pub is_forwarding : RouteKind → Bool
is_forwarding RouteKind.forwarding_alias = true
is_forwarding _ = false

-- `status__in=(PENDING_TEST, READY, DEGRADED)`
abbrev pub is_serving : DomainStatus → Bool
is_serving DomainStatus.pending_test = true
is_serving DomainStatus.ready = true
is_serving DomainStatus.degraded = true
is_serving _ = false

-- `(PREPARING, WAITING_DNS, WAITING_TEST, FAILED)`: the old path of a transition still receives.
abbrev pub keeps_old_path : TransitionStatus → Bool
keeps_old_path preparing = true
keeps_old_path waiting_dns = true
keeps_old_path waiting_test = true
keeps_old_path TransitionStatus.failed = true
keeps_old_path _ = false

-- `(PREPARING, WAITING_DNS, WAITING_TEST, GRACE)`
abbrev pub opens_new_alias : TransitionStatus → Bool
opens_new_alias preparing = true
opens_new_alias waiting_dns = true
opens_new_alias waiting_test = true
opens_new_alias grace = true
opens_new_alias _ = false

-- `(WAITING_DNS, WAITING_TEST, GRACE)`
abbrev pub opens_new_mx : TransitionStatus → Bool
opens_new_mx waiting_dns = true
opens_new_mx waiting_test = true
opens_new_mx grace = true
opens_new_mx _ = false

abbrev pub is_grace : TransitionStatus → Bool
is_grace grace = true
is_grace _ = false

-- `grace_until__gt=now`
abbrev pub ends_after : (now : ℕ) → Option ℕ → Bool
ends_after now none = false
ends_after now (some t) = ltb now t

-- The transition that a route belongs to.
abbrev pub is_own_transition : Option ℕ → Transition → Bool
is_own_transition none t = false
is_own_transition (some k) t = t.id == k

abbrev pub is_open_domain : Domain → Bool
is_open_domain d = d.receiving_enabled && not (is_disabled d.status)

-- The forwarding routes that receive for their domain.
unfoldable pub forwards : (now : ℕ) → Setup → Domain → Route → Bool
forwards now db d r =
    is_mode d.setup_mode provider_forward && is_serving d.status
    || (is_mode d.setup_mode provider_forward
        && any
            (λ (t : Transition).
              t.domain_id == d.id
              && is_mode t.from_mode provider_forward
              && keeps_old_path t.status)
            db.transitions)
    || any
        (λ (t : Transition).
          is_own_transition r.routing_transition t
          && is_mode t.to_mode provider_forward
          && opens_new_alias t.status)
        db.transitions
    || ends_after now r.grace_until

unfoldable pub is_forwarding_route :
    Addresses → (now : ℕ) → Setup → (addresses : List String) → Domain → Route → Bool
is_forwarding_route a now db addresses d r =
    r.domain_id == d.id
    && mem_text (a.route_address r.id) addresses
    && r.is_active
    && is_forwarding r.kind
    && is_open_domain d
    && forwards now db d r

-- What of a transition lets a domain's own MX receive.
unfoldable pub serves_mx : (now : ℕ) → Domain → Transition → Bool
serves_mx now d t =
    t.domain_id == d.id
    && ((is_mode d.setup_mode direct_mx && is_mode t.from_mode direct_mx && keeps_old_path t.status)
        || (is_mode t.to_mode direct_mx && opens_new_mx t.status)
        || (is_mode t.from_mode direct_mx && is_grace t.status && ends_after now t.grace_until))

-- The domains that receive under their own hostname.
unfoldable pub is_direct_domain : (now : ℕ) → Setup → (addresses : List String) → Domain → Bool
is_direct_domain now db addresses d =
    any (λ s. elim (behind_at s) [ none ↦ false | some host ↦ str_eq host d.hostname ]) addresses
    && d.ownership_verified
    && is_open_domain d
    && (is_mode d.setup_mode direct_mx && is_serving d.status
        || any (serves_mx now d) db.transitions)

abbrev pub str_before : String → String → Bool
str_before s t = is_le (compare s t)

abbrev pub is_at : Domain → String → Bool
is_at d s = has_suffix (str_append "@" d.hostname) s

-- The routes and the addresses through which a domain receives.
unfoldable pub route_domain :
    Addresses → (now : ℕ) → Setup → (addresses : List String) → Domain → RoutedDomain
route_domain a now db addresses d =
    let routes = filter (is_forwarding_route a now db addresses d) db.routes in
    let aliases = map (λ (r : Route). a.casefold (a.route_address r.id)) routes in
    let own = if is_direct_domain now db addresses d then filter (is_at d) addresses else [] in
    record {
      domain = d;
      recipients = order_by str_before (distinct (aliases ++ own));
      routes = routes;
    }

unfoldable pub receives : Addresses → (now : ℕ) → Setup → (addresses : List String) → Domain → Bool
receives a now db addresses d =
    any (is_forwarding_route a now db addresses d) db.routes || is_direct_domain now db addresses d

abbrev pub id_before : Domain → Domain → Bool
id_before x y = leb x.id y.id

-- `_route_domains`
unfoldable pub route_domains : Addresses → (now : ℕ) → List String → Setup → List RoutedDomain
route_domains a now recipients db =
    let addresses = normalized a recipients in
    map (route_domain a now db addresses)
      (order_by id_before (filter (receives a now db addresses) db.domains))
