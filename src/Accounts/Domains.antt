-- ===== src/Accounts/Domains.antt =====
-- `class Domain` of inbox/models.py. The presentation texts of the error codes are left out.
use operational_inbox.Common.{ℕ, Bool, true, false, Option, String, ◌==◌, ◌&&◌, not, ltb, ◌||◌}

pub data SetupMode : Type 0 where
  direct_mx provider_forward : SetupMode

pub data DomainStatus : Type 0 where
  provisioning pending_dns pending_test ready error degraded disabled : DomainStatus

pub data OutboundStatus : Type 0 where
  disabled provisioning pending_dns ready error degraded : OutboundStatus

pub record Domain : Type 0 where
  pub id : ℕ
  pub owner_id : ℕ
  pub hostname : String
  pub receiving_enabled : Bool
  pub sending_requested : Bool
  pub setup_mode : SetupMode
  pub inbound_setup_generation : ℕ
  pub status : DomainStatus
  pub ownership_verified : Bool
  pub inbound_ready : Bool
  pub outbound_ready : Bool
  pub outbound_status : OutboundStatus
  pub verified_at : Option ℕ
  pub last_checked_at : Option ℕ
  pub error_code : String
  pub error_message : String
  pub outbound_error_code : String
  pub outbound_error_message : String
  pub created_at : ℕ

abbrev pub is_disabled : DomainStatus → Bool
is_disabled DomainStatus.disabled = true
is_disabled _ = false

abbrev pub is_mode : SetupMode → SetupMode → Bool
is_mode direct_mx direct_mx = true
is_mode provider_forward provider_forward = true
is_mode _ _ = false

-- `exclude(status=DISABLED)` of the domains of one owner.
abbrev pub is_active_of : ℕ → Domain → Bool
is_active_of owner d = d.owner_id == owner && not (is_disabled d.status)

-- `order_by("created_at", "id")`
abbrev pub created_before : Domain → Domain → Bool
created_before a b =
    ltb a.created_at b.created_at || (a.created_at == b.created_at && ltb a.id b.id)
