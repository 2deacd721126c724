-- ===== src/Outbound/Message.antt =====
-- `class OutboundMessage` and `class OutboundControl` of inbox/models.py.
use operational_inbox.Common.{ℕ, Bool, true, false, Option, String}

pub data AuthorizationMode : Type 0 where
  owner_approval delegated_scope agent_policy : AuthorizationMode

pub data OutboundState : Type 0 where
  queued submitting accepted delivered failed unknown bounced complained : OutboundState

pub record OutboundMessage : Type 0 where
  pub id : ℕ
  pub domain_id : ℕ
  pub conversation_id : ℕ
  pub revision_id : ℕ
  pub agent_run : Option ℕ
  pub parent : Option ℕ
  pub attempt_number : ℕ
  pub idempotency_key : Option ℕ
  pub authorization_mode : AuthorizationMode
  pub status : OutboundState
  pub from_address : String
  pub to_address : String
  pub subject : String
  pub body_text : String
  pub content_hash : ℕ
  pub rfc_message_id : String
  pub provider_message_id : String
  pub accepted_at : Option ℕ
  pub delivered_at : Option ℕ
  pub failed_at : Option ℕ
  pub error_code : String
  pub error_message : String
  pub created_at : ℕ
  pub updated_at : ℕ

-- The account's pause switch, which also serves as its lock.
pub record OutboundControl : Type 0 where
  pub user_id : ℕ
  pub is_paused : Bool
  pub paused_at : Option ℕ

abbrev pub is_queued : OutboundState → Bool
is_queued queued = true
is_queued _ = false

abbrev pub is_submitting : OutboundState → Bool
is_submitting submitting = true
is_submitting _ = false
