-- ===== src/Replies/Desk.antt =====
-- The tables that the draft services read and write, their errors, and what they take from outside.
use operational_inbox.Common.{ℕ, Bool, true, false, Option, String, List, ◌==◌, find}
use operational_inbox.Settings.{Settings}
use operational_inbox.Digest.{Hashing}
use operational_inbox.Outbound.Quota.{QuotaError}
use operational_inbox.Outbound.Quota.Month.{Calendar}
use operational_inbox.Drafts.{Revision}
use operational_inbox.Outbound.Message.{OutboundMessage}
use operational_inbox.Database.{Database}
use operational_inbox.Handling.States.{HandlingState}

-- `class Message`, by what a reply takes from it.
pub record Inbound : Type 0 where
  pub id : ℕ
  pub domain_id : ℕ
  pub conversation_id : ℕ
  pub from_address : String
  pub reply_to_address : String
  pub is_quarantined : Bool

-- `class MessageRecipient`
pub record Recipient : Type 0 where
  pub message_id : ℕ
  pub address : String
  pub is_routing_recipient : Bool

-- `class InboundRoute`, by its address.
pub record RouteAddress : Type 0 where
  pub domain_id : ℕ
  pub address : String

pub record Desk : Type 0 where
  pub db : Database
  pub messages : List Inbound
  pub recipients : List Recipient
  pub routes : List RouteAddress
  pub handling : List HandlingState

-- The validation errors, by their texts in the source. `invalid_fields` is one of Django's own field
-- validators, `missing_row` a row that `get` does not find.
pub data DraftError : Type 0 where
  missing_row invalid_fields not_a_reply not_the_owner domain_read_only quarantined draft_changed
        draft_stale content_changed approval_invalid no_context no_routing_recipient
        malformed_address outbound_not_ready not_resendable line_breaks wrong_domain
        addresses_missing addresses_given hash_mismatch approval_missing revision_not_current
        duplicate send_forbidden idempotency_conflict send_unavailable required :
      DraftError
  quota : QuotaError → DraftError

-- An error rolls the transaction back.
pub data Outcome (A : Type 0) : Type 0 where
  rejected : DraftError → Outcome A
  finished : A → Desk → Outcome A

-- `if not test: raise ValidationError(…)`
abbrev pub check : {A : Type 0} → Bool → DraftError → Outcome A → Outcome A
check true e rest = rest
check false e rest = rejected e

-- Django's validators, Python's `casefold` and `isspace`, `datetime` and SHA-256, and the configuration.
pub record Outside : Type 0 where
  pub settings : Settings
  pub hashing : Hashing
  pub calendar : Calendar
  pub casefold : String → String
  pub is_space : ℕ → Bool
  pub is_valid_email : String → Bool
  pub is_valid_revision : Revision → Bool
  pub is_valid_outbound : OutboundMessage → Bool

abbrev pub message_of : ℕ → Desk → Option Inbound
message_of k desk = find (λ (m : Inbound). m.id == k) desk.messages
