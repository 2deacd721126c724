-- ===== src/Drafts/Revisions.antt =====
-- `class ReplyDraft`, `class ReplyDraftRevision` and `class DraftApproval` of inbox/models.py.
use operational_inbox.Common.{ℕ, Bool, true, false, Option, String}

pub data DraftKind : Type 0 where
  reply compose : DraftKind

pub record ReplyDraft : Type 0 where
  pub id : ℕ
  pub domain_id : ℕ
  pub kind : DraftKind
  pub conversation_id : ℕ
  pub context_message : Option ℕ
  pub current_revision : Option ℕ
  pub is_stale : Bool

pub record Revision : Type 0 where
  pub id : ℕ
  pub domain_id : ℕ
  pub draft_id : ℕ
  pub number : ℕ
  pub from_address : String
  pub to_address : String
  pub subject : String
  pub body_text : String
  pub content_hash : ℕ
  pub author : Option ℕ
  pub is_agent_generated : Bool
  pub created_at : ℕ

pub record DraftApproval : Type 0 where
  pub domain_id : ℕ
  pub revision_id : ℕ
  pub approved_by : ℕ
  pub content_hash : ℕ
  pub invalidated_at : Option ℕ
  pub invalidated_reason : String

abbrev pub is_compose : DraftKind → Bool
is_compose compose = true
is_compose reply = false
