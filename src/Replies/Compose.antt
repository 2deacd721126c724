-- ===== src/Replies/Compose.antt =====
-- `validate_composed_email` and `send_composed_email` of inbox/services/compose.py. The row of the new
-- conversation, the job and the audit row are left out.
use text.Mathlib.Text.{◌==◌ as str_eq}
use Prim.Native.Char.{code}
use operational_inbox.Common.{
  char_count, ℕ, Bool, true, false, none, some, String, [], ◌∷◌, ◌++◌, ◌==◌, ◌&&◌, not, find, leb,
  if◌then◌else◌, is_id,
}
use operational_inbox.Digest.{compose_content_digest}
use operational_inbox.Accounts.{Domain, User, is_disabled}
use operational_inbox.Accounts.Entitlements.{can_manage_domain, for_user}
use operational_inbox.Drafts.{ReplyDraft, Revision, DraftApproval, DraftKind}
use operational_inbox.Outbound.Message.{
  OutboundMessage, queued, AuthorizationMode, owner_approval, delegated_scope, agent_policy,
}
use operational_inbox.Outbound.Submission.Authorization.{is_mode}
use operational_inbox.Replies.Desk.{
  Desk, missing_row, invalid_fields, send_forbidden, idempotency_conflict, send_unavailable,
  outbound_not_ready, domain_read_only, Outcome, rejected, finished, check, Outside,
}
use operational_inbox.Replies.Checks.{revision_digest, revision_error, approval_error, is_one_line}
use operational_inbox.Replies.Writing.{lock_desk, save_revision}
use operational_inbox.Replies.Queueing.{split_address, with_capacity, queue}

-- What a caller asks to be sent.
pub record Email : Type 0 where
  pub from_address : String
  pub to_address : String
  pub subject : String
  pub body_text : String

-- The IDs and the Message-ID of the new rows.
pub record NewRows : Type 0 where
  pub conversation : ℕ
  pub draft : ℕ
  pub revision : ℕ
  pub message : ℕ
  pub rfc_message_id : String

-- `not value.strip()`
abbrev pub is_all_space : (is_space : ℕ → Bool) → String → Bool
is_all_space is_space String.[] = true
is_all_space is_space (String.◌∷◌ c s) = is_space (code c) && is_all_space is_space s

abbrev pub is_valid_address : Outside → String → Bool
is_valid_address o a = is_one_line a && o.is_valid_email a && leb (char_count a) 320

-- `validate_composed_email`
unfoldable pub is_valid_composed : Outside → Email → Bool
is_valid_composed o e =
    is_valid_address o e.from_address
    && is_valid_address o e.to_address
    && not (is_all_space o.is_space e.subject)
    && leb (char_count e.subject) 998
    && not (is_all_space o.is_space e.body_text)
    && leb (char_count e.body_text) 20000
    && is_one_line e.subject

abbrev pub email_digest : Outside → Email → ℕ
email_digest o e =
    compose_content_digest o.hashing e.from_address e.to_address e.subject e.body_text

-- The snapshot of the email: a draft of its own with one revision.
unfoldable pub new_snapshot : NewRows → Domain → ReplyDraft
new_snapshot n d = record {
  id = n.draft;
  domain_id = d.id;
  kind = DraftKind.compose;
  conversation_id = n.conversation;
  context_message = none;
  current_revision = none;
  is_stale = false;
}

unfoldable pub composed_revision :
    Outside → NewRows → (now : ℕ) → Domain → (owner : ℕ) → AuthorizationMode → Email → Revision
composed_revision o n now d owner mode e =
    let r : Revision = record {
      id = n.revision;
      domain_id = d.id;
      draft_id = n.draft;
      number = 1;
      from_address = e.from_address;
      to_address = e.to_address;
      subject = e.subject;
      body_text = e.body_text;
      content_hash = 0;
      author = some owner;
      is_agent_generated = is_mode mode delegated_scope;
      created_at = now;
    } in
    record r { content_hash = revision_digest o.hashing (new_snapshot n d) r }

unfoldable pub composed_outbound :
    NewRows → (now key : ℕ) → Domain → AuthorizationMode → Revision → Email → OutboundMessage
composed_outbound n now key d mode r e = record {
  id = n.message;
  domain_id = d.id;
  conversation_id = n.conversation;
  revision_id = r.id;
  agent_run = none;
  parent = none;
  attempt_number = 1;
  idempotency_key = some key;
  authorization_mode = mode;
  status = queued;
  from_address = e.from_address;
  to_address = e.to_address;
  subject = e.subject;
  body_text = e.body_text;
  content_hash = r.content_hash;
  rfc_message_id = n.rfc_message_id;
  provider_message_id = "";
  accepted_at = none;
  delivered_at = none;
  failed_at = none;
  error_code = "";
  error_message = "";
  created_at = now;
  updated_at = now;
}

-- The approval that an owner's own send has.
unfoldable pub approve_composed :
    ReplyDraft
    → (domain_owner owner : ℕ) → Revision
    → AuthorizationMode
    → Desk
    → (Desk → Outcome OutboundMessage)
    → Outcome OutboundMessage
approve_composed draft domain_owner owner r mode desk rest =
    let a : DraftApproval = record {
      domain_id = draft.domain_id;
      revision_id = r.id;
      approved_by = owner;
      content_hash = r.content_hash;
      invalidated_at = none;
      invalidated_reason = "";
    } in
    if is_mode mode owner_approval
    then elim (approval_error draft domain_owner desk.db.approvals r a) [
      | some e ↦ rejected e
      | none ↦
          rest (record desk { db = record desk.db { approvals = desk.db.approvals ++ a ∷ [] } })
    ]
    else rest desk

-- The rows of a new email.
unfoldable pub write_composed :
    Outside
    → NewRows
    → (now key : ℕ) → Domain
    → (owner : ℕ) → AuthorizationMode
    → Email
    → Desk
    → Outcome OutboundMessage
write_composed o n now key d owner mode e desk =
    let draft = new_snapshot n d in
    let r = composed_revision o n now d owner mode e in
    let started = record desk.db { drafts = desk.db.drafts ++ draft ∷ [] } in
    elim (revision_error o draft desk.db.revisions r) [
      | some error ↦ rejected error
      | none ↦
          let snapshot = record draft { current_revision = some r.id } in
          approve_composed snapshot d.owner_id owner r mode
            (record desk { db = save_revision r started })
            (queue o snapshot r (composed_outbound n now key d mode r e))
    ]

-- An email whose key is new: what the plan and the domain must allow.
unfoldable pub compose_new :
    Outside
    → NewRows
    → (now key : ℕ) → Domain
    → User
    → AuthorizationMode
    → Email
    → Desk
    → Outcome OutboundMessage
compose_new o n now key d owner mode e desk =
    check (can_manage_domain o.settings desk.db.profiles desk.db.domains owner d) domain_read_only (
      check ((for_user o.settings desk.db.profiles owner).outbound && not (is_disabled d.status))
        send_unavailable
        (check (d.ownership_verified && d.outbound_ready) outbound_not_ready
          (with_capacity o now d desk (write_composed o n now key d owner.id mode e))))

abbrev pub has_idempotency_key : (domain key : ℕ) → OutboundMessage → Bool
has_idempotency_key domain key m = m.domain_id == domain && is_id m.idempotency_key key

abbrev pub is_own_domain : (domain owner : ℕ) → Domain → Bool
is_own_domain domain owner d = d.id == domain && d.owner_id == owner

-- The host of the From address is the domain's.
unfoldable pub is_sent_from : Outside → String → Domain → Bool
is_sent_from o address d = elim (split_address address) [
  | none ↦ false
  | some (local, host) ↦ str_eq (o.casefold host) (o.casefold d.hostname)
]

-- A send that is repeated under its key, or a new one.
unfoldable pub compose_once :
    Outside
    → NewRows
    → (now key : ℕ) → Domain
    → User
    → AuthorizationMode
    → Email
    → Desk
    → Outcome OutboundMessage
compose_once o n now key d owner mode e desk =
    elim (find (has_idempotency_key d.id key) desk.db.outbound) [
      | some m ↦ check (m.content_hash == email_digest o e) idempotency_conflict (finished m desk)
      | none ↦ compose_new o n now key d owner mode e desk
    ]

-- `send_composed_email`, for the domain as the caller read it.
unfoldable pub send_composed_email :
    Outside
    → NewRows
    → (now key : ℕ) → Domain
    → User
    → AuthorizationMode
    → Email
    → Desk
    → Outcome OutboundMessage
send_composed_email o n now key domain owner mode e desk =
    check (is_valid_composed o e) invalid_fields (
      check (domain.owner_id == owner.id && owner.is_active) send_forbidden (
        check (not (is_mode mode agent_policy)) invalid_fields (
          let locked = lock_desk owner.id desk in
          elim (find (is_own_domain domain.id owner.id) locked.db.domains) [
            | none ↦ rejected missing_row
            | some d ↦
                check (is_sent_from o e.from_address d) invalid_fields
                  (compose_once o n now key d owner mode e locked)
          ])))
