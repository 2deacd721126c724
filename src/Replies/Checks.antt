-- ===== src/Replies/Checks.antt =====
-- The `clean` and `save` methods of the rows that the draft services write (inbox/models.py), and the
-- uniqueness constraints that `full_clean` checks.
use Prim.Native.Char.{code}
use text.Mathlib.Text.{◌==◌ as str_eq}
use operational_inbox.Common.{
  ℕ, Bool, true, false, Option, none, some, String, List, [], ◌∷◌, ◌==◌, ◌&&◌, ◌||◌, not, find, any,
  if◌then◌else◌, is_id, is_none,
}
use operational_inbox.Digest.{Hashing, content_digest, compose_content_digest}
use operational_inbox.Drafts.{ReplyDraft, Revision, DraftApproval, is_compose}
use operational_inbox.Outbound.Message.{OutboundMessage, owner_approval}
use operational_inbox.Outbound.Submission.Authorization.{is_mode}
use operational_inbox.Replies.Desk.{
  DraftError, invalid_fields, line_breaks, wrong_domain, addresses_missing, addresses_given,
  hash_mismatch, approval_missing, revision_not_current, duplicate, not_the_owner, Outside,
}

-- `reject_header_injection`: no carriage return and no line feed.
abbrev pub is_one_line : String → Bool
is_one_line String.[] = true
is_one_line (String.◌∷◌ c s) = not (code c == 13 || code c == 10) && is_one_line s

abbrev pub is_blank : String → Bool
is_blank s = str_eq s ""

-- The first error of a list of tests.
abbrev pub first_error : List (Bool × DraftError) → Option DraftError
first_error [] = none
first_error ((ok, e) ∷ rest) = if ok then first_error rest else some e

-- The digest that `ReplyDraftRevision.save` stores.
unfoldable pub revision_digest : Hashing → ReplyDraft → Revision → ℕ
revision_digest h d r =
    if is_compose d.kind
    then compose_content_digest h r.from_address r.to_address r.subject r.body_text
    else content_digest h (r.subject ∷ r.body_text ∷ [])

-- `full_clean` of a new revision: the fields, `clean` and the number, unique within the draft.
unfoldable pub revision_error : Outside → ReplyDraft → List Revision → Revision → Option DraftError
revision_error o d revisions r = first_error (
    (o.is_valid_revision r, invalid_fields)
    ∷ (r.domain_id == d.domain_id, wrong_domain)
    ∷ (is_one_line r.subject, line_breaks)
    ∷ (
      not (is_compose d.kind) || not (is_blank r.from_address || is_blank r.to_address),
      addresses_missing,
    )
    ∷ (
      not (is_compose d.kind) || (is_one_line r.from_address && is_one_line r.to_address),
      line_breaks,
    )
    ∷ (is_compose d.kind || (is_blank r.from_address && is_blank r.to_address), addresses_given)
    ∷ (
      not (any (λ (x : Revision). x.draft_id == r.draft_id && x.number == r.number) revisions),
      duplicate,
    )
    ∷ [])

-- `full_clean` of a new approval.
unfoldable pub approval_error :
    ReplyDraft → (owner : ℕ) → List DraftApproval → Revision → DraftApproval → Option DraftError
approval_error d owner approvals r a = first_error (
    (a.domain_id == d.domain_id, wrong_domain)
    ∷ (is_id d.current_revision a.revision_id, revision_not_current)
    ∷ (a.content_hash == r.content_hash, hash_mismatch)
    ∷ (a.approved_by == owner, not_the_owner)
    ∷ (not (any (λ (x : DraftApproval). x.revision_id == a.revision_id) approvals), duplicate)
    ∷ [])

-- `self.revision.approval`
abbrev pub approval_of : ℕ → List DraftApproval → Option DraftApproval
approval_of revision = find (λ (a : DraftApproval). a.revision_id == revision)

abbrev pub is_live_approval : (hash : ℕ) → Option DraftApproval → Bool
is_live_approval hash none = false
is_live_approval hash (some a) = is_none a.invalidated_at && a.content_hash == hash

-- What a new message may be sent under.
unfoldable pub is_covered : ReplyDraft → List DraftApproval → OutboundMessage → Bool
is_covered d approvals m =
    is_id d.current_revision m.revision_id
    && (if is_mode m.authorization_mode owner_approval
        then is_live_approval m.content_hash (approval_of m.revision_id approvals)
        else not d.is_stale)

unfoldable pub outbound_digest : Hashing → ReplyDraft → OutboundMessage → ℕ
outbound_digest h d m =
    if is_compose d.kind
    then compose_content_digest h m.from_address m.to_address m.subject m.body_text
    else content_digest h (m.subject ∷ m.body_text ∷ [])

abbrev pub is_same_send : OutboundMessage → OutboundMessage → Bool
is_same_send m x = x.revision_id == m.revision_id && x.attempt_number == m.attempt_number

abbrev pub is_same_key : OutboundMessage → OutboundMessage → Bool
is_same_key m x = elim m.idempotency_key [
  | none ↦ false
  | some k ↦ x.domain_id == m.domain_id && is_id x.idempotency_key k
]

-- `full_clean` of a new message.
unfoldable pub outbound_error :
    Outside
    → ReplyDraft
    → Revision
    → List DraftApproval
    → List OutboundMessage
    → OutboundMessage
    → Option DraftError
outbound_error o d r approvals outbound m = first_error (
    (o.is_valid_outbound m, invalid_fields)
    ∷ (is_one_line m.subject && is_one_line m.from_address && is_one_line m.to_address, line_breaks)
    ∷ (m.content_hash == r.content_hash, hash_mismatch)
    ∷ (m.content_hash == outbound_digest o.hashing d m, hash_mismatch)
    ∷ (
      not (is_compose d.kind)
          || (str_eq m.from_address r.from_address && str_eq m.to_address r.to_address),
      wrong_domain,
    )
    ∷ (is_covered d approvals m, approval_missing)
    ∷ (not (any (is_same_send m) outbound || any (is_same_key m) outbound), duplicate)
    ∷ [])
