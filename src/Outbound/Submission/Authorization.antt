-- ===== src/Outbound/Submission/Authorization.antt =====
-- `_authorization_error` of inbox/services/outbound.py: a queued message is checked once more just
-- before it is submitted. `casefold` is Python's; `policy_error` is the check of the built-in
-- agent (inbox/services/handling.py), which applies to its own sends only. A missing row, which the
-- foreign keys exclude, counts as a refusal.
use operational_inbox.Common.{
  ℕ, Bool, true, false, Option, none, some, String, List, ◌==◌, ◌&&◌, ◌||◌, not, find, any,
  if◌then◌else◌, is_id, is_none,
}
use text.Mathlib.Text.{◌==◌ as str_eq}
use operational_inbox.Settings.{Settings}
use operational_inbox.Digest.{Hashing, compose_content_digest}
use operational_inbox.Accounts.{Domain, User, is_disabled}
use operational_inbox.Accounts.Entitlements.{can_manage_domain}
use operational_inbox.Drafts.{ReplyDraft, Revision, DraftApproval, is_compose}
use operational_inbox.Outbound.Message.{
  OutboundMessage, AuthorizationMode, owner_approval, delegated_scope, agent_policy,
}
use operational_inbox.Outbound.Submission.Address.{address_domain}
use operational_inbox.Database.{Database, domain_of}

abbrev pub is_mode : AuthorizationMode → AuthorizationMode → Bool
is_mode owner_approval owner_approval = true
is_mode delegated_scope delegated_scope = true
is_mode agent_policy agent_policy = true
is_mode _ _ = false

abbrev pub revision_of : ℕ → Database → Option Revision
revision_of k db = find (λ (r : Revision). r.id == k) db.revisions

abbrev pub draft_of : ℕ → Database → Option ReplyDraft
draft_of k db = find (λ (d : ReplyDraft). d.id == k) db.drafts

abbrev pub user_of : ℕ → Database → Option User
user_of k db = find (λ (u : User). u.id == k) db.users

-- A composed message and its revision agree in every field, and with their digest.
unfoldable pub matches_snapshot : Hashing → OutboundMessage → Revision → Bool
matches_snapshot h m r =
    str_eq m.from_address r.from_address
    && str_eq m.to_address r.to_address
    && str_eq m.subject r.subject
    && str_eq m.body_text r.body_text
    && m.content_hash == r.content_hash
    && m.content_hash == compose_content_digest h m.from_address m.to_address m.subject m.body_text

-- An approval of this revision with this content that nothing has invalidated.
unfoldable pub has_active_approval : OutboundMessage → List DraftApproval → Bool
has_active_approval m = any λ (a : DraftApproval).
    a.revision_id == m.revision_id && is_none a.invalidated_at && a.content_hash == m.content_hash

-- The domain's own state allows sending from the address.
unfoldable pub is_domain_ready : (casefold : String → String) → OutboundMessage → Domain → Bool
is_domain_ready casefold m d =
    str_eq d.hostname (casefold (address_domain m.from_address))
    && not (is_disabled d.status)
    && d.outbound_ready
    && d.ownership_verified

unfoldable pub authorization_error :
    Hashing
    → (casefold : String → String) → (policy_error : Database → OutboundMessage → Option String)
    → Settings
    → Database
    → OutboundMessage
    → Option String
unfolding matches_snapshot has_active_approval is_domain_ready can_manage_domain
authorization_error h casefold policy_error s db m =
    let policy = if is_mode m.authorization_mode agent_policy then policy_error db m else none in
    elim policy [
      | some error ↦ some error
      | none ↦ elim (revision_of m.revision_id db) [
        | none ↦ some "missing row"
        | some r ↦ elim (draft_of r.draft_id db) [
          | none ↦ some "missing row"
          | some draft ↦
              if not (is_id draft.current_revision m.revision_id) || draft.is_stale
              then some "The exact draft revision is no longer current."
              else if is_compose draft.kind && not (matches_snapshot h m r)
              then some "The email no longer matches its exact send snapshot."
              else if is_mode m.authorization_mode owner_approval
                  && not (has_active_approval m db.approvals)
              then some "The exact-revision approval is no longer active."
              else elim (domain_of m.domain_id db) [
                | none ↦ some "Outbound sending is no longer ready for this domain."
                | some d ↦
                    if not (is_domain_ready casefold m d)
                    then some "Outbound sending is no longer ready for this domain."
                    else elim (user_of d.owner_id db) [
                      | none ↦ some "missing row"
                      | some owner ↦
                          if not owner.is_active
                          then some "The domain owner is not active."
                          else if not (can_manage_domain s db.profiles db.domains owner d)
                          then some
                              "Outbound authorization was revoked because this domain is read-only."
                          else none
                    ]
              ]
        ]
      ]
    ]
