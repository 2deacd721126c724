-- ===== src/Replies/Sending.antt =====
-- `approve_exact_revision`, `send_exact_revision` and `resend_outbound` of inbox/services/drafts.py.
use operational_inbox.Common.{
  ℕ, Bool, Option, none, some, List, [], ◌∷◌, ◌++◌, ◌==◌, ◌&&◌, ◌+◌, not, is_id, is_none, first,
  order_by, filter, leb, count,
}
use operational_inbox.Accounts.{User}
use operational_inbox.Accounts.Entitlements.{can_manage_domain}
use operational_inbox.Drafts.{ReplyDraft, Revision, DraftApproval, is_compose}
use operational_inbox.Database.{domain_of, change_outbound}
use operational_inbox.Outbound.Message.{
  OutboundMessage, queued, AuthorizationMode, owner_approval, delegated_scope, agent_policy,
}
use operational_inbox.Outbound.Submission.{is_failed_or_unknown}
use operational_inbox.Outbound.Submission.Authorization.{revision_of, draft_of}
use operational_inbox.Outbound.Workers.Steps.{adopt}
use operational_inbox.Replies.Desk.{
  Desk, missing_row, not_a_reply, not_the_owner, domain_read_only, draft_changed, draft_stale,
  content_changed, approval_invalid, not_resendable, Outcome, rejected, finished, check, Outside,
}
use operational_inbox.Replies.Checks.{approval_error, approval_of}
use operational_inbox.Replies.Writing.{lock_desk, interrupt_desk}
use operational_inbox.Replies.Queueing.{with_capacity, queue, NewSend, outbound_for_revision}

-- `revision.outbound_messages.order_by("attempt_number").first()`
abbrev pub is_send_of : (revision : ℕ) → OutboundMessage → Bool
is_send_of revision m = m.revision_id == revision

abbrev pub attempted_first : OutboundMessage → OutboundMessage → Bool
attempted_first a b = leb a.attempt_number b.attempt_number

unfoldable pub first_send : (revision : ℕ) → List OutboundMessage → Option OutboundMessage
first_send revision outbound =
    first (order_by attempted_first (filter (is_send_of revision) outbound))

-- The message that is there already, or a new one.
unfoldable pub send_once :
    Outside
    → NewSend
    → (now : ℕ) → AuthorizationMode
    → ReplyDraft
    → Revision
    → Desk
    → Outcome OutboundMessage
send_once o n now mode draft r desk = elim (first_send r.id desk.db.outbound) [
  | some m ↦
      finished (adopt mode now m)
        (record desk { db = change_outbound m.id (adopt mode now) desk.db })
  | none ↦ outbound_for_revision o n now mode draft r desk
]

-- The guards that approving and sending share, and the interruption of the agent.
unfoldable pub with_exact :
    Outside
    → (draft_id revision_id content_hash : ℕ) → (owner : User) → Desk
    → (ReplyDraft → Revision → Desk → Outcome OutboundMessage)
    → Outcome OutboundMessage
with_exact o draft_id revision_id content_hash owner desk rest =
    let locked = lock_desk owner.id desk in
    elim (draft_of draft_id locked.db) [
      | none ↦ rejected missing_row
      | some draft ↦ check (not (is_compose draft.kind)) not_a_reply (
          check (is_id draft.current_revision revision_id) draft_changed
            (elim (revision_of revision_id locked.db) [
              | none ↦ rejected draft_changed
              | some r ↦ check (not draft.is_stale) draft_stale (
                  check (r.content_hash == content_hash) content_changed
                    (elim (domain_of draft.domain_id locked.db) [
                      | none ↦ rejected missing_row
                      | some d ↦ check (d.owner_id == owner.id) not_the_owner (
                          check
                            (can_manage_domain o.settings locked.db.profiles locked.db.domains owner
                              d)
                            domain_read_only
                            (rest draft r (interrupt_desk draft.conversation_id locked)))
                    ]))
            ]))
    ]

-- The approval that is there must be this one; a missing one is made.
abbrev pub is_own_approval : (content_hash owner : ℕ) → DraftApproval → Bool
is_own_approval content_hash owner a =
    is_none a.invalidated_at && a.content_hash == content_hash && a.approved_by == owner

unfoldable pub ensure_approval :
    (content_hash : ℕ) (owner : User)
    → ReplyDraft
    → Revision
    → Desk
    → (Desk → Outcome OutboundMessage)
    → Outcome OutboundMessage
ensure_approval content_hash owner draft r desk rest = elim (approval_of r.id desk.db.approvals) [
  | some a ↦ check (is_own_approval content_hash owner.id a) approval_invalid (rest desk)
  | none ↦
      let a : DraftApproval = record {
        domain_id = draft.domain_id;
        revision_id = r.id;
        approved_by = owner.id;
        content_hash = content_hash;
        invalidated_at = none;
        invalidated_reason = "";
      } in
      elim (domain_of draft.domain_id desk.db) [
        | none ↦ rejected missing_row
        | some d ↦ elim (approval_error draft d.owner_id desk.db.approvals r a) [
          | some e ↦ rejected e
          | none ↦
              rest (record desk { db = record desk.db { approvals = desk.db.approvals ++ a ∷ [] } })
        ]
      ]
]

unfoldable pub approve_exact_revision :
    Outside
    → NewSend
    → (now draft_id revision_id content_hash : ℕ) → (owner : User) → Desk
    → Outcome OutboundMessage
approve_exact_revision o n now draft_id revision_id content_hash owner desk =
    with_exact o draft_id revision_id content_hash owner desk λ draft r ready.
      ensure_approval content_hash owner draft r ready (send_once o n now owner_approval draft r)

unfoldable pub send_exact_revision :
    Outside
    → NewSend
    → (now draft_id revision_id content_hash : ℕ) → (owner : User) → Desk
    → Outcome OutboundMessage
send_exact_revision o n now draft_id revision_id content_hash owner desk =
    with_exact o draft_id revision_id content_hash owner desk (send_once o n now delegated_scope)

-- A resend of an agent's message is the owner's or the delegate's own.
abbrev pub resend_mode : AuthorizationMode → AuthorizationMode
resend_mode agent_policy = delegated_scope
resend_mode mode = mode

unfoldable pub new_resend : NewSend → (now attempt : ℕ) → OutboundMessage → OutboundMessage
new_resend n now attempt m = record m {
  id = n.id;
  agent_run = none;
  parent = some m.id;
  attempt_number = attempt;
  idempotency_key = none;
  authorization_mode = resend_mode m.authorization_mode;
  status = queued;
  rfc_message_id = n.rfc_message_id;
  provider_message_id = "";
  accepted_at = none;
  delivered_at = none;
  failed_at = none;
  error_code = "";
  error_message = "";
  created_at = now;
  updated_at = now;
}

-- `resend_outbound`, for the message as the caller read it.
unfoldable pub resend_outbound :
    Outside
    → NewSend
    → (now : ℕ) → OutboundMessage
    → (owner : User) → Desk
    → Outcome OutboundMessage
resend_outbound o n now original owner desk =
    let locked = lock_desk owner.id desk in
    elim (domain_of original.domain_id locked.db) [
      | none ↦ rejected missing_row
      | some d ↦ check (d.owner_id == owner.id) not_the_owner (
          check (can_manage_domain o.settings locked.db.profiles locked.db.domains owner d)
            domain_read_only
            (check (is_failed_or_unknown original.status) not_resendable (
              with_capacity o now d (interrupt_desk original.conversation_id locked) λ ready.
                elim (revision_of original.revision_id ready.db) [
                  | none ↦ rejected missing_row
                  | some r ↦ elim (draft_of r.draft_id ready.db) [
                    | none ↦ rejected missing_row
                    | some draft ↦
                        queue o draft r
                          (new_resend n now (count (is_send_of r.id) ready.db.outbound + 1)
                            original)
                          ready
                  ]
                ])))
    ]
