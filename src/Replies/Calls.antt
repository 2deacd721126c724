-- ===== src/Replies/Calls.antt =====
-- The calls of inbox/services/drafts.py in any order, and what a call that is not refused leaves. A
-- resend, which queues another message on purpose, is not among the calls.
use operational_inbox.Common.{
  ℕ, true, false, none, String, List, [], ◌∷◌, ◌++◌, ◌==◌, ◌&&◌, ◌≡◌, refl, ◌∙◌, arith, find, count,
  Option-cases, inl, inr,
}
use operational_inbox.Accounts.{Domain, User}
use operational_inbox.Drafts.{ReplyDraft, Revision, DraftApproval}
use operational_inbox.Database.{domain_of}
use operational_inbox.Outbound.Message.{OutboundMessage, AuthorizationMode}
use operational_inbox.Outbound.Submission.Authorization.{revision_of, draft_of}
use operational_inbox.Replies.Desk.{
  Desk, Outcome, rejected, finished, Outside, message_of, Recipient,
}
use operational_inbox.Replies.Checks.{approval_of}
use operational_inbox.Replies.Writing.{
  create_draft, revise_draft, add_revision, save_revision, supersede, next_revision, lock_desk,
  interrupt_desk, new_draft, new_revision, Writing,
}
use operational_inbox.Replies.Queueing.{
  NewSend, sender_of, new_outbound, with_capacity, queue, outbound_for_revision, append,
  reply_address,
}
use operational_inbox.Replies.Sending.{
  is_send_of, with_exact, ensure_approval, approve_exact_revision, send_exact_revision,
}
use operational_inbox.Replies.Composed.{with_capacity-finished}

-- The calls, with the fresh IDs and the times at which they run.
pub data Call : Type 0 where
  create_call : (draft_id revision_id now message : ℕ) → User → (subject body_text : String) → Call
  revise_call : (revision_id now draft_id : ℕ) → User → (subject body_text : String) → Call
  approve_call : NewSend → (now draft_id revision_id content_hash : ℕ) → User → Call
  send_call : NewSend → (now draft_id revision_id content_hash : ℕ) → User → Call

-- A call that is refused leaves the tables as they were.
abbrev pub committed : {A : Type 0} → Desk → Outcome A → Desk
committed desk (rejected e) = desk
committed desk (finished m desk') = desk'

unfoldable pub run_call : Outside → Call → Desk → Desk
run_call o (create_call d r now message owner subject body) desk =
    committed desk (create_draft o d r now message owner subject body desk)
run_call o (revise_call r now d owner subject body) desk =
    committed desk (revise_draft o r now d owner subject body desk)
run_call o (approve_call n now d r hash owner) desk =
    committed desk (approve_exact_revision o n now d r hash owner desk)
run_call o (send_call n now d r hash owner) desk =
    committed desk (send_exact_revision o n now d r hash owner desk)

unfoldable pub run_calls : Outside → List Call → Desk → Desk
run_calls o [] desk = desk
run_calls o (c ∷ calls) desk = run_calls o calls (run_call o c desk)

-- The messages of a revision.
unfoldable pub sends : (revision : ℕ) → Desk → ℕ
sends k desk = count (is_send_of k) desk.db.outbound

pub with_exact-finished :
    (o : Outside) (draft_id revision_id hash : ℕ) (owner : User) (desk desk' : Desk)
    (rest : ReplyDraft → Revision → Desk → Outcome OutboundMessage) (m : OutboundMessage)
    → with_exact o draft_id revision_id hash owner desk rest ≡ finished m desk'
    → (draft : ReplyDraft) × (r : Revision) × (ready : Desk) × (ready.db.outbound
        ≡ desk.db.outbound)
      × (rest draft r ready ≡ finished m desk')
unfolding with_exact
with_exact-finished o draft_id revision_id hash owner desk desk' rest m h =
    elim (Option-cases (draft_of draft_id desk.db)) [
      | inl missing ↦ absurd (ground arith)
      | inr (draft, here) ↦ elim (Option-cases (revision_of revision_id desk.db)) [
        | inl missing ↦ absurd (ground arith)
        | inr (r, found) ↦ (
          draft,
          r,
          interrupt_desk draft.conversation_id (lock_desk owner.id desk),
          refl,
          ground arith,
        )
      ]
    ]

pub ensure_approval-finished :
    (hash : ℕ) (owner : User) (draft : ReplyDraft) (r : Revision) (desk desk' : Desk)
    (rest : Desk → Outcome OutboundMessage) (m : OutboundMessage)
    → ensure_approval hash owner draft r desk rest ≡ finished m desk'
    → (ready : Desk) × (ready.db.outbound ≡ desk.db.outbound) × (rest ready ≡ finished m desk')
unfolding ensure_approval
ensure_approval-finished hash owner draft r desk desk' rest m h =
    elim (Option-cases (approval_of r.id desk.db.approvals)) [
      | inr (a, here) ↦ (desk, refl, ground arith)
      | inl missing ↦
          let a : DraftApproval = record {
            domain_id = draft.domain_id;
            revision_id = r.id;
            approved_by = owner.id;
            content_hash = hash;
            invalidated_at = none;
            invalidated_reason = "";
          } in
          (
            record desk { db = record desk.db { approvals = desk.db.approvals ++ a ∷ [] } },
            refl,
            ground arith,
          )
    ]

queued_last :
    (o : Outside) (draft : ReplyDraft) (r : Revision) (m m' : OutboundMessage) (desk desk' : Desk)
    → queue o draft r m desk ≡ finished m' desk'
    → desk'.db.outbound ≡ desk.db.outbound ++ m ∷ []
unfolding queue
queued_last o draft r m m' desk desk' h = ground arith

-- The last step of `outbound_for_revision`.
counted_queue :
    (o : Outside) (n : NewSend) (now : ℕ) (mode : AuthorizationMode) (draft : ReplyDraft)
    (r : Revision) (d : Domain) (from to : String) (desk desk' : Desk) (m : OutboundMessage)
    → with_capacity o now d desk
        (queue o draft r (new_outbound n.id now n.rfc_message_id from to mode draft r))
      ≡ finished m desk'
    → (x : OutboundMessage) × (x.revision_id ≡ r.id)
      × (desk'.db.outbound ≡ desk.db.outbound ++ x ∷ [])
unfolding new_outbound
counted_queue o n now mode draft r d from to desk desk' m h =
    let x = new_outbound n.id now n.rfc_message_id from to mode draft r in
    let (controls, w) = with_capacity-finished o now d desk desk' (queue o draft r x) m h in
    (
      x,
      refl,
      queued_last o draft r x m (record desk { db = record desk.db { controls = controls } }) desk'
          w,
    )

pub outbound-finished :
    (o : Outside) (n : NewSend) (now : ℕ) (mode : AuthorizationMode) (draft : ReplyDraft)
    (r : Revision) (desk desk' : Desk) (m : OutboundMessage)
    → outbound_for_revision o n now mode draft r desk ≡ finished m desk'
    → (x : OutboundMessage) × (x.revision_id ≡ r.id)
      × (desk'.db.outbound ≡ desk.db.outbound ++ x ∷ [])
unfolding outbound_for_revision
outbound-finished o n now mode draft r desk desk' m h = elim (Option-cases draft.context_message) [
  | inl e ↦ absurd (ground arith)
  | inr (k, given) ↦ elim (Option-cases (message_of k desk)) [
    | inl e ↦ absurd (ground arith)
    | inr (context, here) ↦
        elim (Option-cases (
          find (λ (x : Recipient). x.message_id == context.id && x.is_routing_recipient)
            desk.recipients)) [
              | inl e ↦ absurd (ground arith)
              | inr (routing, routed) ↦ elim (Option-cases (sender_of draft routing.address desk)) [
                | inl e ↦ absurd (ground arith)
                | inr ((local, sending), sent) ↦
                    elim (Option-cases (domain_of draft.domain_id desk.db)) [
                      | inl e ↦ absurd (ground arith)
                      | inr (d, owned) ↦
                          counted_queue o n now mode draft r d
                            (append local (append "@" sending.hostname)) (reply_address context)
                            desk desk' m (ground arith)
                    ]
              ]
            ]
  ]
]

added-outbound :
    (o : Outside) (d : ReplyDraft) (r r' : Revision) (desk desk' : Desk)
    → add_revision o d r desk ≡ finished r' desk'
    → desk'.db.outbound ≡ desk.db.outbound
unfolding add_revision save_revision
added-outbound o d r r' desk desk' e = ground arith

pub create_draft-outbound :
    (o : Outside) (draft_id revision_id now message : ℕ) (owner : User) (subject body : String)
    (desk desk' : Desk) (r : Revision)
    → create_draft o draft_id revision_id now message owner subject body desk ≡ finished r desk'
    → desk'.db.outbound ≡ desk.db.outbound
unfolding create_draft
create_draft-outbound o draft_id revision_id now message owner subject body desk desk' r e =
    elim (Option-cases (message_of message desk)) [
      | inl missing ↦ absurd (ground arith)
      | inr (m, here) ↦
          let draft = new_draft draft_id m in
          let w : Writing = record {
            subject = subject;
            body_text = body;
            author = owner.id;
            is_agent_generated = true;
          } in
          elim (Option-cases (domain_of m.domain_id desk.db)) [
            | inl missing ↦ absurd (ground arith)
            | inr (d, owned) ↦
                added-outbound o draft (new_revision o revision_id 1 now draft w) r
                  (record desk { db = record desk.db { drafts = desk.db.drafts ++ draft ∷ [] } })
                  desk' (ground arith)
          ]
    ]

next_revision-outbound :
    (draft : ReplyDraft) (now : ℕ) (desk : Desk)
    → (next_revision draft now desk).1.db.outbound ≡ desk.db.outbound
unfolding next_revision supersede
next_revision-outbound draft now desk = ground arith

pub revise_draft-outbound :
    (o : Outside) (revision_id now draft_id : ℕ) (owner : User) (subject body : String)
    (desk desk' : Desk) (r : Revision)
    → revise_draft o revision_id now draft_id owner subject body desk ≡ finished r desk'
    → desk'.db.outbound ≡ desk.db.outbound
unfolding revise_draft
revise_draft-outbound o revision_id now draft_id owner subject body desk desk' r e =
    elim (Option-cases (draft_of draft_id desk.db)) [
      | inl missing ↦ absurd (ground arith)
      | inr (draft, here) ↦
          let ready = interrupt_desk draft.conversation_id (lock_desk owner.id desk) in
          let (number, cleared) = next_revision draft now ready in
          let w : Writing = record {
            subject = subject;
            body_text = body;
            author = owner.id;
            is_agent_generated = false;
          } in
          elim (Option-cases (domain_of draft.domain_id desk.db)) [
            | inl missing ↦ absurd (ground arith)
            | inr (d, owned) ↦
                added-outbound o draft (new_revision o revision_id number now draft w) r cleared
                  desk' (ground arith)
                ∙ next_revision-outbound draft now ready
          ]
    ]
