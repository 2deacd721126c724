-- ===== src/Replies/SentOnce.antt =====
-- How many messages the calls of inbox/services/drafts.py queue for one revision. A resend, which
-- queues another message on purpose, is not among the calls.
use operational_inbox.Common.{
  ℕ, suc, none, List, [], ◌∷◌, ◌++◌, ◌==◌, ◌≤◌, ◌≡◌, refl, sym, ◌∙◌, arith, filter, count, length,
  first, order_by, update_where, if◌then◌else◌, Option-cases, inl, inr, length-order_by,
  length-filter,
}
use operational_inbox.Accounts.{User}
use operational_inbox.Drafts.{ReplyDraft, Revision}
use operational_inbox.Database.{has_id}
use operational_inbox.Outbound.Message.{
  OutboundMessage, AuthorizationMode, owner_approval, delegated_scope,
}
use operational_inbox.Outbound.Workers.Steps.{adopt}
use operational_inbox.Replies.Desk.{Desk, Outcome, rejected, finished, Outside}
use operational_inbox.Replies.Writing.{create_draft, revise_draft}
use operational_inbox.Replies.Queueing.{NewSend}
use operational_inbox.Replies.Sending.{
  is_send_of, attempted_first, first_send, send_once, with_exact, ensure_approval,
  approve_exact_revision, send_exact_revision,
}
use operational_inbox.Replies.Calls.{
  Call, create_call, revise_call, approve_call, send_call, committed, run_call, run_calls, sends,
  with_exact-finished, ensure_approval-finished, outbound-finished, create_draft-outbound,
  revise_draft-outbound,
}

adopt-revision :
    (mode : AuthorizationMode) (now : ℕ) (m : OutboundMessage)
    → (adopt mode now m).revision_id ≡ m.revision_id
adopt-revision mode now m = ground arith

count-adopt :
    (k j now : ℕ) (mode : AuthorizationMode) (ms : List OutboundMessage)
    → count (is_send_of k) (update_where (has_id j) (adopt mode now) ms) ≡ count (is_send_of k) ms
count-adopt k j now mode [] = refl
count-adopt k j now mode (m ∷ ms) =
    ground (arith, adopt-revision mode now m, count-adopt k j now mode ms)

first-none : (ms : List OutboundMessage) → first ms ≡ none → length ms ≡ 0
first-none [] e = refl
first-none (m ∷ ms) e = ground arith

none_sent :
    (k : ℕ) (ms : List OutboundMessage) → first_send k ms ≡ none → count (is_send_of k) ms ≡ 0
unfolding first_send
none_sent k ms e =
    sym (length-filter (is_send_of k) ms)
    ∙ sym (length-order_by attempted_first (filter (is_send_of k) ms))
    ∙ first-none (order_by attempted_first (filter (is_send_of k) ms)) e

count-last :
    (k : ℕ) (ms : List OutboundMessage) (x : OutboundMessage)
    → count (is_send_of k) (ms ++ x ∷ [])
      ≡ (if x.revision_id == k then suc (count (is_send_of k) ms) else count (is_send_of k) ms)
count-last k [] x = ground arith
count-last k (m ∷ ms) x = ground (arith, count-last k ms x)

send_once-sends :
    (o : Outside) (n : NewSend) (k now : ℕ) (mode : AuthorizationMode) (draft : ReplyDraft)
    (r : Revision) (desk desk' : Desk) (m : OutboundMessage)
    → sends k desk ≤ 1
    → send_once o n now mode draft r desk ≡ finished m desk'
    → sends k desk' ≤ 1
unfolding send_once sends
send_once-sends o n k now mode draft r desk desk' m bound h =
    elim (Option-cases (first_send r.id desk.db.outbound)) [
      | inr (x, here) ↦ ground (arith, count-adopt k x.id now mode desk.db.outbound)
      | inl missing ↦
          let (x, own, last) = outbound-finished o n now mode draft r desk desk' m (ground arith) in
          rw last (
            ground
              (arith, count-last k desk.db.outbound x, none_sent r.id desk.db.outbound missing))
    ]

settled {ℓ} :
    {A : Type 0} (P : Desk → Type ℓ) (desk : Desk) (out : Outcome A)
    → P desk
    → ((m : A) → (desk' : Desk) → out ≡ finished m desk' → P desk')
    → P (committed desk out)
settled P desk (rejected e) before after = before
settled P desk (finished m desk') before after = after m desk' refl

exact-sends :
    (o : Outside) (k draft_id revision_id hash : ℕ) (owner : User) (desk desk' : Desk)
    (m : OutboundMessage) (rest : ReplyDraft → Revision → Desk → Outcome OutboundMessage)
    → ((draft : ReplyDraft)
        → (r : Revision) → (ready : Desk) → sends k ready ≤ 1
        → rest draft r ready ≡ finished m desk'
        → sends k desk' ≤ 1)
    → sends k desk ≤ 1
    → with_exact o draft_id revision_id hash owner desk rest ≡ finished m desk'
    → sends k desk' ≤ 1
unfolding sends
exact-sends o k draft_id revision_id hash owner desk desk' m rest after bound h =
    let (draft, r, ready, same, done) =
      with_exact-finished o draft_id revision_id hash owner desk desk' rest m h in
    after draft r ready (rw same bound) done

approved-sends :
    (o : Outside) (n : NewSend) (k now hash : ℕ) (owner : User) (draft : ReplyDraft) (r : Revision)
    (desk desk' : Desk) (m : OutboundMessage)
    → sends k desk ≤ 1
    → ensure_approval hash owner draft r desk (send_once o n now owner_approval draft r)
      ≡ finished m desk'
    → sends k desk' ≤ 1
unfolding sends
approved-sends o n k now hash owner draft r desk desk' m bound h =
    let (ready, same, done) =
      ensure_approval-finished hash owner draft r desk desk'
        (send_once o n now owner_approval draft r) m h in
    send_once-sends o n k now owner_approval draft r ready desk' m (rw same bound) done

call-sends :
    (o : Outside) (k : ℕ) (c : Call) (desk : Desk)
    → sends k desk ≤ 1
    → sends k (run_call o c desk) ≤ 1
unfolding sends run_call approve_exact_revision send_exact_revision
call-sends o k (create_call d r now message owner subject body) desk bound =
    settled (λ x. sends k x ≤ 1) desk (create_draft o d r now message owner subject body desk) bound
      λ m desk' done.
        rw (create_draft-outbound o d r now message owner subject body desk desk' m done) bound
call-sends o k (revise_call r now d owner subject body) desk bound =
    settled (λ x. sends k x ≤ 1) desk (revise_draft o r now d owner subject body desk) bound
      λ m desk' done.
        rw (revise_draft-outbound o r now d owner subject body desk desk' m done) bound
call-sends o k (approve_call n now d r hash owner) desk bound =
    settled (λ x. sends k x ≤ 1) desk (approve_exact_revision o n now d r hash owner desk) bound
      λ m desk' done.
        exact-sends o k d r hash owner desk desk' m _
          (λ draft x ready small h.
            approved-sends o n k now hash owner draft x ready desk' m small h)
          bound done
call-sends o k (send_call n now d r hash owner) desk bound =
    settled (λ x. sends k x ≤ 1) desk (send_exact_revision o n now d r hash owner desk) bound
      λ m desk' done.
        exact-sends o k d r hash owner desk desk' m _
          (λ draft x ready small h.
            send_once-sends o n k now delegated_scope draft x ready desk' m small h)
          bound done

-- However the owner's calls that write, edit, approve and send replies follow each other, repeated
-- calls and refused ones included, a revision that has one message at most keeps one at most.
pub revision_sent_once :
    (o : Outside) (calls : List Call) (revision : ℕ) (desk : Desk)
    → sends revision desk ≤ 1
    → sends revision (run_calls o calls desk) ≤ 1
unfolding run_calls
revision_sent_once o [] k desk bound = bound
revision_sent_once o (c ∷ calls) k desk bound =
    revision_sent_once o calls k (run_call o c desk) (call-sends o k c desk bound)
