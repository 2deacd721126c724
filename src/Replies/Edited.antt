-- ===== src/Replies/Edited.antt =====
-- What an edit of a draft does to the messages that are still queued for its older revisions.
use operational_inbox.Common.{
  ◌+◌, ℕ, false, Option, none, some, String, List, [], ◌∷◌, ◌≡◌, ◌≢◌, refl, sym, ◌∙◌, ap, subst,
  arith, find, any, update_where,
}
use operational_inbox.Settings.{Settings}
use operational_inbox.Digest.{Hashing}
use operational_inbox.Accounts.{User}
use operational_inbox.Drafts.{ReplyDraft, Revision, DraftApproval}
use operational_inbox.Database.{Database}
use operational_inbox.Outbound.Message.{OutboundMessage}
use operational_inbox.Outbound.Submission.Authorization.{revision_of, draft_of, authorization_error}
use operational_inbox.Outbound.Submission.Exact.{passed}
use operational_inbox.Replies.Desk.{Desk, finished, Outside}
use operational_inbox.Replies.Writing.{
  Writing, revise_draft, add_revision, save_revision, supersede, next_revision, new_revision,
  lock_desk, interrupt_desk, is_active_approval_of, has_draft_id,
}

find_draft_id :
    (k : ℕ) (ds : List ReplyDraft) (d : ReplyDraft) → find (has_draft_id k) ds ≡ some d → d.id ≡ k
find_draft_id k [] d e = ground arith
find_draft_id k (x ∷ ds) d e = ground (arith, find_draft_id k ds d)

saved_draft :
    (r : Revision) (ds : List ReplyDraft) (d : ReplyDraft)
    → find (has_draft_id r.draft_id) ds ≡ some d
    → find
        (has_draft_id r.draft_id)
        (update_where (has_draft_id r.draft_id) (λ x. record x { current_revision = some r.id }) ds)
      ≡ some (record d { current_revision = some r.id })
saved_draft r [] d e = ground arith
saved_draft r (x ∷ ds) d e = ground (arith, saved_draft r ds d)

added :
    (o : Outside) (d : ReplyDraft) (r r' : Revision) (desk desk' : Desk)
    → add_revision o d r desk ≡ finished r' desk'
    → (r' ≡ r) × (desk' ≡ record desk { db = save_revision r desk.db })
unfolding add_revision
added o d r r' desk desk' e = ground arith

-- The tables between the end of the old approvals and the new revision.
abbrev cleared : (owner old now : ℕ) → ReplyDraft → Desk → Desk
cleared owner old now draft desk =
    let locked = interrupt_desk draft.conversation_id (lock_desk owner desk) in
    record locked { db = supersede old now locked.db }

abbrev written : (owner : ℕ) → (subject body_text : String) → Writing
written owner subject body_text = record {
  subject = subject;
  body_text = body_text;
  author = owner;
  is_agent_generated = false;
}

cleared_next :
    (owner now : ℕ) (draft : ReplyDraft) (old : Revision) (desk : Desk)
    → draft.current_revision ≡ some old.id
    → revision_of old.id desk.db ≡ some old
    → next_revision draft now (interrupt_desk draft.conversation_id (lock_desk owner desk))
      ≡ (old.number + 1, cleared owner old.id now draft desk)
unfolding next_revision
cleared_next owner now draft old desk current found = ground arith

revised :
    (o : Outside) (id now draft_id : ℕ) (owner : User) (subject body_text : String)
    (desk desk' : Desk) (draft : ReplyDraft) (old r : Revision)
    → draft_of draft_id desk.db ≡ some draft
    → draft.current_revision ≡ some old.id
    → revision_of old.id desk.db ≡ some old
    → revise_draft o id now draft_id owner subject body_text desk ≡ finished r desk'
    → add_revision o draft
        (new_revision o id (old.number + 1) now draft (written owner.id subject body_text))
        (cleared owner.id old.id now draft desk)
      ≡ finished r desk'
unfolding revise_draft
revised o id now draft_id owner subject body_text desk desk' draft old r drafted current found e =
    ground (arith, cleared_next owner.id now draft old desk)

superseded_none :
    (old now : ℕ) (approvals : List DraftApproval)
    → any (is_active_approval_of old) (
        update_where
          (is_active_approval_of old)
          (λ a. record a { invalidated_at = some now; invalidated_reason = "superseded_by_edit" })
          approvals)
      ≡ false
superseded_none old now [] = refl
superseded_none old now (a ∷ approvals) = ground (arith, superseded_none old now approvals)

-- A message of another revision than the draft's current one is refused.
stale_refused :
    (h : Hashing) (casefold : String → String)
    (policy_error : Database → OutboundMessage → Option String) (s : Settings) (db : Database)
    (m : OutboundMessage) (x : Revision) (draft : ReplyDraft) (current : ℕ)
    → revision_of m.revision_id db ≡ some x
    → draft_of x.draft_id db ≡ some draft
    → draft.current_revision ≡ some current
    → m.revision_id ≢ current
    → authorization_error h casefold policy_error s db m ≢ none
stale_refused h casefold policy_error s db m x draft current found drafted newest other e =
    let p = passed h casefold policy_error s db m x draft found drafted e in ground arith

saved_refused :
    (h : Hashing) (casefold : String → String)
    (policy_error : Database → OutboundMessage → Option String) (s : Settings) (db : Database)
    (m : OutboundMessage) (r x : Revision) (draft : ReplyDraft)
    → draft_of r.draft_id db ≡ some draft
    → revision_of m.revision_id (save_revision r db) ≡ some x
    → x.draft_id ≡ r.draft_id
    → m.revision_id ≢ r.id
    → authorization_error h casefold policy_error s (save_revision r db) m ≢ none
unfolding save_revision
saved_refused h casefold policy_error s db m r x draft drafted found same other =
    stale_refused h casefold policy_error s (save_revision r db) m x
      (record draft { current_revision = some r.id }) r.id found
      (subst
        (λ k.
          draft_of k (save_revision r db) ≡ some (record draft { current_revision = some r.id }))
        (sym same) (saved_draft r db.drafts draft drafted))
      refl other

-- Editing a reply draft ends every approval of the revision that it replaces, numbers the new revision
-- one above it, and makes the check before submission refuse every message that was queued for
-- another revision of the draft than the new one, whatever its authorization.
pub edit_stops_sends :
    (o : Outside) (h : Hashing) (casefold : String → String)
    (policy_error : Database → OutboundMessage → Option String) (s : Settings) (id now draft_id : ℕ)
    (owner : User) (subject body_text : String) (desk desk' : Desk) (draft : ReplyDraft)
    (old r x : Revision) (m : OutboundMessage)
    → draft_of draft_id desk.db ≡ some draft
    → draft.current_revision ≡ some old.id
    → revision_of old.id desk.db ≡ some old
    → revise_draft o id now draft_id owner subject body_text desk ≡ finished r desk'
    → revision_of m.revision_id desk'.db ≡ some x
    → x.draft_id ≡ draft_id
    → m.revision_id ≢ r.id
    → (r.number ≡ old.number + 1)
      × (any (is_active_approval_of old.id) desk'.db.approvals ≡ false)
      × (authorization_error h casefold policy_error s desk'.db m ≢ none)
unfolding save_revision supersede new_revision
edit_stops_sends o h casefold policy_error s id now draft_id owner subject body_text desk desk'
      draft old r x m drafted current oldest e found same other =
    let done =
      added o draft
        (new_revision o id (old.number + 1) now draft (written owner.id subject body_text)) r
        (cleared owner.id old.id now draft desk) desk'
        (revised o id now draft_id owner subject body_text desk desk' draft old r drafted current
          oldest e) in
    let new = new_revision o id (old.number + 1) now draft (written owner.id subject body_text) in
    let before = (cleared owner.id old.id now draft desk).db in
    let same_id = find_draft_id draft_id desk.db.drafts draft drafted in
    let db_eq : desk'.db ≡ save_revision new before = ap (λ (d : Desk). d.db) done.1 in
    let r_eq : r ≡ new = done.0 in
    (
      ground arith,
      subst (λ (db : Database). any (is_active_approval_of old.id) db.approvals ≡ false) (sym db_eq)
          (superseded_none old.id now desk.db.approvals),
      subst (λ (db : Database). authorization_error h casefold policy_error s db m ≢ none)
          (sym db_eq)
          (saved_refused h casefold policy_error s before m new x draft
            (subst (λ k. draft_of k desk.db ≡ some draft) (sym same_id) drafted)
            (subst (λ (db : Database). revision_of m.revision_id db ≡ some x) db_eq found)
            (same ∙ sym same_id) (subst (λ (q : Revision). m.revision_id ≢ q.id) r_eq other)),
    )
