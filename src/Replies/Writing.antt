-- ===== src/Replies/Writing.antt =====
-- `create_authored_draft` and `revise_draft` of inbox/services/drafts.py.
use operational_inbox.Common.{
  ℕ, Bool, true, false, none, some, String, [], ◌∷◌, ◌++◌, ◌==◌, ◌&&◌, ◌+◌, not, is_none,
  update_where,
}
use operational_inbox.Accounts.{User}
use operational_inbox.Accounts.Entitlements.{can_manage_domain}
use operational_inbox.Drafts.{ReplyDraft, Revision, DraftApproval, DraftKind, is_compose}
use operational_inbox.Database.{Database, domain_of}
use operational_inbox.Outbound.Submission.{lock_control}
use operational_inbox.Outbound.Submission.Authorization.{revision_of, draft_of}
use operational_inbox.Handling.States.{interrupt_handling}
use operational_inbox.Replies.Desk.{
  Desk, missing_row, not_a_reply, not_the_owner, domain_read_only, quarantined, Outcome, rejected,
  finished, check, Outside, message_of, Inbound,
}
use operational_inbox.Replies.Checks.{revision_digest, revision_error}

-- A text and its author.
pub record Writing : Type 0 where
  pub subject : String
  pub body_text : String
  pub author : ℕ
  pub is_agent_generated : Bool

-- The revision of a reply, with the digest that `save` stores.
unfoldable pub new_revision : Outside → (id number now : ℕ) → ReplyDraft → Writing → Revision
new_revision o id number now d w =
    let r : Revision = record {
      id = id;
      domain_id = d.domain_id;
      draft_id = d.id;
      number = number;
      from_address = "";
      to_address = "";
      subject = w.subject;
      body_text = w.body_text;
      content_hash = 0;
      author = some w.author;
      is_agent_generated = w.is_agent_generated;
      created_at = now;
    } in
    record r { content_hash = revision_digest o.hashing d r }

abbrev pub has_draft_id : ℕ → ReplyDraft → Bool
has_draft_id k d = d.id == k

-- The new revision becomes the draft's current one.
unfoldable pub save_revision : Revision → Database → Database
save_revision r db = record db {
  revisions = db.revisions ++ r ∷ [];
  drafts =
      update_where (has_draft_id r.draft_id) (λ d. record d { current_revision = some r.id })
        db.drafts;
}

-- The tables with a valid new revision, or its error.
unfoldable pub add_revision : Outside → ReplyDraft → Revision → Desk → Outcome Revision
add_revision o d r desk = elim (revision_error o d desk.db.revisions r) [
  | some e ↦ rejected e
  | none ↦ finished r (record desk { db = save_revision r desk.db })
]

unfoldable pub new_draft : (id : ℕ) → Inbound → ReplyDraft
new_draft id m = record {
  id = id;
  domain_id = m.domain_id;
  kind = DraftKind.reply;
  conversation_id = m.conversation_id;
  context_message = some m.id;
  current_revision = none;
  is_stale = false;
}

-- `create_authored_draft`, for the fresh IDs of its rows.
unfoldable pub create_draft :
    Outside
    → (draft_id revision_id now message : ℕ) → (owner : User) → (subject body_text : String) → Desk
    → Outcome Revision
create_draft o draft_id revision_id now message owner subject body_text desk =
    elim (message_of message desk) [
      | none ↦ rejected missing_row
      | some m ↦ elim (domain_of m.domain_id desk.db) [
        | none ↦ rejected missing_row
        | some d ↦ check (d.owner_id == owner.id) not_the_owner (
            check (can_manage_domain o.settings desk.db.profiles desk.db.domains owner d)
              domain_read_only
              (check (not m.is_quarantined) quarantined (
                let draft = new_draft draft_id m in
                let w : Writing = record {
                  subject = subject;
                  body_text = body_text;
                  author = owner.id;
                  is_agent_generated = true;
                } in
                add_revision o draft (new_revision o revision_id 1 now draft w)
                  (record desk { db = record desk.db { drafts = desk.db.drafts ++ draft ∷ [] } }))))
      ]
    ]

-- The account's lock and the interruption of the agent.
abbrev pub lock_desk : (owner : ℕ) → Desk → Desk
lock_desk owner desk = record desk { db = lock_control owner desk.db }

abbrev pub interrupt_desk : (conversation : ℕ) → Desk → Desk
interrupt_desk conversation desk = record desk {
  handling = interrupt_handling conversation true desk.handling;
}

abbrev pub is_active_approval_of : ℕ → DraftApproval → Bool
is_active_approval_of revision a = a.revision_id == revision && is_none a.invalidated_at

-- An edit ends the approvals of the revision that it replaces.
unfoldable pub supersede : (revision now : ℕ) → Database → Database
supersede revision now db = record db {
  approvals =
      update_where (is_active_approval_of revision)
        (λ a. record a { invalidated_at = some now; invalidated_reason = "superseded_by_edit" })
        db.approvals;
}

-- The number of the next revision, and the tables once the current one is superseded.
unfoldable pub next_revision : ReplyDraft → (now : ℕ) → Desk → ℕ × Desk
next_revision d now desk = elim d.current_revision [
  | none ↦ (1, desk)
  | some k ↦ elim (revision_of k desk.db) [
    | none ↦ (1, desk)
    | some r ↦ (r.number + 1, record desk { db = supersede r.id now desk.db })
  ]
]

-- `revise_draft`, for the fresh ID of the revision.
unfoldable pub revise_draft :
    Outside
    → (revision_id now draft_id : ℕ) → (owner : User) → (subject body_text : String) → Desk
    → Outcome Revision
revise_draft o revision_id now draft_id owner subject body_text desk =
    let locked = lock_desk owner.id desk in
    elim (draft_of draft_id locked.db) [
      | none ↦ rejected missing_row
      | some draft ↦ elim (domain_of draft.domain_id locked.db) [
        | none ↦ rejected missing_row
        | some d ↦ check (not (is_compose draft.kind)) not_a_reply (
            check (d.owner_id == owner.id) not_the_owner (
              check (can_manage_domain o.settings locked.db.profiles locked.db.domains owner d)
                domain_read_only
                (let (number, cleared) =
                    next_revision draft now (interrupt_desk draft.conversation_id locked) in
                  let w : Writing = record {
                    subject = subject;
                    body_text = body_text;
                    author = owner.id;
                    is_agent_generated = false;
                  } in
                  add_revision o draft (new_revision o revision_id number now draft w) cleared)))
      ]
    ]
