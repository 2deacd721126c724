-- ===== src/Outbound/Submission/Exact.antt =====
-- What a claim of `submit_outbound` says about the message that goes to SES.
use operational_inbox.Common.{
  ℕ, Bool, true, false, Option, none, some, String, List, ◌==◌, ◌&&◌, ◌≡◌, sym, arith, any, is_none,
  is_id, Option-cases, inl, inr, ==_iff, subst,
}
use operational_inbox.Settings.{Settings}
use operational_inbox.Digest.{Hashing, compose_content_digest}
use operational_inbox.Accounts.{Domain}
use operational_inbox.Drafts.{ReplyDraft, Revision, DraftApproval, is_compose}
use operational_inbox.Outbound.Message.{OutboundMessage, owner_approval, is_queued}
use operational_inbox.Database.{Database, outbound_of, domain_of}
use operational_inbox.Outbound.Submission.{claim, claim_row, take, lock_control, is_paused_for}
use operational_inbox.Outbound.Submission.Authorization.{
  is_mode, revision_of, draft_of, matches_snapshot, has_active_approval, authorization_error,
}

-- The row that a claim found, and what held of it.
record IsClaimed (authorize : Database → OutboundMessage → Option String) (id now : ℕ)
    (db : Database) (claimed : OutboundMessage) : Type 0 where
  row : OutboundMessage
  domain : Domain
  here : outbound_of id db ≡ some row
  owned : domain_of row.domain_id db ≡ some domain
  queued : is_queued row.status ≡ true
  running : is_paused_for domain.owner_id (lock_control domain.owner_id db).controls ≡ false
  authorized : authorize (lock_control domain.owner_id db) row ≡ none
  same : claimed ≡ take now row

claim_row-some :
    (authorize : Database → OutboundMessage → Option String) (now : ℕ) (m claimed : OutboundMessage)
    (d : Domain) (locked : Database)
    → (claim_row authorize now m d locked).1 ≡ some claimed
    → (is_queued m.status ≡ true)
      × (is_paused_for d.owner_id locked.controls ≡ false)
      × (authorize locked m ≡ none)
      × (claimed ≡ take now m)
unfolding claim_row
claim_row-some authorize now m claimed d locked e = ground arith

claim-some :
    (authorize : Database → OutboundMessage → Option String) (id now : ℕ) (db : Database)
    (claimed : OutboundMessage)
    → (claim authorize id now db).1 ≡ some claimed
    → IsClaimed authorize id now db claimed
unfolding claim
claim-some authorize id now db claimed e = elim (Option-cases (outbound_of id db)) [
  | inl missing ↦ absurd (ground arith)
  | inr (m, found) ↦ elim (Option-cases (domain_of m.domain_id db)) [
    | inl missing ↦ absurd (ground arith)
    | inr (d, owned) ↦
        let (waits, runs, allowed, same) =
          claim_row-some authorize now m claimed d (lock_control d.owner_id db) (ground arith) in
        record {
          row = m;
          domain = d;
          here = found;
          owned = owned;
          queued = waits;
          running = runs;
          authorized = allowed;
          same = same;
        }
  ]
]

-- An approval of the revision, with this digest, that nothing has invalidated.
abbrev pub is_approval_of : (revision digest : ℕ) → DraftApproval → Bool
is_approval_of revision digest a =
    a.revision_id == revision && is_none a.invalidated_at && a.content_hash == digest

digest_same :
    (h : Hashing) (m : OutboundMessage) (r : Revision)
    → matches_snapshot h m r ≡ true
    → m.content_hash ≡ compose_content_digest h m.from_address m.to_address m.subject m.body_text
unfolding matches_snapshot
digest_same h m r exact =
    (==_iff m.content_hash
        (compose_content_digest h m.from_address m.to_address m.subject m.body_text)).0
      (ground arith)

approved_content :
    (h : Hashing) (m : OutboundMessage) (r : Revision) (approvals : List DraftApproval)
    → matches_snapshot h m r ≡ true
    → has_active_approval m approvals ≡ true
    → any
        (is_approval_of m.revision_id
          (compose_content_digest h m.from_address m.to_address m.subject m.body_text))
        approvals
      ≡ true
unfolding has_active_approval
approved_content h m r approvals exact approved =
    subst (λ n. any (is_approval_of m.revision_id n) approvals ≡ true) (digest_same h m r exact)
      approved

pub passed :
    (h : Hashing) (casefold : String → String)
    (policy_error : Database → OutboundMessage → Option String) (s : Settings) (db : Database)
    (m : OutboundMessage) (r : Revision) (draft : ReplyDraft)
    → revision_of m.revision_id db ≡ some r
    → draft_of r.draft_id db ≡ some draft
    → authorization_error h casefold policy_error s db m ≡ none
    → (is_id draft.current_revision m.revision_id ≡ true)
      × (draft.is_stale ≡ false)
      × (is_compose draft.kind ≡ true → matches_snapshot h m r ≡ true)
      × (is_mode m.authorization_mode owner_approval ≡ true
          → has_active_approval m db.approvals ≡ true)
unfolding authorization_error
passed h casefold policy_error s db m r draft found drafted e = ground arith

taken_exactly :
    (h : Hashing) (casefold : String → String)
    (policy_error : Database → OutboundMessage → Option String) (s : Settings) (now : ℕ)
    (db : Database) (row m : OutboundMessage) (r : Revision) (draft : ReplyDraft)
    → m ≡ take now row
    → authorization_error h casefold policy_error s db row ≡ none
    → revision_of m.revision_id db ≡ some r
    → draft_of r.draft_id db ≡ some draft
    → is_compose draft.kind ≡ true
    → is_mode m.authorization_mode owner_approval ≡ true
    → (is_id draft.current_revision m.revision_id ≡ true)
      × (draft.is_stale ≡ false)
      × (any
            (is_approval_of m.revision_id
              (compose_content_digest h m.from_address m.to_address m.subject m.body_text))
            db.approvals
          ≡ true)
unfolding take
taken_exactly h casefold policy_error s now db row m r draft same allowed found drafted composed
      owned =
    let (current, live, exact, approved) =
      passed h casefold policy_error s db row r draft
        (subst (λ x. revision_of x.revision_id db ≡ some r) same found) drafted allowed in
    subst
      (λ x.
        (is_id draft.current_revision x.revision_id ≡ true)
        × (draft.is_stale ≡ false)
        × (any
              (is_approval_of x.revision_id
                (compose_content_digest h x.from_address x.to_address x.subject x.body_text))
              db.approvals
            ≡ true))
      (sym same)
      (
        current,
        live,
        approved_content h row r db.approvals (exact composed)
            (approved (subst (λ x. is_mode x.authorization_mode owner_approval ≡ true) same owned)),
      )

-- What a worker takes to SES for a new email that the owner approved: its revision is the current
-- one of a draft that is not stale, and an approval of that revision which nothing has invalidated
-- carries the digest of exactly the sender, recipient, subject and body that are taken.
pub claimed_exactly :
    (h : Hashing) (casefold : String → String)
    (policy_error : Database → OutboundMessage → Option String) (s : Settings) (id now : ℕ)
    (db : Database) (m : OutboundMessage) (r : Revision) (draft : ReplyDraft)
    → (claim (authorization_error h casefold policy_error s) id now db).1 ≡ some m
    → revision_of m.revision_id db ≡ some r
    → draft_of r.draft_id db ≡ some draft
    → is_compose draft.kind ≡ true
    → is_mode m.authorization_mode owner_approval ≡ true
    → (is_id draft.current_revision m.revision_id ≡ true)
      × (draft.is_stale ≡ false)
      × (any
            (is_approval_of m.revision_id
              (compose_content_digest h m.from_address m.to_address m.subject m.body_text))
            db.approvals
          ≡ true)
claimed_exactly h casefold policy_error s id now db m r draft e found drafted composed owned =
    let c = claim-some (authorization_error h casefold policy_error s) id now db m e in
    taken_exactly h casefold policy_error s now (lock_control c.domain.owner_id db) c.row m r draft
      c.same c.authorized found drafted composed owned
