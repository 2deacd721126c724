-- ===== src/Replies/Composed.antt =====
-- What a new email leaves in the tables.
use operational_inbox.Common.{
  ℕ, Bool, true, false, none, some, List, [], ◌∷◌, ◌++◌, ◌==◌, ◌≡◌, refl, arith, find,
  if◌then◌else◌, Option-cases, inl, inr,
}
use operational_inbox.Accounts.{Domain, User, is_disabled}
use operational_inbox.Accounts.Entitlements.{can_manage_domain}
use operational_inbox.Drafts.{Revision, DraftApproval}
use operational_inbox.Database.{Database}
use operational_inbox.Outbound.Message.{
  OutboundControl, OutboundMessage, AuthorizationMode, owner_approval,
}
use operational_inbox.Outbound.Quota.{require_outbound_capacity}
use operational_inbox.Outbound.Submission.Authorization.{is_mode, user_of}
use operational_inbox.Replies.Desk.{Desk, Outcome, finished, Outside}
use operational_inbox.Replies.Checks.{revision_digest}
use operational_inbox.Replies.Writing.{lock_desk, save_revision}
use operational_inbox.Replies.Queueing.{with_capacity, queue}
use operational_inbox.Replies.Compose.{
  Email, NewRows, email_digest, new_snapshot, composed_revision, composed_outbound,
  approve_composed, write_composed, compose_new, has_idempotency_key, is_own_domain, is_sent_from,
  compose_once, is_valid_composed, send_composed_email,
}

abbrev pub approval_row : NewRows → Domain → (owner : ℕ) → Revision → DraftApproval
approval_row n d owner r = record {
  domain_id = d.id;
  revision_id = r.id;
  approved_by = owner;
  content_hash = r.content_hash;
  invalidated_at = none;
  invalidated_reason = "";
}

-- The tables with the rows of a new email.
abbrev pub composed_db :
    Outside
    → NewRows
    → (now key : ℕ) → Domain
    → (owner : ℕ) → AuthorizationMode
    → Email
    → Database
    → Database
composed_db o n now key d owner mode e db =
    let r = composed_revision o n now d owner mode e in
    let saved = save_revision r (record db { drafts = db.drafts ++ new_snapshot n d ∷ [] }) in
    record saved {
      approvals =
          if is_mode mode owner_approval
          then db.approvals ++ approval_row n d owner r ∷ []
          else db.approvals;
      outbound = db.outbound ++ composed_outbound n now key d mode r e ∷ [];
    }

pub write_composed-finished :
    (o : Outside) (n : NewRows) (now key : ℕ) (d : Domain) (owner : ℕ) (mode : AuthorizationMode)
    (e : Email) (desk desk' : Desk) (m : OutboundMessage)
    → write_composed o n now key d owner mode e desk ≡ finished m desk'
    → (m ≡ composed_outbound n now key d mode (composed_revision o n now d owner mode e) e)
      × (desk'.db ≡ composed_db o n now key d owner mode e desk.db)
unfolding write_composed approve_composed queue new_snapshot save_revision
write_composed-finished o n now key d owner mode e desk desk' m h = ground arith

pub with_capacity-finished :
    (o : Outside) (now : ℕ) (d : Domain) (desk desk' : Desk) (rest : Desk → Outcome OutboundMessage)
    (m : OutboundMessage)
    → with_capacity o now d desk rest ≡ finished m desk'
    → (controls : List OutboundControl) × (rest
          (record desk { db = record desk.db { controls = controls } })
        ≡ finished m desk')
unfolding with_capacity
with_capacity-finished o now d desk desk' rest m h =
    elim (Option-cases (user_of d.owner_id desk.db)) [
      | inl missing ↦ absurd (ground arith)
      | inr (u, here) ↦
          let checked =
            require_outbound_capacity o.calendar o.settings desk.db.profiles desk.db.domains
              desk.db.outbound u d now desk.db.controls in
          elim (Option-cases checked.1) [
            | inl passed ↦ (checked.0, ground arith)
            | inr (e, stopped) ↦ absurd (ground arith)
          ]
    ]

pub compose_new-finished :
    (o : Outside) (n : NewRows) (now key : ℕ) (d : Domain) (owner : User) (mode : AuthorizationMode)
    (e : Email) (desk desk' : Desk) (m : OutboundMessage)
    → compose_new o n now key d owner mode e desk ≡ finished m desk'
    → (can_manage_domain o.settings desk.db.profiles desk.db.domains owner d ≡ true)
      × (is_disabled d.status ≡ false)
      × (d.ownership_verified ≡ true)
      × (d.outbound_ready ≡ true)
      × (with_capacity o now d desk (write_composed o n now key d owner.id mode e)
          ≡ finished m desk')
unfolding compose_new
compose_new-finished o n now key d owner mode e desk desk' m h = ground arith

-- What an accepted email was checked for, and the run that its domain leaves.
pub send-finished :
    (o : Outside) (n : NewRows) (now key : ℕ) (domain : Domain) (owner : User)
    (mode : AuthorizationMode) (e : Email) (desk desk' : Desk) (m : OutboundMessage)
    → send_composed_email o n now key domain owner mode e desk ≡ finished m desk'
    → (d : Domain) × (find (is_own_domain domain.id owner.id) desk.db.domains ≡ some d)
      × (is_sent_from o e.from_address d ≡ true)
      × (owner.is_active ≡ true)
      × (is_valid_composed o e ≡ true)
      × ((domain.owner_id == owner.id) ≡ true)
      × (compose_once o n now key d owner mode e (lock_desk owner.id desk) ≡ finished m desk')
unfolding send_composed_email
send-finished o n now key domain owner mode e desk desk' m h =
    elim (Option-cases (find (is_own_domain domain.id owner.id) desk.db.domains)) [
      | inl missing ↦ absurd (ground arith)
      | inr (d, here) ↦
          (d, here, ground arith, ground arith, ground arith, ground arith, ground arith)
    ]

pub find-last {ℓ} :
    {A : Type ℓ} (test : A → Bool) (xs : List A) (x : A)
    → find test xs ≡ none
    → test x ≡ true
    → find test (xs ++ x ∷ []) ≡ some x
find-last test [] x none_yet passes = ground arith
find-last test (y ∷ xs) x none_yet passes = ground (arith, find-last test xs x)

row-stored :
    (o : Outside) (n : NewRows) (now key : ℕ) (d : Domain) (owner : ℕ) (mode : AuthorizationMode)
    (e : Email)
    → let m = composed_outbound n now key d mode (composed_revision o n now d owner mode e) e in
      (has_idempotency_key d.id key m ≡ true) × ((m.content_hash == email_digest o e) ≡ true)
unfolding composed_outbound composed_revision new_snapshot revision_digest
row-stored o n now key d owner mode e = ground arith

new-stored :
    (o : Outside) (n : NewRows) (now key : ℕ) (d : Domain) (owner : User) (mode : AuthorizationMode)
    (e : Email) (desk desk' : Desk) (m : OutboundMessage)
    → find (has_idempotency_key d.id key) desk.db.outbound ≡ none
    → compose_new o n now key d owner mode e desk ≡ finished m desk'
    → (find (has_idempotency_key d.id key) desk'.db.outbound ≡ some m)
      × ((m.content_hash == email_digest o e) ≡ true)
      × (desk'.db.domains ≡ desk.db.domains)
unfolding save_revision
new-stored o n now key d owner mode e desk desk' m fresh h =
    let (_, _, _, _, counted) = compose_new-finished o n now key d owner mode e desk desk' m h in
    let (controls, w) =
      with_capacity-finished o now d desk desk' (write_composed o n now key d owner.id mode e) m
        counted in
    let (m_eq, db_eq) =
      write_composed-finished o n now key d owner.id mode e
        (record desk { db = record desk.db { controls = controls } }) desk' m w in
    let new = composed_outbound n now key d mode (composed_revision o n now d owner.id mode e) e in
    let (keyed, hashed) = row-stored o n now key d owner.id mode e in
    rw db_eq (
      rw m_eq
        (find-last (has_idempotency_key d.id key) desk.db.outbound new fresh keyed, hashed, refl))

-- The row that stands under the key afterwards.
pub once-stored :
    (o : Outside) (n : NewRows) (now key : ℕ) (d : Domain) (owner : User) (mode : AuthorizationMode)
    (e : Email) (desk desk' : Desk) (m : OutboundMessage)
    → compose_once o n now key d owner mode e desk ≡ finished m desk'
    → (find (has_idempotency_key d.id key) desk'.db.outbound ≡ some m)
      × ((m.content_hash == email_digest o e) ≡ true)
      × (desk'.db.domains ≡ desk.db.domains)
unfolding compose_once
once-stored o n now key d owner mode e desk desk' m h =
    elim (Option-cases (find (has_idempotency_key d.id key) desk.db.outbound)) [
      | inl missing ↦ new-stored o n now key d owner mode e desk desk' m missing (ground arith)
      | inr (x, here) ↦ ground arith
    ]
