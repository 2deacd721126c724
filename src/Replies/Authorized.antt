-- ===== src/Replies/Authorized.antt =====
-- What inbox/services/compose.py accepts passes the check of inbox/services/outbound.py.
use text.Mathlib.Text.{◌==◌ as str_eq}
use text.Mathlib.TextEquality.{eq_iff}
use operational_inbox.Common.{
  ℕ, Bool, true, false, Option, none, some, String, List, [], ◌∷◌, ◌++◌, ◌==◌, ◌&&◌, ◌≡◌, refl, sym,
  ◌∙◌, ap, subst, arith, find, any, is_none, is_id, update_where,
}
use operational_inbox.Settings.{Settings}
use operational_inbox.Digest.{Hashing}
use operational_inbox.Accounts.{Domain, User, is_disabled}
use operational_inbox.Accounts.Entitlements.{can_manage_domain}
use operational_inbox.Drafts.{ReplyDraft, Revision, DraftApproval}
use operational_inbox.Database.{Database, domain_of}
use operational_inbox.Outbound.Message.{
  OutboundMessage, AuthorizationMode, owner_approval, agent_policy,
}
use operational_inbox.Outbound.Submission.Address.{behind_at, address_domain}
use operational_inbox.Outbound.Submission.Authorization.{
  is_mode, revision_of, draft_of, user_of, matches_snapshot, has_active_approval, is_domain_ready,
  authorization_error,
}
use operational_inbox.Replies.Desk.{Desk, finished, Outside}
use operational_inbox.Replies.Checks.{revision_digest}
use operational_inbox.Replies.Writing.{lock_desk, save_revision, has_draft_id}
use operational_inbox.Replies.Queueing.{split_address}
use operational_inbox.Replies.Compose.{
  Email, NewRows, new_snapshot, composed_revision, composed_outbound, write_composed,
  has_idempotency_key, is_own_domain, is_sent_from, compose_once, compose_new, send_composed_email,
}
use operational_inbox.Replies.Composed.{
  approval_row, composed_db, write_composed-finished, with_capacity-finished, compose_new-finished,
  send-finished, find-last,
}

-- The check passes where each of its tests does.
allowed :
    (h : Hashing) (casefold : String → String)
    (policy_error : Database → OutboundMessage → Option String) (s : Settings) (db : Database)
    (m : OutboundMessage) (r : Revision) (draft : ReplyDraft) (d : Domain) (owner : User)
    → is_mode m.authorization_mode agent_policy ≡ false
    → revision_of m.revision_id db ≡ some r
    → draft_of r.draft_id db ≡ some draft
    → is_id draft.current_revision m.revision_id ≡ true
    → draft.is_stale ≡ false
    → matches_snapshot h m r ≡ true
    → (is_mode m.authorization_mode owner_approval ≡ true
        → has_active_approval m db.approvals ≡ true)
    → domain_of m.domain_id db ≡ some d
    → is_domain_ready casefold m d ≡ true
    → user_of d.owner_id db ≡ some owner
    → owner.is_active ≡ true
    → can_manage_domain s db.profiles db.domains owner d ≡ true
    → authorization_error h casefold policy_error s db m ≡ none
unfolding authorization_error
allowed h casefold policy_error s db m r draft d owner own found drafted current live exact approved
      owned ready user active manages =
    ground arith

abbrev host_of : Option (String × String) → Option String
host_of none = none
host_of (some (local, host)) = some host

behind-split : (s : String) → behind_at s ≡ host_of (split_address s)
behind-split String.[] = refl
behind-split (String.◌∷◌ c s) = ground (arith, behind-split s)

from-host :
    (o : Outside) (address : String) (d : Domain)
    → is_sent_from o address d ≡ true
    → str_eq (o.casefold (address_domain address)) (o.casefold d.hostname) ≡ true
unfolding is_sent_from
from-host o address d e = ground (arith, behind-split address)

sent-ready :
    (o : Outside) (m : OutboundMessage) (d : Domain)
    → is_sent_from o m.from_address d ≡ true
    → o.casefold d.hostname ≡ d.hostname
    → is_disabled d.status ≡ false
    → d.ownership_verified ≡ true
    → d.outbound_ready ≡ true
    → is_domain_ready o.casefold m d ≡ true
unfolding is_domain_ready
sent-ready o m d e folded enabled verified ready =
    let same : d.hostname ≡ o.casefold (address_domain m.from_address) =
      sym folded
      ∙ sym (
          (eq_iff (o.casefold (address_domain m.from_address)) (o.casefold d.hostname)).0
            (from-host o m.from_address d e)) in
    let tested = (eq_iff d.hostname (o.casefold (address_domain m.from_address))).1 same in
    ground arith

same_text : (s : String) → str_eq s s ≡ true
same_text s = (eq_iff s s).1 refl

snapshot-exact :
    (o : Outside) (n : NewRows) (now key : ℕ) (d : Domain) (owner : ℕ) (mode : AuthorizationMode)
    (e : Email)
    → let r = composed_revision o n now d owner mode e in
      matches_snapshot o.hashing (composed_outbound n now key d mode r e) r ≡ true
unfolding matches_snapshot composed_outbound composed_revision new_snapshot revision_digest
snapshot-exact o n now key d owner mode e = ground (
  arith,
  same_text e.from_address,
  same_text e.to_address,
  same_text e.subject,
  same_text e.body_text,
)

any-last {ℓ} :
    {A : Type ℓ} (test : A → Bool) (xs : List A) (x : A)
    → test x ≡ true
    → any test (xs ++ x ∷ []) ≡ true
any-last test [] x h = ground arith
any-last test (y ∷ xs) x h = ground (arith, any-last test xs x h)

draft-updated :
    (r : Revision) (ds : List ReplyDraft) (d : ReplyDraft)
    → find (has_draft_id r.draft_id) ds ≡ none
    → d.id ≡ r.draft_id
    → find (has_draft_id r.draft_id) (
        update_where
          (has_draft_id r.draft_id)
          (λ x. record x { current_revision = some r.id })
          (ds ++ d ∷ []))
      ≡ some (record d { current_revision = some r.id })
draft-updated r [] d fresh same = ground arith
draft-updated r (x ∷ ds) d fresh same = ground (arith, draft-updated r ds d)

-- The first row with the ID is the owner's.
own_found :
    (owner : ℕ) (d : Domain) (ds : List Domain)
    → find (λ (x : Domain). x.id == d.id) ds ≡ some d
    → (d.owner_id == owner) ≡ true
    → find (is_own_domain d.id owner) ds ≡ some d
own_found owner d [] e own = ground arith
own_found owner d (x ∷ ds) e own = ground (arith, own_found owner d ds)

found_same {ℓ} : {A : Type ℓ} (o : Option A) (a b : A) → o ≡ some a → o ≡ some b → a ≡ b
found_same o a b x y = cc

-- The check on the tables with the new rows.
rows_allowed :
    (o : Outside) (policy_error : Database → OutboundMessage → Option String) (n : NewRows)
    (now key : ℕ) (d : Domain) (owner : User) (mode : AuthorizationMode) (e : Email) (db : Database)
    → is_mode mode agent_policy ≡ false
    → revision_of n.revision db ≡ none
    → draft_of n.draft db ≡ none
    → domain_of d.id db ≡ some d
    → user_of d.owner_id db ≡ some owner
    → owner.is_active ≡ true
    → can_manage_domain o.settings db.profiles db.domains owner d ≡ true
    → is_sent_from o e.from_address d ≡ true
    → o.casefold d.hostname ≡ d.hostname
    → is_disabled d.status ≡ false
    → d.ownership_verified ≡ true
    → d.outbound_ready ≡ true
    → authorization_error o.hashing o.casefold policy_error o.settings
        (composed_db o n now key d owner.id mode e db)
        (composed_outbound n now key d mode (composed_revision o n now d owner.id mode e) e)
      ≡ none
unfolding composed_outbound composed_revision new_snapshot save_revision has_active_approval
rows_allowed o policy_error n now key d owner mode e db own new_revision new_draft owned user active
      manages from folded enabled verified ready =
    let r = composed_revision o n now d owner.id mode e in
    let m = composed_outbound n now key d mode r e in
    let draft = new_snapshot n d in
    allowed o.hashing o.casefold policy_error o.settings
      (composed_db o n now key d owner.id mode e db) m r
      (record draft { current_revision = some r.id }) d owner own
      (find-last (λ (x : Revision). x.id == n.revision) db.revisions r new_revision (ground arith))
      (draft-updated r db.drafts draft new_draft refl) (ground arith) refl
      (snapshot-exact o n now key d owner.id mode e)
      (λ approved. rw approved (
        any-last
          (λ (a : DraftApproval).
            a.revision_id == m.revision_id
            && is_none a.invalidated_at
            && a.content_hash == m.content_hash)
          db.approvals (approval_row n d owner.id r) (ground arith)))
      owned (sent-ready o m d from folded enabled verified ready) user active manages

mode_allowed :
    (o : Outside) (n : NewRows) (now key : ℕ) (domain : Domain) (owner : User)
    (mode : AuthorizationMode) (e : Email) (desk desk' : Desk) (m : OutboundMessage)
    → send_composed_email o n now key domain owner mode e desk ≡ finished m desk'
    → is_mode mode agent_policy ≡ false
unfolding send_composed_email
mode_allowed o n now key domain owner mode e desk desk' m h = ground arith

once_new :
    (o : Outside) (n : NewRows) (now key : ℕ) (d : Domain) (owner : User) (mode : AuthorizationMode)
    (e : Email) (desk desk' : Desk) (m : OutboundMessage)
    → find (has_idempotency_key d.id key) desk.db.outbound ≡ none
    → compose_once o n now key d owner mode e desk ≡ finished m desk'
    → compose_new o n now key d owner mode e desk ≡ finished m desk'
unfolding compose_once
once_new o n now key d owner mode e desk desk' m fresh h = ground arith

same_verdict :
    (check : Database → OutboundMessage → Option String) {a b : Database} {x y : OutboundMessage}
    → a ≡ b
    → x ≡ y
    → check b y ≡ none
    → check a x ≡ none
same_verdict check {a} {b} {x} {y} p q passes = ap (λ d. check d x) p ∙ ap (check b) q ∙ passes

-- A new email that is accepted is ready to be sent: the check that a worker makes before it submits
-- the message finds no error in the tables that the acceptance leaves. The key and the row IDs are
-- new, the domain is as the caller read it, its hostname is in its folded form, and the owner's row is
-- in the table.
pub composed_is_authorized :
    (o : Outside) (policy_error : Database → OutboundMessage → Option String) (n : NewRows)
    (now key : ℕ) (domain : Domain) (owner : User) (mode : AuthorizationMode) (e : Email)
    (desk desk' : Desk) (m : OutboundMessage)
    → find (has_idempotency_key domain.id key) desk.db.outbound ≡ none
    → revision_of n.revision desk.db ≡ none
    → draft_of n.draft desk.db ≡ none
    → domain_of domain.id desk.db ≡ some domain
    → user_of domain.owner_id desk.db ≡ some owner
    → o.casefold domain.hostname ≡ domain.hostname
    → send_composed_email o n now key domain owner mode e desk ≡ finished m desk'
    → authorization_error o.hashing o.casefold policy_error o.settings desk'.db m ≡ none
composed_is_authorized o policy_error n now key domain owner mode e desk desk' m fresh new_revision
      new_draft owned user folded sent =
    let (d, here, from, active, _, own, once) =
      send-finished o n now key domain owner mode e desk desk' m sent in
    let same : d ≡ domain =
      found_same (find (is_own_domain domain.id owner.id) desk.db.domains) d domain here
        (own_found owner.id domain desk.db.domains owned own) in
    let locked = lock_desk owner.id desk in
    let new =
      once_new o n now key domain owner mode e locked desk' m fresh (
        subst (λ x. compose_once o n now key x owner mode e locked ≡ finished m desk') same once) in
    let (manages, enabled, verified, ready, counted) =
      compose_new-finished o n now key domain owner mode e locked desk' m new in
    let (controls, w) =
      with_capacity-finished o now domain locked desk'
        (write_composed o n now key domain owner.id mode e) m counted in
    let checked = record desk.db { controls = controls } in
    let (m_eq, db_eq) =
      write_composed-finished o n now key domain owner.id mode e (record desk { db = checked })
        desk' m w in
    same_verdict (authorization_error o.hashing o.casefold policy_error o.settings) db_eq m_eq (
      rows_allowed o policy_error n now key domain owner mode e checked
        (mode_allowed o n now key domain owner mode e desk desk' m sent) new_revision new_draft
        owned user active manages (subst (λ x. is_sent_from o e.from_address x ≡ true) same from)
        folded enabled verified ready)
