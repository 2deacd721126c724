-- ===== src/Replies/Retried.antt =====
-- A caller that repeats a new email under its idempotency key (inbox/services/compose.py).
use operational_inbox.Common.{
  ℕ, Bool, String, List, [], ◌∷◌, ◌&&◌, is_id, ap, refl, Bool-cases, inl, inr, true, false, some,
  ◌==◌, ◌≡◌, sym, ◌∙◌, subst, arith, find, if◌then◌else◌, ==_iff,
}
use operational_inbox.Accounts.{Domain, User}
use operational_inbox.Outbound.Message.{OutboundMessage, AuthorizationMode, agent_policy}
use operational_inbox.Outbound.Submission.Authorization.{is_mode}
use operational_inbox.Replies.Desk.{Desk, rejected, finished, idempotency_conflict, Outside}
use operational_inbox.Replies.Writing.{lock_desk}
use operational_inbox.Replies.Compose.{
  Email, NewRows, email_digest, has_idempotency_key, is_own_domain, is_sent_from, compose_once,
  is_valid_composed, send_composed_email,
}
use operational_inbox.Replies.Composed.{send-finished, once-stored}

repeated :
    (o : Outside) (n : NewRows) (now key : ℕ) (d : Domain) (owner : User) (mode : AuthorizationMode)
    (e e' : Email) (desk : Desk) (m : OutboundMessage)
    → find (has_idempotency_key d.id key) desk.db.outbound ≡ some m
    → m.content_hash ≡ email_digest o e
    → compose_once o n now key d owner mode e' desk ≡ (
        if email_digest o e == email_digest o e'
        then finished m desk
        else rejected idempotency_conflict)
unfolding compose_once
repeated o n now key d owner mode e e' desk m found same = rw (sym same) (ground arith)

reached :
    (o : Outside) (n : NewRows) (now key : ℕ) (domain d : Domain) (owner : User)
    (mode : AuthorizationMode) (e : Email) (desk : Desk)
    → find (is_own_domain domain.id owner.id) desk.db.domains ≡ some d
    → is_sent_from o e.from_address d ≡ true
    → owner.is_active ≡ true
    → is_valid_composed o e ≡ true
    → (domain.owner_id == owner.id) ≡ true
    → is_mode mode agent_policy ≡ false
    → send_composed_email o n now key domain owner mode e desk
      ≡ compose_once o n now key d owner mode e (lock_desk owner.id desk)
unfolding send_composed_email
reached o n now key domain d owner mode e desk here from active valid owned allowed = ground arith

-- The rows of a table later on: the old ones in their place, each as `R` allows, and new ones.
pub data Extends {A : Type 0} (R : A → A → Type 0) : List A → List A → Type 0 where
  added : (ys : List A) → Extends R [] ys
  kept : {x y : A} {xs ys : List A} → R x y → Extends R xs ys → Extends R (x ∷ xs) (y ∷ ys)

found_later :
    {A : Type 0} (R : A → A → Type 0) (test : A → Bool)
    → ((x y : A) → R x y → test y ≡ test x)
    → {xs ys : List A} (x : A) → Extends R xs ys
    → find test xs ≡ some x
    → (y : A) × R x y × (find test ys ≡ some y)
found_later R test same x (added ys) e = absurd (ground arith)
found_later R test same x (kept {x = a} {y = b} {xs = xs} {ys = ys} r rest) e =
    elim (Bool-cases (test a)) [
      | inl hit ↦
          let here : a ≡ x = ground arith in
          (b, subst (λ z. R z b) here r, ground (arith, same a b r))
      | inr miss ↦
          let (y, ry, found) = found_later R test same x rest (ground arith) in
          (y, ry, ground (arith, same a b r))
    ]

-- What no service changes in a stored message and in a domain.
pub record IsSameMessage (m m' : OutboundMessage) : Type 0 where
  pub same_id : m'.id ≡ m.id
  pub same_domain : m'.domain_id ≡ m.domain_id
  pub same_key : m'.idempotency_key ≡ m.idempotency_key
  pub same_hash : m'.content_hash ≡ m.content_hash

pub record IsSameDomain (d d' : Domain) : Type 0 where
  pub same_id : d'.id ≡ d.id
  pub same_owner : d'.owner_id ≡ d.owner_id
  pub same_hostname : d'.hostname ≡ d.hostname

-- The tables at some later time. Only stored messages and domains keep their identity; their other
-- columns, the other tables and new rows are free.
pub record IsLater (desk later : Desk) : Type 0 where
  pub messages : Extends IsSameMessage desk.db.outbound later.db.outbound
  pub domains : Extends IsSameDomain desk.db.domains later.db.domains

key-IsSameMessage :
    (domain key : ℕ) (m m' : OutboundMessage)
    → IsSameMessage m m'
    → has_idempotency_key domain key m' ≡ has_idempotency_key domain key m
key-IsSameMessage domain key m m' same =
    ap (λ d. d == domain && is_id m'.idempotency_key key) same.same_domain
    ∙ ap (λ k. m.domain_id == domain && is_id k key) same.same_key

own-IsSameDomain :
    (domain owner : ℕ) (d d' : Domain)
    → IsSameDomain d d'
    → is_own_domain domain owner d' ≡ is_own_domain domain owner d
own-IsSameDomain domain owner d d' same =
    ap (λ k. k == domain && d'.owner_id == owner) same.same_id
    ∙ ap (λ k. d.id == domain && k == owner) same.same_owner

from-IsSameDomain :
    (o : Outside) (address : String) (d d' : Domain)
    → IsSameDomain d d'
    → is_sent_from o address d' ≡ is_sent_from o address d
unfolding is_sent_from
from-IsSameDomain o address d d' same = rw same.same_hostname refl

-- When an email was accepted under a key, then with the same configuration every later valid request of the active owner under the key
-- and from the same address of the domain queues nothing, whatever its mode, its time, and the plan,
-- the quotas, the domain's state and all other rows by then, if the stored messages and domains still
-- stand with their IDs, keys, hashes, owners and hostnames: it returns the stored message if the
-- sender, the recipient, the subject and the body have the same digest, and else it is refused as a
-- conflict.
pub retry_sends_nothing :
    (o : Outside) (n n' : NewRows) (now now' key : ℕ) (domain domain' : Domain)
    (owner owner' : User) (mode mode' : AuthorizationMode) (e e' : Email) (desk desk' later : Desk)
    (m : OutboundMessage)
    → send_composed_email o n now key domain owner mode e desk ≡ finished m desk'
    → IsLater desk' later
    → IsSameDomain domain domain'
    → (owner'.id ≡ owner.id) × (owner'.is_active ≡ true)
    → is_valid_composed o e' ≡ true
    → e'.from_address ≡ e.from_address
    → is_mode mode' agent_policy ≡ false
    → (m' : OutboundMessage) × IsSameMessage m m'
      × (send_composed_email o n' now' key domain' owner' mode' e' later ≡ (
          if email_digest o e == email_digest o e'
          then finished m' (lock_desk owner'.id later)
          else rejected idempotency_conflict))
retry_sends_nothing o n n' now now' key domain domain' owner owner' mode mode' e e' desk desk' later
      m sent after same_domain (same_owner, active) valid same allowed =
    let (d, here, from, _, _, owned, once) =
      send-finished o n now key domain owner mode e desk desk' m sent in
    let (found, hashed, still) =
      once-stored o n now key d owner mode e (lock_desk owner.id desk) desk' m once in
    let (d', is_d, found_d) =
      found_later IsSameDomain (is_own_domain domain.id owner.id)
        (own-IsSameDomain domain.id owner.id) d after.domains
        (subst (λ ds. find (is_own_domain domain.id owner.id) ds ≡ some d) (sym still) here) in
    let (m', is_m, found_m) =
      found_later IsSameMessage (has_idempotency_key d.id key) (key-IsSameMessage d.id key) m
        after.messages found in
    (
      m',
      is_m,
      reached o n' now' key domain' d' owner' mode' e' later
            (ap (λ k. find (is_own_domain k owner'.id) later.db.domains) same_domain.same_id
              ∙ ap (λ k. find (is_own_domain domain.id k) later.db.domains) same_owner
              ∙ found_d)
            (ap (λ a. is_sent_from o a d') same
              ∙ from-IsSameDomain o e.from_address d d' is_d
              ∙ from)
            active valid
            (ap (λ k. k == owner'.id) same_domain.same_owner
              ∙ ap (λ k. domain.owner_id == k) same_owner
              ∙ owned)
            allowed
          ∙ repeated o n' now' key d' owner' mode' e e' (lock_desk owner'.id later) m'
              (ap (λ k. find (has_idempotency_key k key) later.db.outbound) is_d.same_id ∙ found_m)
              (is_m.same_hash ∙ (==_iff m.content_hash (email_digest o e)).0 hashed),
    )
