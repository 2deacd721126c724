-- ===== src/Database.antt =====
-- The tables that sending reads and writes, as one state. A function that runs in a transaction
-- maps the state at its start to the state that it commits.
use operational_inbox.Common.{
  ℕ, Bool, true, false, Option, String, List, [], ◌∷◌, ◌++◌, ◌==◌, ◌&&◌, any, find, update_where,
  if◌then◌else◌,
}
use operational_inbox.Accounts.{Domain, BillingProfile, User}
use operational_inbox.Drafts.{ReplyDraft, Revision, DraftApproval}
use operational_inbox.Outbound.Message.{
  OutboundMessage, OutboundControl, OutboundState, queued, submitting, accepted, delivered, failed,
  unknown, bounced, complained,
}

-- A row of `Notification` that reports a problem of one outbound message. Its texts are left out.
pub record OutboundNotification : Type 0 where
  pub domain_id : ℕ
  pub outbound_id : ℕ
  pub state : OutboundState

-- A row of `AuditEvent` about an outbound message.
pub record OutboundAudit : Type 0 where
  pub domain_id : ℕ
  pub outbound_id : ℕ
  pub event_type : String
  pub state : OutboundState

-- A row of `DeliveryEvent`.
pub record DeliveryEvent : Type 0 where
  pub provider_event_id : ℕ
  pub domain_id : ℕ
  pub outbound_id : ℕ
  pub provider_message_id : String
  pub occurred_at : ℕ

pub record Database : Type 0 where
  pub users : List User
  pub profiles : List BillingProfile
  pub domains : List Domain
  pub controls : List OutboundControl
  pub drafts : List ReplyDraft
  pub revisions : List Revision
  pub approvals : List DraftApproval
  pub outbound : List OutboundMessage
  pub notifications : List OutboundNotification
  pub delivery_events : List DeliveryEvent
  pub audit : List OutboundAudit

abbrev pub has_id : ℕ → OutboundMessage → Bool
has_id k m = m.id == k

-- `OutboundMessage.objects.get(id=id)`
abbrev pub outbound_of : ℕ → Database → Option OutboundMessage
outbound_of k db = find (has_id k) db.outbound

abbrev pub domain_of : ℕ → Database → Option Domain
domain_of k db = find (λ (d : Domain). d.id == k) db.domains

-- `save(update_fields=…)`, or an `update` by the primary key: the columns that `change` writes.
abbrev pub change_outbound : ℕ → (OutboundMessage → OutboundMessage) → Database → Database
change_outbound k change db = record db { outbound = update_where (has_id k) change db.outbound }

-- The same under a condition.
unfoldable pub change_if : Bool → ℕ → (OutboundMessage → OutboundMessage) → Database → Database
change_if b k change db = if b then change_outbound k change db else db

abbrev pub state_number : OutboundState → ℕ
state_number queued = 0
state_number submitting = 1
state_number accepted = 2
state_number delivered = 3
state_number failed = 4
state_number unknown = 5
state_number bounced = 6
state_number complained = 7

-- The states of which an owner is told.
abbrev pub is_problem : OutboundState → Bool
is_problem failed = true
is_problem unknown = true
is_problem bounced = true
is_problem complained = true
is_problem _ = false

-- `create_outbound_problem_notifications`: one notification for a message and a state.
unfoldable pub notify_problem : OutboundMessage → Database → Database
notify_problem m db =
    if is_problem m.status
    then (if any
          (λ (n : OutboundNotification).
            n.domain_id == m.domain_id
            && n.outbound_id == m.id
            && state_number n.state == state_number m.status)
          db.notifications
        then db
        else record db {
          notifications =
              db.notifications
              ++ record { domain_id = m.domain_id; outbound_id = m.id; state = m.status } ∷ [];
        })
    else db

-- `AuditEvent.objects.create`
abbrev pub log_audit : OutboundAudit → Database → Database
log_audit e db = record db { audit = db.audit ++ e ∷ [] }

-- A delivery event's own row and its audit row, which only a new event has.
unfoldable pub log_event : Bool → DeliveryEvent → Database → Database
log_event is_new e db =
    if is_new then record db { delivery_events = db.delivery_events ++ e ∷ [] } else db

unfoldable pub log_audit_if : Bool → OutboundAudit → Database → Database
log_audit_if b e db = if b then log_audit e db else db
