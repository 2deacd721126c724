-- ===== src/Outbound/Delivery.antt =====
-- `process_delivery_notification` of inbox/services/ingestion.py: what an SES delivery event does
-- to the outbound message that it is about. The JSON of the event is read beforehand into a
-- `Notice`; the calls of the threading component are returned in their order.
pub mod Order
use operational_inbox.Common.{
  ℕ, Bool, true, false, Option, none, some, String, List, [], ◌∷◌, ◌++◌, ◌==◌, ◌&&◌, ◌||◌, not, any,
  find, if◌then◌else◌, update_where,
}
use text.Mathlib.Text.{◌==◌ as str_eq}
use operational_inbox.Outbound.Message.{
  OutboundMessage, OutboundState, queued, submitting, accepted, delivered, failed, unknown, bounced,
  complained,
}
use operational_inbox.Outbound.Submission.Address.{has_suffix}
use operational_inbox.Database.{
  log_event, log_audit_if, change_if, log_audit, Database, DeliveryEvent, outbound_of, has_id,
  notify_problem, change_outbound, OutboundAudit,
}

pub data EventType : Type 0 where
  delivery bounce complaint reject rendering_failure send delivery_delay : EventType
  other : String → EventType

-- The fields of an event, read from its JSON: the IDs that it names, its type and its time.
-- `tagged_id` is the `outbound_id` tag, if it is the text of a UUID.
pub record Notice : Type 0 where
  pub sns_message_id : ℕ
  pub provider_message_id : String
  pub tagged_id : Option ℕ
  pub header_message_id : Option String
  pub event_type : EventType
  pub occurred_at : ℕ

-- What the threading component is asked to do: `record_ses_reference` and
-- `record_outbound_message`.
pub data FollowUp : Type 0 where
  observe_reference : (id : ℕ) (identifier : String) → FollowUp
  record_sent : (id : ℕ) (requested_message_id : String) (sent_at : ℕ) → FollowUp

-- `DELIVERY_STATE_MAP`
abbrev pub delivery_state : EventType → Option OutboundState
delivery_state delivery = some delivered
delivery_state bounce = some bounced
delivery_state complaint = some complained
delivery_state reject = some failed
delivery_state rendering_failure = some failed
delivery_state _ = none

-- The guards that set `next_state` to `None`: by the state of the row, and by the next state.
abbrev pub is_superseded : (current next : OutboundState) → Bool
is_superseded complained next = true
is_superseded bounced complained = false
is_superseded bounced next = true
is_superseded failed delivered = true
is_superseded delivered failed = true
is_superseded current next = false

unfoldable pub next_state : EventType → OutboundState → Option OutboundState
next_state e current = elim (delivery_state e) [
  | none ↦ none
  | some next ↦ if is_superseded current next then none else some next
]

-- The columns that the new state writes.
unfoldable pub reach : OutboundState → (occurred_at now : ℕ) → OutboundMessage → OutboundMessage
reach delivered occurred_at now m = record m {
  status = delivered;
  delivered_at = some occurred_at;
  updated_at = now;
}
reach failed occurred_at now m = record m {
  status = failed;
  failed_at = some occurred_at;
  updated_at = now;
}
reach bounced occurred_at now m = record m {
  status = bounced;
  failed_at = some occurred_at;
  updated_at = now;
}
reach complained occurred_at now m = record m {
  status = complained;
  failed_at = some occurred_at;
  updated_at = now;
}
reach next occurred_at now m = record m { status = next; updated_at = now }

-- The message is found by the provider's ID, else by the tag.
unfoldable pub matching_outbound : Notice → Database → Option OutboundMessage
matching_outbound n db =
    elim (find (λ (m : OutboundMessage). str_eq m.provider_message_id n.provider_message_id)
      db.outbound) [
        | some m ↦ some m
        | none ↦ elim n.tagged_id [ none ↦ none | some k ↦ outbound_of k db ]
      ]

-- The provider's ID is filled in if it is missing, and so is a Message-ID that SES has replaced.
unfoldable pub adopt_ids : Notice → (now : ℕ) → OutboundMessage → Database → Database
adopt_ids n now snapshot db =
    change_if (has_suffix "@operationalinbox.com>" snapshot.rfc_message_id) snapshot.id
      (λ m. record m { rfc_message_id = n.provider_message_id; updated_at = now })
      (change_if (str_eq snapshot.provider_message_id "") snapshot.id
        (λ m. record m { provider_message_id = n.provider_message_id; updated_at = now }) db)

abbrev pub is_recorded : EventType → Bool
is_recorded send = true
is_recorded delivery = true
is_recorded bounce = true
is_recorded complaint = true
is_recorded delivery_delay = true
is_recorded _ = false

abbrev pub event_row : Notice → OutboundMessage → DeliveryEvent
event_row n m = record {
  provider_event_id = n.sns_message_id;
  domain_id = m.domain_id;
  outbound_id = m.id;
  provider_message_id = n.provider_message_id;
  occurred_at = n.occurred_at;
}

abbrev pub event_audit : Notice → OutboundMessage → OutboundState → OutboundAudit
event_audit n m state = record {
  domain_id = m.domain_id;
  outbound_id = m.id;
  event_type = "outbound.delivery_event";
  state = state;
}

-- The new state, if there is one, is written and reported.
unfoldable pub move_to :
    Option OutboundState → (occurred_at now : ℕ) → OutboundMessage → Database → Database
move_to none occurred_at now snapshot db = db
move_to (some state) occurred_at now snapshot db =
    notify_problem (reach state occurred_at now snapshot)
      (change_outbound snapshot.id (reach state occurred_at now) db)

-- The state of the message object at the end.
abbrev pub state_after : Option OutboundState → OutboundState → OutboundState
state_after none current = current
state_after (some state) current = state

-- The calls of the threading component.
unfoldable pub follow_ups : Notice → OutboundMessage → List FollowUp
follow_ups n snapshot =
    let observed : List FollowUp = elim n.header_message_id [
      | none ↦ []
      | some identifier ↦ observe_reference snapshot.id identifier ∷ []
    ] in
    observed
    ++ (if is_recorded n.event_type
        then record_sent snapshot.id snapshot.rfc_message_id n.occurred_at ∷ []
        else [])

-- The handling of an event for the row that was read. The guards look at what was read; an event
-- that was seen before adds no row and no audit, and is applied once more.
unfoldable pub apply_event :
    Notice → (now : ℕ) → (snapshot : OutboundMessage) → Database → Database × List FollowUp
apply_event n now snapshot db =
    let is_new =
      not
        (any (λ (e : DeliveryEvent). e.provider_event_id == n.sns_message_id) db.delivery_events) in
    let next = next_state n.event_type snapshot.status in
    let logged = log_event is_new (event_row n snapshot) (adopt_ids n now snapshot db) in
    (
      log_audit_if is_new (event_audit n snapshot (state_after next snapshot.status))
          (move_to next n.occurred_at now snapshot logged),
      follow_ups n snapshot,
    )

-- Whether the queue's message is done with, the state and the follow-up calls.
unfoldable pub process_delivery_notification :
    Notice → (now : ℕ) → Database → Bool × Database × List FollowUp
process_delivery_notification n now db =
    if str_eq n.provider_message_id "" then (true, db, []) else elim (matching_outbound n db) [
      | none ↦ (false, db, [])
      | some m ↦ let (db', calls) = apply_event n now m db in (true, db', calls)
    ]
