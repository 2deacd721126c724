-- ===== src/Outbound/Workers/Unqueues.antt =====
-- The other transactions: none of them makes a row queued.
use text.Mathlib.Text.{◌==◌ as str_eq}
use native.Mathlib.Nat.{le_trans}
use operational_inbox.Outbound.Submission.Address.{has_suffix}
use operational_inbox.Common.{
  any, not, ap, ℕ, Bool, true, false, Option, none, some, String, List, ◌==◌, ◌≡◌, refl, ◌≤◌, arith,
  count, inl, inr, Option-cases,
}
use operational_inbox.Outbound.Message.{
  AuthorizationMode, OutboundState, OutboundMessage, is_queued,
}
use operational_inbox.Outbound.Submission.{
  report_lost, finished_audit, SesOutcome, finish, settle, give_up, recover_submission,
}
use operational_inbox.Outbound.Delivery.{
  move_to, state_after, event_audit, event_row, EventType, Notice, apply_event, reach, next_state,
  adopt_ids,
}
use operational_inbox.Database.{
  log_event, log_audit_if, change_if, DeliveryEvent, log_audit, OutboundAudit, Database, has_id,
  change_outbound, outbound_of,
}
use operational_inbox.Outbound.Workers.Steps.{adopt, expire}
use operational_inbox.Outbound.Workers.Claims.{queued_of, count-update_le, notify_problem-outbound}

-- A change of rows after which no row is queued that was not queued under its ID before.
abbrev pub Unqueues : (OutboundMessage → OutboundMessage) → Type 0
Unqueues f = (k : ℕ) (x : OutboundMessage) → queued_of k (f x) ≡ true → queued_of k x ≡ true

settle-Unqueues :
    (now : ℕ) (o : SesOutcome) (requested : String) → Unqueues (settle now o requested)
unfolding settle
settle-Unqueues now o requested k x h = ground arith

give_up-Unqueues : (now : ℕ) → Unqueues (give_up now)
unfolding give_up
give_up-Unqueues now k x h = ground arith

pub adopt-Unqueues : (mode : AuthorizationMode) (now : ℕ) → Unqueues (adopt mode now)
adopt-Unqueues mode now k x h = ground arith

pub expire-Unqueues : (now : ℕ) → Unqueues (expire now)
expire-Unqueues now k x h = ground arith

next_state-ne-queued :
    (e : EventType) (current state : OutboundState)
    → next_state e current ≡ some state
    → is_queued state ≡ false
unfolding next_state
next_state-ne-queued e current state h = ground arith

reach-Unqueues :
    (state : OutboundState) (at now : ℕ) → is_queued state ≡ false → Unqueues (reach state at now)
unfolding reach
reach-Unqueues state at now h k x q = ground arith

report_lost-outbound :
    (m : OutboundMessage) (db : Database) → (report_lost m db).outbound ≡ db.outbound
unfolding report_lost
report_lost-outbound m db = ground (arith, notify_problem-outbound m db)

pub finish_permission :
    (now k : ℕ) (o : SesOutcome) (m : OutboundMessage) (db : Database)
    → count (queued_of k) (finish now o m db).0.outbound ≤ count (queued_of k) db.outbound
unfolding finish
finish_permission now k o m db = elim (Option-cases (outbound_of m.id db)) [
  | inl e ↦ ground arith
  | inr (row, e) ↦
      let current = settle now o m.rfc_message_id row in
      let saved = change_outbound m.id (settle now o m.rfc_message_id) db in
      ground (
        arith,
        report_lost-outbound current (log_audit (finished_audit current) saved),
        count-update_le (queued_of k) (has_id m.id) (settle now o m.rfc_message_id) db.outbound
            (settle-Unqueues now o m.rfc_message_id k),
      )
]

pub recover_permission :
    (now k : ℕ) (m : OutboundMessage) (db : Database)
    → count (queued_of k) (recover_submission now m db).outbound ≤ count (queued_of k) db.outbound
unfolding recover_submission
recover_permission now k m db =
    let lost = change_outbound m.id (give_up now) db in
    omega (
      arith,
      ap (λ rows. count (queued_of k) rows) (notify_problem-outbound (give_up now m) lost),
      count-update_le (queued_of k) (has_id m.id) (give_up now) db.outbound
          (give_up-Unqueues now k),
    )

move_to_permission :
    (next : Option OutboundState) (at now k : ℕ) (m : OutboundMessage) (db : Database)
    → ((state : OutboundState) → next ≡ some state → is_queued state ≡ false)
    → count (queued_of k) (move_to next at now m db).outbound ≤ count (queued_of k) db.outbound
unfolding move_to
move_to_permission none at now k m db h = omega arith
move_to_permission (some state) at now k m db h = omega (
  arith,
  ap (λ rows. count (queued_of k) rows)
      (notify_problem-outbound (reach state at now m)
        (change_outbound m.id (reach state at now) db)),
  count-update_le (queued_of k) (has_id m.id) (reach state at now) db.outbound
      (reach-Unqueues state at now (h state refl) k),
)

change_if_permission :
    (b : Bool) (id k : ℕ) (f : OutboundMessage → OutboundMessage) (db : Database)
    → ((x : OutboundMessage) → queued_of k (f x) ≡ true → queued_of k x ≡ true)
    → count (queued_of k) (change_if b id f db).outbound ≤ count (queued_of k) db.outbound
unfolding change_if
change_if_permission b id k f db h =
    ground (arith, count-update_le (queued_of k) (has_id id) f db.outbound h)

adopt_ids_permission :
    (n : Notice) (now k : ℕ) (m : OutboundMessage) (db : Database)
    → count (queued_of k) (adopt_ids n now m db).outbound ≤ count (queued_of k) db.outbound
unfolding adopt_ids
adopt_ids_permission n now k m db =
    let name = λ (x : OutboundMessage). record x {
      provider_message_id = n.provider_message_id;
      updated_at = now;
    } in
    let b = str_eq m.provider_message_id "" in
    le_trans
      (change_if_permission (has_suffix "@operationalinbox.com>" m.rfc_message_id) m.id k
        (λ x. record x { rfc_message_id = n.provider_message_id; updated_at = now })
        (change_if b m.id name db) (λ x q. q))
      (change_if_permission b m.id k name db (λ x q. q))

log_event-outbound :
    (b : Bool) (e : DeliveryEvent) (db : Database) → (log_event b e db).outbound ≡ db.outbound
unfolding log_event
log_event-outbound b e db = ground arith

log_audit_if-outbound :
    (b : Bool) (e : OutboundAudit) (db : Database) → (log_audit_if b e db).outbound ≡ db.outbound
unfolding log_audit_if
log_audit_if-outbound b e db = ground arith

pub event_permission :
    (n : Notice) (now k : ℕ) (m : OutboundMessage) (db : Database)
    → count (queued_of k) (apply_event n now m db).0.outbound ≤ count (queued_of k) db.outbound
unfolding apply_event
event_permission n now k m db =
    let next = next_state n.event_type m.status in
    let is_new =
      not
        (any (λ (e : DeliveryEvent). e.provider_event_id == n.sns_message_id) db.delivery_events) in
    let named = adopt_ids n now m db in
    let logged = log_event is_new (event_row n m) named in
    let queued_in = λ (rows : List OutboundMessage). count (queued_of k) rows in
    omega (
      arith,
      ap queued_in (
          log_audit_if-outbound is_new (event_audit n m (state_after next m.status))
            (move_to next n.occurred_at now m logged)),
      move_to_permission next n.occurred_at now k m logged
          (next_state-ne-queued n.event_type m.status),
      ap queued_in (log_event-outbound is_new (event_row n m) named),
      adopt_ids_permission n now k m db,
    )
