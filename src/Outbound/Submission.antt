-- ===== src/Outbound/Submission.antt =====
-- `submit_outbound` of inbox/services/outbound.py in its three parts: the transaction that claims
-- a queued message, the call of SES, and the transaction that records how the call ended; and
-- `recover_stale_submissions`, for claims whose worker died. Each transaction reads the clock once.
mod Outcome
unfoldable pub use Outcome.*
pub mod Address
pub mod Authorization
pub mod Exact
use operational_inbox.Common.{
  ℕ, Bool, true, false, Option, none, some, String, List, [], ◌∷◌, ◌++◌, ◌==◌, ◌&&◌, ◌||◌, not, leb,
  find, filter, any, length, if◌then◌else◌, is_none, is_some, or_else, minutes, ◌+◌, update_where,
}
use text.Mathlib.Text.{◌==◌ as str_eq}
use operational_inbox.Accounts.{Domain}
use operational_inbox.Outbound.Message.{
  OutboundMessage, OutboundControl, OutboundState, queued, submitting, accepted, delivered, failed,
  unknown, bounced, complained, is_queued, is_submitting,
}
use operational_inbox.Outbound.Quota.{get_outbound_control}
use operational_inbox.Database.{
  log_audit, OutboundAudit, Database, outbound_of, domain_of, change_outbound, notify_problem,
  is_problem,
}

-- The control row of an account says that sending is paused.
abbrev pub is_paused_for : ℕ → List OutboundControl → Bool
is_paused_for user controls = elim (find (λ (c : OutboundControl). c.user_id == user) controls) [
  | none ↦ false
  | some c ↦ c.is_paused
]

-- The account's lock, which adds a missing control row.
abbrev pub lock_control : ℕ → Database → Database
lock_control owner db = record db { controls = (get_outbound_control owner db.controls).0 }

unfoldable pub refuse : (error : String) (now : ℕ) → OutboundMessage → OutboundMessage
refuse error now m = record m {
  status = failed;
  failed_at = some now;
  error_code = "send_authorization_revoked";
  error_message = error;
  updated_at = now;
}

unfoldable pub take : (now : ℕ) → OutboundMessage → OutboundMessage
take now m = record m { status = submitting; updated_at = now }

-- The first transaction once the row and its domain are read, the account being locked.
-- `authorize` is `_authorization_error`, with `none` for the empty text.
unfoldable pub claim_row :
    (authorize : Database → OutboundMessage → Option String) (now : ℕ)
    → OutboundMessage
    → Domain
    → Database
    → Database × Option OutboundMessage
claim_row authorize now m d locked =
    if not (is_queued m.status)
    then (locked, none)
    else if is_paused_for d.owner_id locked.controls
    then (locked, none)
    else elim (authorize locked m) [
      | some error ↦ (
        notify_problem (refuse error now m) (change_outbound m.id (refuse error now) locked),
        none,
      )
      | none ↦ (change_outbound m.id (take now) locked, some (take now m))
    ]

-- The first transaction. With `some m` the worker goes on to call SES for `m`; with `none` it
-- returns.
unfoldable pub claim :
    (authorize : Database → OutboundMessage → Option String) (id now : ℕ)
    → Database
    → Database × Option OutboundMessage
claim authorize id now db = elim (outbound_of id db) [
  | none ↦ (db, none)
  | some m ↦ elim (domain_of m.domain_id db) [
    | none ↦ (db, none)
    | some d ↦ claim_row authorize now m d (lock_control d.owner_id db)
  ]
]

abbrev pub finished_audit : OutboundMessage → OutboundAudit
finished_audit m = record {
  domain_id = m.domain_id;
  outbound_id = m.id;
  event_type = "outbound.submission_finished";
  state = m.status;
}

unfoldable pub report_lost : OutboundMessage → Database → Database
report_lost m db = if is_failed_or_unknown m.status then notify_problem m db else db

-- The second transaction: how the call for `m` ended goes into the row, unless an event has
-- settled the row's state in the meantime. The row comes back if it is then recorded in the
-- timeline by `record_outbound_message`.
unfoldable pub finish :
    (now : ℕ) → SesOutcome → OutboundMessage → Database → Database × Option OutboundMessage
finish now outcome m db = elim (outbound_of m.id db) [
  | none ↦ (db, none)
  | some row ↦
      let current = settle now outcome m.rfc_message_id row in
      let saved = change_outbound m.id (settle now outcome m.rfc_message_id) db in
      (
        report_lost current (log_audit (finished_audit current) saved),
        if str_eq current.provider_message_id "" then none else some current,
      )
]

abbrev pub is_stale_submission : (now stale_after_minutes : ℕ) → OutboundMessage → Bool
is_stale_submission now stale_after_minutes m =
    is_submitting m.status && leb (m.updated_at + minutes stale_after_minutes) now

unfoldable pub give_up : (now : ℕ) → OutboundMessage → OutboundMessage
give_up now m = record m {
  status = unknown;
  failed_at = some now;
  error_code = "ses_acceptance_unknown";
  error_message =
      "The sender stopped while submitting. Automatic retry is disabled; the owner must explicitly resend.";
  updated_at = now;
}

-- One round of the loop, for the row as the query read it: its ID is saved with the new columns,
-- whatever became of the row meanwhile.
unfoldable pub recover_submission : (now : ℕ) → (read : OutboundMessage) → Database → Database
recover_submission now read db =
    notify_problem (give_up now read) (change_outbound read.id (give_up now) db)

-- The loop over the stale rows.
unfoldable pub give_up_all : (now : ℕ) → List OutboundMessage → Database → Database
give_up_all now [] db = db
give_up_all now (m ∷ ms) db = give_up_all now ms (recover_submission now m db)

-- `recover_stale_submissions`, for the messages as its query without a lock read them.
unfoldable pub recover_stale_submissions :
    (now stale_after_minutes : ℕ) → (read : List OutboundMessage) → Database → Database × ℕ
recover_stale_submissions now stale_after_minutes read db =
    let stale = filter (is_stale_submission now stale_after_minutes) read in
    (give_up_all now stale db, length stale)
