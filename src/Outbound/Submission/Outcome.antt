-- ===== src/Outbound/Submission/Outcome.antt =====
-- How a call of SES may end, and what `submit_outbound` makes of it.
use operational_inbox.Common.{
  ℕ, Bool, true, false, Option, none, some, String, ◌&&◌, ◌||◌, not, leb, if◌then◌else◌, is_none,
  or_else,
}
use Prim.Native.Nat.{zero, suc}
use text.Mathlib.Text.{◌==◌ as str_eq}
use operational_inbox.Outbound.Message.{
  OutboundMessage, OutboundState, accepted, delivered, failed, unknown, bounced, complained,
  is_submitting,
}

-- `accepted_call` has the message ID of the response and the time; `client_error` the code and
-- the HTTP status of a `ClientError`; `transport_error` is any `BotoCoreError`.
pub data SesOutcome : Type 0 where
  accepted_call : (message_id : String) (at : ℕ) → SesOutcome
  client_error : (code : String) (status_code : ℕ) → SesOutcome
  transport_error : SesOutcome

-- `text[:n]`
abbrev pub truncate : ℕ → String → String
truncate zero s = ""
truncate (suc n) String.[] = ""
truncate (suc n) (String.◌∷◌ c s) = String.◌∷◌ c (truncate n s)

pub record Target : Type 0 where
  pub status : OutboundState
  pub error_code : String
  pub error_message : String
  pub provider_message_id : String
  pub accepted_at : Option ℕ

-- The variables that the `try` statement leaves.
unfoldable pub target_of : SesOutcome → Target
target_of (accepted_call message_id at) = record {
  status = accepted;
  error_code = "";
  error_message = "";
  provider_message_id = message_id;
  accepted_at = some at;
}
target_of (client_error code status_code) =
    if leb 500 status_code
    then record {
      status = unknown;
      error_code = "ses_acceptance_unknown";
      error_message = "SES may have accepted this message. Automatic retry is disabled.";
      provider_message_id = "";
      accepted_at = none;
    }
    else record {
      status = failed;
      error_code = truncate 64 code;
      error_message = "SES rejected the send before acceptance.";
      provider_message_id = "";
      accepted_at = none;
    }
target_of transport_error = record {
  status = unknown;
  error_code = "ses_acceptance_unknown";
  error_message = "SES acceptance could not be determined. Automatic retry is disabled.";
  provider_message_id = "";
  accepted_at = none;
}

-- The states by which a delivery event has proved acceptance.
abbrev pub proves_acceptance : OutboundState → Bool
proves_acceptance accepted = true
proves_acceptance delivered = true
proves_acceptance bounced = true
proves_acceptance complained = true
proves_acceptance _ = false

-- The provider's ID and the time of acceptance, and whether a field was changed.
unfoldable pub record_acceptance :
    (now : ℕ) → Target → (requested : String) → OutboundMessage → OutboundMessage × Bool
record_acceptance now t requested m =
    if not (str_eq t.provider_message_id "")
    then (
      record m {
        provider_message_id =
            if str_eq m.provider_message_id ""
            then t.provider_message_id
            else m.provider_message_id;
        rfc_message_id =
            if str_eq m.rfc_message_id requested then t.provider_message_id else m.rfc_message_id;
        accepted_at = if is_none m.accepted_at then t.accepted_at else m.accepted_at;
      },
      str_eq m.provider_message_id "" || str_eq m.rfc_message_id requested || is_none m.accepted_at,
    )
    else if not (str_eq m.provider_message_id "")
        && is_none m.accepted_at
        && proves_acceptance m.status
    then (record m { accepted_at = some (or_else m.delivered_at (or_else m.failed_at now)) }, true)
    else (m, false)

abbrev pub is_failed_or_unknown : OutboundState → Bool
is_failed_or_unknown failed = true
is_failed_or_unknown unknown = true
is_failed_or_unknown _ = false

-- The row after the second transaction. The state follows the call only while the row is still
-- being submitted, and the time of the change is kept if nothing changed.
unfoldable pub settle :
    (now : ℕ) → SesOutcome → (requested : String) → OutboundMessage → OutboundMessage
unfolding target_of record_acceptance
settle now outcome requested m =
    let t = target_of outcome in
    let (recorded, changed) = record_acceptance now t requested m in
    if is_submitting m.status
    then record recorded {
      status = t.status;
      error_code = t.error_code;
      error_message = t.error_message;
      failed_at = if is_failed_or_unknown t.status then some now else recorded.failed_at;
      updated_at = now;
    }
    else if changed
    then record recorded { updated_at = now }
    else recorded
