-- ===== src/Handling/AgentMail.antt =====
-- `security_block` and `no_reply` of inbox/services/handling_policy.py, and `authorization_error` of
-- inbox/services/handling.py, which checks a queued reply of the built-in agent once more before it is
-- submitted.
use Prim.Native.Char.{code}
use Prim.Native.String.{◌++◌ as str_append}
use text.Mathlib.Text.{◌==◌ as str_eq}
use operational_inbox.Common.{
  ℕ, Bool, true, false, Option, none, some, String, List, [], ◌∷◌, ◌==◌, ◌&&◌, ◌||◌, not, any,
  is_id, if◌then◌else◌,
}
use operational_inbox.Drafts.{Revision}
use operational_inbox.Outbound.Message.{OutboundMessage}
use operational_inbox.Outbound.Submission.Address.{has_suffix}
use operational_inbox.Handling.States.{HandlingState}
use operational_inbox.Handling.Runs.{Run, RunAction, View}
use operational_inbox.Handling.Working.{is_current}

-- `automation_headers`; a flag is true where the entry is there and not empty.
pub record AutomationHeaders : Type 0 where
  pub auto_submitted : String
  pub list_id : Bool
  pub bulk : Bool
  pub bounce : Bool
  pub suppress : Bool
  pub empty_return_path : Bool

-- The context message, with its domain's hostname.
pub record Mail : Type 0 where
  pub from_address : String
  pub reply_to_address : String
  pub is_purged : Bool
  pub is_quarantined : Bool
  pub has_passed_virus_scan : Bool
  pub has_auth_failure : Bool
  pub is_suspicious : Bool
  pub headers : AutomationHeaders
  pub hostname : String

abbrev pub has_reply_to : Mail → Bool
has_reply_to m = not (str_eq m.reply_to_address "")

-- `security_block`; no text is `none`.
unfoldable pub security_block : (casefold : String → String) → Mail → Option String
security_block casefold m =
    if m.is_purged
    then some "Message content has expired."
    else if m.is_quarantined || not m.has_passed_virus_scan
    then some "Quarantined content requires review."
    else if m.has_auth_failure || m.is_suspicious
    then some "Sender security checks require review."
    else if has_reply_to m && not (str_eq (casefold m.reply_to_address) (casefold m.from_address))
    then some "Reply-To differs from the sender."
    else none

-- `address.partition("@")[0]`
abbrev pub before_at : String → String
before_at String.[] = ""
before_at (String.◌∷◌ c s) = if code c == b'@' then "" else String.◌∷◌ c (before_at s)

abbrev pub robots : List String
robots = "mailer-daemon" ∷ "postmaster" ∷ "no-reply" ∷ "noreply" ∷ "do-not-reply" ∷ []

-- `no_reply`
unfoldable pub no_reply : (casefold : String → String) → Mail → Bool
no_reply casefold m =
    let h = m.headers in
    (not (str_eq h.auto_submitted "") && not (str_eq h.auto_submitted "no"))
    || h.list_id
    || h.bulk
    || h.bounce
    || h.suppress
    || h.empty_return_path
    || any (str_eq (casefold (before_at m.from_address))) robots
    || has_suffix (str_append "@" (casefold m.hostname)) (casefold m.from_address)

-- A run with the columns that tie it to its message.
pub record AgentRun : Type 0 where
  pub run : Run
  pub draft : Option ℕ
  pub domain_id : ℕ
  pub conversation_id : ℕ

abbrev pub is_reply_action : RunAction → Bool
is_reply_action RunAction.reply = true
is_reply_action _ = false

abbrev pub answer_address : Mail → String
answer_address m = if has_reply_to m then m.reply_to_address else m.from_address

-- The message is what the run wrote, to whom it answers.
unfoldable pub is_authorized_snapshot : Mail → OutboundMessage → Revision → Bool
is_authorized_snapshot mail m r =
    m.content_hash == r.content_hash
    && str_eq m.subject r.subject
    && str_eq m.body_text r.body_text
    && str_eq m.to_address (answer_address mail)

-- `authorization_error`, for the message's run, its revision, the run's context message and the row of
-- the conversation's handling.
unfoldable pub agent_authorization :
    (casefold : String → String)
    → View
    → Option HandlingState
    → Option AgentRun
    → Mail
    → Revision
    → OutboundMessage
    → Option String
agent_authorization casefold v state run mail r m = elim run [
  | none ↦ some "Agent authorization is missing."
  | some a ↦
      if not (is_id a.draft r.draft_id) || not (is_reply_action a.run.action)
      then some "Agent authorization is missing."
      else if not (is_authorized_snapshot mail m r)
      then some "Agent reply no longer matches its authorized snapshot."
      else elim state [
        | none ↦ some "Agent authorization does not cover this conversation."
        | some s ↦
            if not (a.domain_id == m.domain_id) || not (a.conversation_id == m.conversation_id)
            then some "Agent authorization does not cover this conversation."
            else if not (is_current v s a.run none)
            then some "The agent context or policy changed."
            else elim (security_block casefold mail) [
              | some error ↦ some error
              | none ↦
                  if no_reply casefold mail
                  then some "Automated mail must not receive replies."
                  else none
            ]
      ]
]
