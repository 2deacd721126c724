-- ===== src/Handling/AgentSends.antt =====
-- What holds of a reply of the built-in agent that passes the check before submission.
use text.Mathlib.Text.{◌==◌ as str_eq}
use text.Mathlib.TextEquality.{eq_iff}
use operational_inbox.Common.{
  ℕ, sym, is_id, true, false, Option, none, some, String, ◌≡◌, refl, ap, ◌∙◌, arith, ==_iff,
}
use operational_inbox.Settings.{Settings}
use operational_inbox.Digest.{Hashing}
use operational_inbox.Database.{Database}
use operational_inbox.Drafts.{Revision}
use operational_inbox.Outbound.Message.{OutboundMessage, agent_policy}
use operational_inbox.Outbound.Submission.Authorization.{is_mode, authorization_error}
use operational_inbox.Handling.States.{HandlingState}
use operational_inbox.Handling.Runs.{View, Run}
use operational_inbox.Handling.Working.{is_current, is_same_id}
use operational_inbox.Handling.AgentMail.{
  Mail, security_block, no_reply, AgentRun, is_reply_action, answer_address, is_authorized_snapshot,
  agent_authorization,
}

policy_passed :
    (h : Hashing) (casefold : String → String)
    (policy_error : Database → OutboundMessage → Option String) (s : Settings) (db : Database)
    (m : OutboundMessage)
    → is_mode m.authorization_mode agent_policy ≡ true
    → authorization_error h casefold policy_error s db m ≡ none
    → policy_error db m ≡ none
unfolding authorization_error
policy_passed h casefold policy_error s db m agent passes = ground arith

agent_passed :
    (casefold : String → String) (v : View) (s : HandlingState) (a : AgentRun) (mail : Mail)
    (r : Revision) (m : OutboundMessage)
    → agent_authorization casefold v (some s) (some a) mail r m ≡ none
    → (is_reply_action a.run.action ≡ true)
      × (is_authorized_snapshot mail m r ≡ true)
      × (is_current v s a.run none ≡ true)
      × (security_block casefold mail ≡ none)
      × (no_reply casefold mail ≡ false)
unfolding agent_authorization
agent_passed casefold v s a mail r m passes = ground arith

-- The conversation is where the run found it: what `_current` compares.
pub record IsUnmoved (v : View) (s : HandlingState) (r : Run) : Type 0 where
  pub untaken : s.taken_over ≡ false
  pub same_generation : s.generation ≡ r.generation
  pub same_context : s.context_message ≡ r.context_message
  pub still_latest : v.latest_inbound ≡ some r.context_message
  pub same_policy : v.fingerprint ≡ r.policy_fingerprint
  pub nothing_sent : v.latest_outbound ≡ r.baseline_outbound
  pub still_enabled : v.is_enabled ≡ true
  pub still_managed : (v.can_manage ≡ true) × (v.owner_active ≡ true)

is_id_eq : (o : Option ℕ) (k : ℕ) → is_id o k ≡ true → o ≡ some k
is_id_eq none k h = cc
is_id_eq (some a) k h = ap (λ n. some n) ((==_iff a k).0 h)

is_same_id_eq : (a b : Option ℕ) → is_same_id a b ≡ true → a ≡ b
is_same_id_eq none none h = refl
is_same_id_eq none (some b) h = cc
is_same_id_eq (some a) b h = sym (is_id_eq b a h)

current-IsUnmoved :
    (v : View) (s : HandlingState) (r : Run) → is_current v s r none ≡ true → IsUnmoved v s r
unfolding is_current
current-IsUnmoved v s r current = record {
  untaken = ground arith;
  same_generation = (==_iff s.generation r.generation).0 (ground arith);
  same_context = (==_iff s.context_message r.context_message).0 (ground arith);
  still_latest = is_id_eq v.latest_inbound r.context_message (ground arith);
  same_policy = (==_iff v.fingerprint r.policy_fingerprint).0 (ground arith);
  nothing_sent = is_same_id_eq v.latest_outbound r.baseline_outbound (ground arith);
  still_enabled = ground arith;
  still_managed = (ground arith, ground arith);
}

-- The mail is fit to be answered: what `security_block` and `no_reply` look at.
pub record IsFit (casefold : String → String) (mail : Mail) : Type 0 where
  pub unpurged : mail.is_purged ≡ false
  pub unquarantined : mail.is_quarantined ≡ false
  pub scanned : mail.has_passed_virus_scan ≡ true
  pub authentic : mail.has_auth_failure ≡ false
  pub unsuspicious : mail.is_suspicious ≡ false
  pub human : no_reply casefold mail ≡ false

safe_mail :
    (casefold : String → String) (mail : Mail)
    → security_block casefold mail ≡ none
    → no_reply casefold mail ≡ false
    → IsFit casefold mail
      × (str_eq (casefold (answer_address mail)) (casefold mail.from_address) ≡ true)
unfolding security_block
safe_mail casefold mail clear human =
    let same = (eq_iff (casefold mail.from_address) (casefold mail.from_address)).1 refl in
    (
      record {
        unpurged = ground arith;
        unquarantined = ground arith;
        scanned = ground arith;
        authentic = ground arith;
        unsuspicious = ground arith;
        human = human;
      },
      ground arith,
    )

addressed :
    (mail : Mail) (m : OutboundMessage) (r : Revision)
    → is_authorized_snapshot mail m r ≡ true
    → str_eq m.to_address (answer_address mail) ≡ true
unfolding is_authorized_snapshot
addressed mail m r exact = ground arith

-- When a reply of the built-in agent passes the check before it is submitted: nobody has taken the
-- conversation over, its generation and its context message are the run's, that message is the latest
-- one received, the latest one sent (less the reply itself) is the one the run knew, the policy is the one of the run and still enabled, and the owner is active
-- and may manage the domain; the mail that it answers is not purged, not quarantined, has passed the
-- virus scan, has neither failed the sender's authentication nor is suspicious, and is not
-- automated; and the reply goes to the address, up to its case, that the mail was sent from.
pub agent_reply_is_safe :
    (h : Hashing) (casefold : String → String) (settings : Settings) (db : Database) (v : View)
    (s : HandlingState) (a : AgentRun) (mail : Mail) (r : Revision) (m : OutboundMessage)
    → is_mode m.authorization_mode agent_policy ≡ true
    → authorization_error h casefold
        (λ db' m'. agent_authorization casefold v (some s) (some a) mail r m')
        settings
        db
        m
      ≡ none
    → IsUnmoved v s a.run
      × IsFit casefold mail
      × (casefold m.to_address ≡ casefold mail.from_address)
agent_reply_is_safe h casefold settings db v s a mail r m agent passes =
    let policy =
      policy_passed h casefold
        (λ db' m'. agent_authorization casefold v (some s) (some a) mail r m') settings db m agent
        passes in
    let (_, exact, current, clear, human) = agent_passed casefold v s a mail r m policy in
    let (fit, own) = safe_mail casefold mail clear human in
    let to = (eq_iff m.to_address (answer_address mail)).0 (addressed mail m r exact) in
    (
      current-IsUnmoved v s a.run current,
      fit,
      ap casefold to ∙ (eq_iff (casefold (answer_address mail)) (casefold mail.from_address)).0 own,
    )
