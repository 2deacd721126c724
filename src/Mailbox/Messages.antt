-- ===== src/Mailbox/Messages.antt =====
-- `class Message` of inbox/models.py, by the columns that the owner's actions read and write.
use operational_inbox.Common.{ℕ, Bool, true, false, Option, ◌&&◌, ◌||◌, not, is_none}

pub data Direction : Type 0 where
  inbound outbound : Direction

pub data Verdict : Type 0 where
  passed failed gray unknown : Verdict

pub record Message : Type 0 where
  pub id : ℕ
  pub domain_id : ℕ
  pub conversation_id : ℕ
  pub direction : Direction
  pub viewed_at : Option ℕ
  pub spam_verdict : Verdict
  pub virus_verdict : Verdict
  pub dkim_verdict : Verdict
  pub spf_verdict : Verdict
  pub dmarc_verdict : Verdict
  pub not_spam_at : Option ℕ
  pub is_suspicious : Bool
  pub is_quarantined : Bool

abbrev pub is_inbound : Direction → Bool
is_inbound inbound = true
is_inbound outbound = false

abbrev pub is_pass : Verdict → Bool
is_pass passed = true
is_pass _ = false

abbrev pub is_fail : Verdict → Bool
is_fail failed = true
is_fail _ = false

unfoldable pub has_auth_failure : Message → Bool
has_auth_failure m = is_fail m.spf_verdict || is_fail m.dkim_verdict || is_fail m.dmarc_verdict

unfoldable pub can_mark_not_spam : Message → Bool
can_mark_not_spam m =
    is_inbound m.direction
    && not m.is_quarantined
    && is_pass m.virus_verdict
    && not (is_pass m.spam_verdict)
    && is_none m.not_spam_at
