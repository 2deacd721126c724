-- ===== src/Handling/Tests.antt =====
-- The theorems on the handling policy at concrete mail.
use operational_inbox.Common.{true, false, none, [], ◌∷◌, ◌≡◌, ◌≤◌, refl}
use operational_inbox.Handling.Policy.{
  Classification, Rule, MailType, Risk, archive, Mode, resolve_action, choose, matches,
  limit_by_risk, limit_by_mode, is_answering, auto_needs,
}

abbrev support_mail : Classification
support_mail = record { confidence = 900; mail_type = MailType.support; risk = Risk.low }

abbrev spam_mail : Classification
spam_mail = record { confidence = 900; mail_type = MailType.spam; risk = Risk.high }

abbrev discard : Rule
discard = record {
  name = none;
  types = MailType.spam ∷ [];
  risks = [];
  tags = [];
  action = archive;
  add_tags = [];
}

auto_needs_example :
    (850 ≤ 900) × (Risk.low ≡ Risk.low) × (is_answering Mode.auto_handle false ≡ true)
unfolding resolve_action choose matches limit_by_risk limit_by_mode
auto_needs_example = auto_needs 850 Mode.auto_handle (discard ∷ []) support_mail [] false refl

-- The rule archives it.
spam_archived :
    (resolve_action 850 Mode.auto_handle (discard ∷ []) spam_mail [] false).action ≡ archive
unfolding resolve_action choose matches limit_by_risk limit_by_mode
spam_archived = refl
