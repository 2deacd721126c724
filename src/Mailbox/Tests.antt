-- ===== src/Mailbox/Tests.antt =====
-- The theorems on the owner's actions at concrete rows.
use operational_inbox.Common.{true, false, none, some, List, [], ◌∷◌, ◌≡◌, refl, count}
use operational_inbox.Mailbox.{Message, inbound, passed, gray, has_auth_failure, can_mark_not_spam}
use operational_inbox.Mailbox.Conversations.{Conversation, archive, apply_action, is_placed}
use operational_inbox.Mailbox.SpamReview.{
  SecurityNotice, NoticeStatus, not_spam, undo, reviewed, apply_spam_review, marked, settle_notices,
  is_doubtful, is_sent, review_round_trip,
}
use operational_inbox.Mailbox.Conversations.{action_places}

-- A conversation in the trash.
abbrev trashed : Conversation
trashed = record {
  id = 4;
  domain_id = 3;
  starred_at = none;
  archived_at = none;
  trashed_at = some 9;
}

action_places_example :
    (is_placed (apply_action 20 false archive trashed).conversation ≡ true)
    × (apply_action 30 true archive (apply_action 20 false archive trashed).conversation ≡ record {
      conversation = (apply_action 20 false archive trashed).conversation;
      state_changed = false;
      interrupted = false;
    })
action_places_example = action_places 20 30 false true archive trashed refl

-- A message that only the spam filter suspects.
abbrev suspect : Message
suspect = record {
  id = 12;
  domain_id = 3;
  conversation_id = 4;
  direction = inbound;
  viewed_at = none;
  spam_verdict = gray;
  virus_verdict = passed;
  dkim_verdict = passed;
  spf_verdict = passed;
  dmarc_verdict = passed;
  not_spam_at = none;
  is_suspicious = true;
  is_quarantined = false;
}

abbrev notices : List SecurityNotice
notices =
    record { domain_id = 3; message_id = 12; status = NoticeStatus.pending; error_code = "" } ∷ []

review_round_trip_example :
    (apply_spam_review 40 undo
        (marked (some 30) suspect)
        (settle_notices not_spam (marked (some 30) suspect) notices)
      ≡ reviewed suspect (
          settle_notices undo suspect (settle_notices not_spam (marked (some 30) suspect) notices)))
    × (count is_sent
          (settle_notices undo suspect (settle_notices not_spam (marked (some 30) suspect) notices))
        ≡ count is_sent notices)
unfolding apply_spam_review is_doubtful has_auth_failure can_mark_not_spam
review_round_trip_example =
    review_round_trip 30 40 suspect (marked (some 30) suspect) notices
      (settle_notices not_spam (marked (some 30) suspect) notices) refl refl
