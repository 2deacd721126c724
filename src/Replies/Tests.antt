-- ===== src/Replies/Tests.antt =====
-- The theorems on replies and new emails at concrete rows.
use operational_inbox.Accounts.{DomainStatus}
use Prim.Native.Char.{code}
use operational_inbox.Common.{
  ℕ, true, false, none, some, String, [], ◌∷◌, ◌≡◌, ◌≢◌, ◌≤◌, ◌+◌, ◌==◌, refl, arith, any,
  if◌then◌else◌,
}
use operational_inbox.Settings.{default_settings}
use operational_inbox.Digest.{join, content_digest, compose_content_digest}
use operational_inbox.Accounts.Entitlements.{
  can_manage_domain, for_user, free_primary_domain, active_domains,
}
use operational_inbox.Drafts.{ReplyDraft, DraftKind, Revision, DraftApproval}
use operational_inbox.Database.{Database}
use operational_inbox.Samples.{sample_user, sample_domain, sample_message, sample_control}
use operational_inbox.Outbound.Message.{accepted, OutboundMessage, owner_approval, delegated_scope}
use operational_inbox.Outbound.Quota.{
  require_outbound_capacity, capacity_error, outbound_limits, get_outbound_control,
  capacity_reset_at,
}
use operational_inbox.Outbound.Quota.Month.{month_window}
use operational_inbox.Outbound.Submission.Authorization.{authorization_error}
use operational_inbox.Handling.States.{interrupt_handling, interrupt_row}
use operational_inbox.Replies.Desk.{
  Desk, Outcome, Outside, finished, rejected, idempotency_conflict,
}
use operational_inbox.Replies.Checks.{
  revision_digest, revision_error, approval_error, is_covered, outbound_digest, outbound_error,
}
use operational_inbox.Replies.Writing.{
  new_revision, save_revision, add_revision, supersede, next_revision, revise_draft,
  is_active_approval_of, lock_desk,
}
use operational_inbox.Replies.Queueing.{with_capacity, queue}
use operational_inbox.Replies.Compose.{
  Email, NewRows, email_digest, is_valid_composed, new_snapshot, composed_revision,
  composed_outbound, approve_composed, write_composed, compose_new, is_sent_from, compose_once,
  send_composed_email,
}
use operational_inbox.Replies.Calls.{Call, approve_call, revise_call, committed, run_calls, sends}
use operational_inbox.Replies.Edited.{edit_stops_sends}
use operational_inbox.Replies.SentOnce.{revision_sent_once}
use operational_inbox.Replies.Retried.{added, kept, IsSameMessage, IsLater, retry_sends_nothing}
use operational_inbox.Replies.Authorized.{composed_is_authorized}

-- A hash that adds the characters up.
abbrev add_up : String → ℕ
add_up String.[] = 0
add_up (String.◌∷◌ c s) = code c + add_up s

abbrev outside : Outside
outside = record {
  settings = default_settings;
  hashing = record { sha256 = add_up; dumps = join "," };
  calendar = record { year_of = λ t. 2026; month_of = λ t. 5; month_start = λ y m. 0 };
  casefold = λ s. s;
  is_space = λ c. c == 32;
  is_valid_email = λ s. true;
  is_valid_revision = λ r. true;
  is_valid_outbound = λ m. true;
}

abbrev tables : Database
tables = record {
  users = sample_user ∷ [];
  profiles = [];
  domains = sample_domain 3 10 ∷ [];
  controls = sample_control ∷ [];
  drafts = [];
  revisions = [];
  approvals = [];
  outbound = [];
  notifications = [];
  delivery_events = [];
  audit = [];
}

abbrev empty_desk : Desk
empty_desk = record { db = tables; messages = []; recipients = []; routes = []; handling = [] }

abbrev email : Email
email = record {
  from_address = "ops@example.org";
  to_address = "ada@example.com";
  subject = "Hello";
  body_text = "Hi Ada.";
}

abbrev rows : NewRows
rows = record {
  conversation = 40;
  draft = 50;
  revision = 60;
  message = 70;
  rfc_message_id = "<1@x>";
}

abbrev other_rows : NewRows
other_rows = record {
  conversation = 41;
  draft = 51;
  revision = 61;
  message = 71;
  rfc_message_id = "<2@x>";
}

abbrev composed : Outcome OutboundMessage
composed =
    send_composed_email outside rows 200 9 (sample_domain 3 10) sample_user owner_approval email
      empty_desk

abbrev composed_message : OutboundMessage
composed_message =
    composed_outbound rows 200 9 (sample_domain 3 10) owner_approval
      (composed_revision outside rows 200 (sample_domain 3 10) 1 owner_approval email) email

abbrev composed_desk : Desk
composed_desk = committed empty_desk composed

composed_is_authorized_example :
    authorization_error outside.hashing outside.casefold
      (λ db m. none)
      default_settings
      composed_desk.db
      composed_message
    ≡ none
unfolding send_composed_email is_valid_composed is_sent_from compose_once compose_new write_composed
    approve_composed with_capacity queue composed_revision new_snapshot composed_outbound
    revision_digest revision_error approval_error outbound_error is_covered outbound_digest
    save_revision content_digest compose_content_digest can_manage_domain for_user
    free_primary_domain active_domains require_outbound_capacity capacity_error outbound_limits
    get_outbound_control capacity_reset_at month_window
composed_is_authorized_example =
    composed_is_authorized outside (λ db m. none) rows 200 9 (sample_domain 3 10) sample_user
      owner_approval email empty_desk composed_desk composed_message refl refl refl refl refl refl
      refl

abbrev other_email : Email
other_email = record email { body_text = "Hi Bob." }

-- Later the message is sent, the domain is disabled, and another message is queued.
abbrev later_desk : Desk
later_desk = record composed_desk {
  db = record composed_desk.db {
    outbound =
        record composed_message { status = accepted; accepted_at = some 250 }
        ∷ sample_message 99 260
        ∷ [];
    domains = record (sample_domain 3 10) { status = DomainStatus.disabled } ∷ [];
    profiles = [];
  };
}

composed_IsLater : IsLater composed_desk later_desk
unfolding send_composed_email is_valid_composed is_sent_from compose_once compose_new write_composed
    approve_composed with_capacity queue composed_revision new_snapshot composed_outbound
    revision_digest revision_error approval_error outbound_error is_covered outbound_digest
    save_revision content_digest compose_content_digest can_manage_domain for_user
    free_primary_domain active_domains require_outbound_capacity capacity_error outbound_limits
    get_outbound_control capacity_reset_at month_window
composed_IsLater = record {
  messages =
      kept (record { same_id = refl; same_domain = refl; same_key = refl; same_hash = refl })
        (added _);
  domains = kept (record { same_id = refl; same_owner = refl; same_hostname = refl }) (added _);
}

retry_sends_nothing_example :
    (m : OutboundMessage) × IsSameMessage composed_message m
    × (send_composed_email outside other_rows 300 9
          (sample_domain 3 10)
          sample_user
          delegated_scope
          other_email
          later_desk
        ≡ (if email_digest outside email == email_digest outside other_email
            then finished m (lock_desk 1 later_desk)
            else rejected idempotency_conflict))
unfolding send_composed_email is_valid_composed is_sent_from compose_once compose_new write_composed
    approve_composed with_capacity queue composed_revision new_snapshot composed_outbound
    revision_digest revision_error approval_error outbound_error is_covered outbound_digest
    save_revision content_digest compose_content_digest can_manage_domain for_user
    free_primary_domain active_domains require_outbound_capacity capacity_error outbound_limits
    get_outbound_control capacity_reset_at month_window
retry_sends_nothing_example =
    retry_sends_nothing outside rows other_rows 200 300 9 (sample_domain 3 10) (sample_domain 3 10)
      sample_user sample_user owner_approval delegated_scope email other_email empty_desk
      composed_desk later_desk composed_message refl composed_IsLater
      (record { same_id = refl; same_owner = refl; same_hostname = refl }) (refl, refl) refl refl
      refl

abbrev reply_draft : ReplyDraft
reply_draft = record {
  id = 5;
  domain_id = 3;
  kind = DraftKind.reply;
  conversation_id = 4;
  context_message = some 2;
  current_revision = some 6;
  is_stale = false;
}

abbrev first_revision : Revision
first_revision = record {
  id = 6;
  domain_id = 3;
  draft_id = 5;
  number = 1;
  from_address = "";
  to_address = "";
  subject = "Re: hello";
  body_text = "Hello.";
  content_hash = add_up "Re: hello\u{1f}Hello.";
  author = some 1;
  is_agent_generated = true;
  created_at = 90;
}

abbrev reply_approval : DraftApproval
reply_approval = record {
  domain_id = 3;
  revision_id = 6;
  approved_by = 1;
  content_hash = first_revision.content_hash;
  invalidated_at = none;
  invalidated_reason = "";
}

-- A reply with its revision, and the mail that it answers.
abbrev drafted_desk : Desk
drafted_desk = record empty_desk {
  db = record tables { drafts = reply_draft ∷ []; revisions = first_revision ∷ [] };
  messages =
      record {
        id = 2;
        domain_id = 3;
        conversation_id = 4;
        from_address = "ada@example.com";
        reply_to_address = "";
        is_quarantined = false;
      }
      ∷ [];
  recipients =
      record { message_id = 2; address = "reply@example.org"; is_routing_recipient = true } ∷ [];
}

abbrev queued_desk : Desk
queued_desk = record drafted_desk {
  db = record drafted_desk.db {
    approvals = reply_approval ∷ [];
    outbound = sample_message 7 100 ∷ [];
  };
}

abbrev revised : Outcome Revision
revised = revise_draft outside 16 300 5 sample_user "Re: hello" "Hello again." queued_desk

abbrev second_revision : Revision
second_revision = new_revision outside 16 2 300 reply_draft (record {
  subject = "Re: hello";
  body_text = "Hello again.";
  author = 1;
  is_agent_generated = false;
})

edit_stops_sends_example :
    (second_revision.number ≡ 2)
    × (any (is_active_approval_of 6) (committed queued_desk revised).db.approvals ≡ false)
    × (authorization_error outside.hashing outside.casefold
          (λ db m. none)
          default_settings
          (committed queued_desk revised).db
          (sample_message 7 100)
        ≢ none)
unfolding revise_draft next_revision supersede add_revision new_revision save_revision
    revision_error revision_digest content_digest can_manage_domain for_user free_primary_domain
    active_domains get_outbound_control interrupt_handling interrupt_row
edit_stops_sends_example =
    edit_stops_sends outside outside.hashing outside.casefold (λ db m. none) default_settings 16 300
      5 sample_user "Re: hello" "Hello again." queued_desk (committed queued_desk revised)
      reply_draft first_revision second_revision first_revision (sample_message 7 100) refl refl
      refl refl refl refl (λ e. absurd (ground arith))

abbrev approve_twice : Call
approve_twice =
    approve_call (record { id = 80; rfc_message_id = "<80@x>" }) 200 5 6 first_revision.content_hash
      sample_user

revision_sent_once_example :
    sends 6 (
      run_calls outside
        (approve_twice
          ∷ approve_twice
          ∷ revise_call 16 300 5 sample_user "Re" "Hi."
          ∷ approve_twice
          ∷ [])
        drafted_desk)
    ≤ 1
unfolding sends
revision_sent_once_example =
    revision_sent_once outside
      (approve_twice
        ∷ approve_twice
        ∷ revise_call 16 300 5 sample_user "Re" "Hi."
        ∷ approve_twice
        ∷ [])
      6 drafted_desk (omega arith)
