-- ===== src/Outbound/Tests.antt =====
-- The theorems on outbound mail at concrete rows.
use operational_inbox.Accounts.Entitlements.{
  can_manage_domain, for_user, free_primary_domain, active_domains,
}
use operational_inbox.Outbound.Submission.Authorization.{
  authorization_error, matches_snapshot, has_active_approval, is_domain_ready,
}
use operational_inbox.Outbound.Submission.Exact.{claimed_exactly, is_approval_of}
use Prim.Native.Char.{code}
use operational_inbox.Drafts.{ReplyDraft, DraftKind, Revision, DraftApproval}
use operational_inbox.Digest.{Hashing, compose_content_digest, join}
use operational_inbox.Settings.{default_settings}
use operational_inbox.Outbound.Quota.{get_outbound_control}
use operational_inbox.Common.{
  ◌⊎◌, false, ℕ, some, true, any, is_id, ◌+◌, Option, none, String, [], ◌∷◌, ◌≡◌, ◌≤◌, ◌==◌, refl,
  arith, count,
}
use operational_inbox.Samples.{sample_user, sample_domain, sample_message, sample_control}
use operational_inbox.Database.{Database}
use operational_inbox.Outbound.Message.{OutboundMessage, submitting, complained}
use operational_inbox.Outbound.Submission.{claim, claim_row, take}
use operational_inbox.Outbound.Delivery.{bounce, delivery, complaint}
use operational_inbox.Outbound.Delivery.Order.{after_events, after_events-gravest}
use operational_inbox.Outbound.Workers.Steps.{World, here, next, claim_step, call_step, with_claim}
use operational_inbox.Outbound.Workers.AtMostOnce.{sent_at_most_once}
use operational_inbox.Outbound.Workers.Claims.{queued_of}

abbrev tables : Database
tables = record {
  users = [];
  profiles = [];
  domains = sample_domain 3 10 ∷ [];
  controls = sample_control ∷ [];
  drafts = [];
  revisions = [];
  approvals = [];
  outbound = sample_message 7 100 ∷ [];
  notifications = [];
  delivery_events = [];
  audit = [];
}

abbrev authorized : Database → OutboundMessage → Option String
authorized db m = none

abbrev idle : World
idle = record { db = tables; claimed = []; called = []; sends = [] }

abbrev after_claim : World
after_claim = record idle {
  db = (claim authorized 7 200 tables).0;
  claimed = with_claim (claim authorized 7 200 tables).1 [];
}

abbrev after_call : World
after_call = record after_claim {
  claimed = [];
  called = take 200 (sample_message 7 100) ∷ [];
  sends = 7 ∷ [];
}

sent_at_most_once_example :
    (count (λ s. s == 7) (7 ∷ []) ≤ 1)
    × ((count (λ s. s == 7) (7 ∷ []) ≡ 0) ⊎ (count (queued_of 7) after_call.db.outbound ≡ 0))
unfolding claim claim_row take get_outbound_control
sent_at_most_once_example =
    sent_at_most_once {w = idle} {v = after_call} 7 (omega arith) refl refl (
      next (next here (claim_step authorized 7 200))
        (call_step 0 (take 200 (sample_message 7 100)) refl))

after_events-gravest_example :
    after_events (bounce ∷ delivery ∷ complaint ∷ delivery ∷ []) submitting ≡ complained
after_events-gravest_example =
    after_events-gravest (bounce ∷ delivery ∷ complaint ∷ delivery ∷ []) submitting refl

-- A hash that adds the characters up.
abbrev add_up : String → ℕ
add_up String.[] = 0
add_up (String.◌∷◌ c s) = code c + add_up s

abbrev hashing : Hashing
hashing = record { sha256 = add_up; dumps = join "," }

abbrev approved_message : OutboundMessage
approved_message = record (sample_message 7 100) {
  content_hash =
      compose_content_digest hashing "reply@example.org" "ada@example.com" "Re: hello" "Hello.";
}

abbrev sent_revision : Revision
sent_revision = record {
  id = 6;
  domain_id = 3;
  draft_id = 5;
  number = 1;
  from_address = "reply@example.org";
  to_address = "ada@example.com";
  subject = "Re: hello";
  body_text = "Hello.";
  content_hash = approved_message.content_hash;
  author = some 1;
  is_agent_generated = false;
  created_at = 90;
}

abbrev composed_draft : ReplyDraft
composed_draft = record {
  id = 5;
  domain_id = 3;
  kind = DraftKind.compose;
  conversation_id = 4;
  context_message = none;
  current_revision = some 6;
  is_stale = false;
}

abbrev approval : DraftApproval
approval = record {
  domain_id = 3;
  revision_id = 6;
  approved_by = 1;
  content_hash = approved_message.content_hash;
  invalidated_at = none;
  invalidated_reason = "";
}

abbrev approved_tables : Database
approved_tables = record tables {
  users = sample_user ∷ [];
  drafts = composed_draft ∷ [];
  revisions = sent_revision ∷ [];
  approvals = approval ∷ [];
  outbound = approved_message ∷ [];
}

claimed_exactly_example :
    (is_id composed_draft.current_revision 6 ≡ true)
    × (composed_draft.is_stale ≡ false)
    × (any
          (is_approval_of 6 (
            compose_content_digest hashing "reply@example.org" "ada@example.com" "Re: hello"
              "Hello."))
          (approval ∷ [])
        ≡ true)
unfolding claim claim_row take get_outbound_control authorization_error compose_content_digest
    matches_snapshot has_active_approval is_domain_ready can_manage_domain for_user
    free_primary_domain active_domains
claimed_exactly_example =
    claimed_exactly hashing (λ s. s) (λ db m. none) default_settings 7 200 approved_tables
      (take 200 approved_message) sent_revision composed_draft refl refl refl refl refl
