-- ===== src/Handling/PolicyTests.antt =====
-- The theorems on stored policies and on the agent's replies at concrete rows.
use operational_inbox.Common.{ℕ, true, false, none, some, [], ◌∷◌, ◌≡◌, refl}
use operational_inbox.Settings.{default_settings}
use operational_inbox.Accounts.Entitlements.{
  can_manage_domain, for_user, free_primary_domain, active_domains,
}
use operational_inbox.Drafts.{ReplyDraft, DraftKind, Revision}
use operational_inbox.Database.{Database}
use operational_inbox.Outbound.Message.{OutboundMessage, agent_policy}
use operational_inbox.Outbound.Submission.Authorization.{
  authorization_error, is_domain_ready, matches_snapshot, has_active_approval,
}
use operational_inbox.Samples.{sample_user, sample_domain, sample_message}
use operational_inbox.Handling.States.{HandlingState, HandlingStatus}
use operational_inbox.Handling.Runs.{Run, Phase, RunStatus, RunAction, View}
use operational_inbox.Handling.Working.{AgentPlan, decide_auto, propose_reply, is_current}
use operational_inbox.Handling.Moves.{World, settle_move, moves}
use operational_inbox.Handling.Fenced.{replies_upto}
use operational_inbox.Handling.Policy.{Mode}
use operational_inbox.Handling.Policies.{
  HandlingPolicy, own, inherit, new_policy, PolicyBook, save_policy, is_valid_policy,
  are_valid_rules, is_valid_rule, is_covered_by, is_inherit, effective_policy, stored_policy,
  reassess,
}
use operational_inbox.Handling.Saved.{
  with_state_of, policy_change_stops_runs, save_all, effective_mode_is_chosen,
}
use operational_inbox.Handling.AgentMail.{
  Mail, AgentRun, security_block, no_reply, is_authorized_snapshot, agent_authorization,
}
use operational_inbox.Handling.AgentSends.{IsUnmoved, IsFit, agent_reply_is_safe}

abbrev run_one : Run
run_one = record {
  id = 11;
  context_message = 2;
  generation = 1;
  phase = Phase.initial;
  status = RunStatus.running;
  action = RunAction.reply;
  policy_fingerprint = 77;
  baseline_outbound = none;
}

abbrev state_one : HandlingState
state_one = record {
  conversation_id = 4;
  status = HandlingStatus.running;
  generation = 1;
  taken_over = false;
  explicit_handoff = false;
  context_message = 2;
  followup_at = none;
  lease_until = some 400;
  lease_token = some 900;
}

abbrev view_one : View
view_one = record {
  is_enabled = true;
  is_off = false;
  fingerprint = 77;
  followup_enabled = true;
  followup_hours = 72;
  latest_inbound = some 2;
  latest_outbound = none;
  is_answered = false;
  is_quarantined = false;
  is_purged = false;
  has_passed_virus_scan = true;
  can_manage = true;
  owner_active = true;
}

abbrev answer_plan : AgentPlan
answer_plan = record {
  action = decide_auto;
  proposal = propose_reply;
  waits_for_reply = false;
  can_queue = true;
}

abbrev busy_world : World
busy_world = record {
  thread = record { state = some state_one; runs = run_one ∷ []; replies = [] };
  workers = record { token = 900; run = run_one } ∷ [];
}

-- User 1 owns every domain, and every conversation is of domain 3.
abbrev owner_of : ℕ → ℕ
owner_of d = 1

abbrev domain_of : ℕ → ℕ
domain_of c = 3

abbrev book : PolicyBook
book = record { policies = []; states = state_one ∷ [] }

abbrev draft_policy : HandlingPolicy
draft_policy = record (new_policy 20 1 5) { mode = own Mode.draft_only }

abbrev saved_book : PolicyBook
saved_book = record { policies = draft_policy ∷ []; states = reassess state_one ∷ [] }

policy_change_stops_runs_example :
    replies_upto 1
      (moves
        (settle_move 0 300 view_one answer_plan ∷ [])
        (with_state_of 4 saved_book.states busy_world)).thread
    ≡ replies_upto 1 busy_world.thread
unfolding save_policy is_valid_policy are_valid_rules is_valid_rule is_covered_by stored_policy
policy_change_stops_runs_example =
    policy_change_stops_runs owner_of domain_of 300 4 draft_policy book saved_book state_one
      busy_world (settle_move 0 300 view_one answer_plan ∷ []) refl refl refl

abbrev domain_policy : HandlingPolicy
domain_policy = record (new_policy 21 1 5) { domain_id = some 3; mode = inherit }

effective_mode_is_chosen_example :
    is_inherit
      (effective_policy 22 1 3 5
        (save_all owner_of domain_of
          ((100, domain_policy) ∷ (200, draft_policy) ∷ [])
          (record { policies = []; states = [] })).policies).1.mode
    ≡ false
effective_mode_is_chosen_example =
    effective_mode_is_chosen owner_of domain_of ((100, domain_policy) ∷ (200, draft_policy) ∷ []) []
      22 1 3 5

abbrev context_mail : Mail
context_mail = record {
  from_address = "ada@example.com";
  reply_to_address = "";
  is_purged = false;
  is_quarantined = false;
  has_passed_virus_scan = true;
  has_auth_failure = false;
  is_suspicious = false;
  headers = record {
    auto_submitted = "";
    list_id = false;
    bulk = false;
    bounce = false;
    suppress = false;
    empty_return_path = false;
  };
  hostname = "example.org";
}

abbrev agent_run : AgentRun
agent_run = record { run = run_one; draft = some 5; domain_id = 3; conversation_id = 4 }

abbrev agent_revision : Revision
agent_revision = record {
  id = 6;
  domain_id = 3;
  draft_id = 5;
  number = 1;
  from_address = "";
  to_address = "";
  subject = "Re: hello";
  body_text = "Hello.";
  content_hash = 99;
  author = some 1;
  is_agent_generated = true;
  created_at = 90;
}

abbrev agent_draft : ReplyDraft
agent_draft = record {
  id = 5;
  domain_id = 3;
  kind = DraftKind.reply;
  conversation_id = 4;
  context_message = some 2;
  current_revision = some 6;
  is_stale = false;
}

abbrev agent_message : OutboundMessage
agent_message = record (sample_message 7 100) { authorization_mode = agent_policy }

abbrev agent_tables : Database
agent_tables = record {
  users = sample_user ∷ [];
  profiles = [];
  domains = sample_domain 3 10 ∷ [];
  controls = [];
  drafts = agent_draft ∷ [];
  revisions = agent_revision ∷ [];
  approvals = [];
  outbound = agent_message ∷ [];
  notifications = [];
  delivery_events = [];
  audit = [];
}

agent_reply_is_safe_example :
    IsUnmoved view_one state_one run_one
    × IsFit (λ s. s) context_mail
    × (agent_message.to_address ≡ context_mail.from_address)
unfolding authorization_error is_domain_ready matches_snapshot has_active_approval can_manage_domain
    for_user free_primary_domain active_domains agent_authorization security_block no_reply
    is_authorized_snapshot is_current
agent_reply_is_safe_example =
    agent_reply_is_safe (record { sha256 = λ s. 0; dumps = λ s. "" }) (λ s. s) default_settings
      agent_tables view_one state_one agent_run context_mail agent_revision agent_message refl refl
