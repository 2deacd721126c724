-- ===== src/Handling/RunTests.antt =====
-- The theorems on the runs of the built-in agent at a concrete conversation.
use operational_inbox.Common.{List, ◌≤◌, true, false, none, some, [], ◌∷◌, ◌≡◌, refl}
use operational_inbox.Handling.States.{HandlingState, HandlingStatus}
use operational_inbox.Handling.Runs.{Run, Phase, RunStatus, RunAction, View}
use operational_inbox.Handling.Working.{
  claim_run, settle_run, is_current, act, act_on, send_reply, finish_run, stops_at_claim, AgentPlan,
  decide_auto, propose_reply,
}
use operational_inbox.Handling.Moves.{claim_move, Move, by_worker, World, settle_move, move, moves}
use operational_inbox.Handling.Leases.{replies_of}
use operational_inbox.Handling.OneReply.{run_replies_once, are_fresh}
use operational_inbox.Handling.Fenced.{is_past, replies_upto, old_runs_never_reply}

abbrev working_run : Run
working_run = record {
  id = 11;
  context_message = 2;
  generation = 1;
  phase = Phase.initial;
  status = RunStatus.running;
  action = RunAction.nothing;
  policy_fingerprint = 77;
  baseline_outbound = none;
}

abbrev working_state : HandlingState
working_state = record {
  conversation_id = 4;
  status = HandlingStatus.running;
  generation = 1;
  taken_over = false;
  explicit_handoff = false;
  context_message = 2;
  followup_at = none;
  lease_until = some 400;
  lease_token = some 900;
}

abbrev calm_view : View
calm_view = record {
  is_enabled = true;
  is_off = false;
  fingerprint = 77;
  followup_enabled = true;
  followup_hours = 72;
  latest_inbound = some 2;
  latest_outbound = none;
  is_answered = false;
  is_quarantined = false;
  is_purged = false;
  has_passed_virus_scan = true;
  can_manage = true;
  owner_active = true;
}

abbrev send_it : AgentPlan
send_it = record {
  action = decide_auto;
  proposal = propose_reply;
  waits_for_reply = false;
  can_queue = true;
}

-- A worker holds the run of generation 1.
abbrev working : World
working = record {
  thread = record { state = some working_state; runs = working_run ∷ []; replies = [] };
  workers = record { token = 900; run = working_run } ∷ [];
}

abbrev overtaken : World
overtaken = record working {
  thread = record working.thread { state = some (record working_state { generation = 2 }) };
}

old_runs_never_reply_example :
    (is_past 1 (moves (settle_move 0 300 calm_view send_it ∷ []) overtaken).thread ≡ true)
    × (replies_upto 1 (moves (settle_move 0 300 calm_view send_it ∷ []) overtaken).thread
        ≡ replies_upto 1 overtaken.thread)
old_runs_never_reply_example =
    old_runs_never_reply (settle_move 0 300 calm_view send_it ∷ []) 1 overtaken refl

-- Two workers take the same run, the second one once the lease of the first has ended.
abbrev two_claims : List Move
two_claims =
    claim_move 11 900 100 calm_view
    ∷ claim_move 11 901 400_000_000 calm_view
    ∷ settle_move 0 400_000_100 calm_view send_it
    ∷ settle_move 1 400_000_200 calm_view send_it
    ∷ []

abbrev queued_state : HandlingState
queued_state = record working_state {
  status = HandlingStatus.pending;
  lease_until = none;
  lease_token = none;
}

abbrev queued_run : Run
queued_run = record working_run { status = RunStatus.pending }

run_replies_once_example :
    replies_of 11
      (moves two_claims (record {
        thread = record { state = some queued_state; runs = queued_run ∷ []; replies = [] };
        workers = [];
      })).thread.replies
    ≤ 1
unfolding move by_worker claim_run settle_run is_current act act_on send_reply finish_run
    stops_at_claim are_fresh
run_replies_once_example = run_replies_once two_claims (queued_run ∷ []) (some queued_state) 11 refl

-- Of the two workers exactly one replies: the one that took the lease last.
two_claims_reply_once :
    replies_of 11
      (moves two_claims (record {
        thread = record { state = some queued_state; runs = queued_run ∷ []; replies = [] };
        workers = [];
      })).thread.replies
    ≡ 1
unfolding moves move by_worker claim_run settle_run is_current act act_on send_reply finish_run
    stops_at_claim are_fresh
two_claims_reply_once = refl
