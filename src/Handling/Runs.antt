-- ===== src/Handling/Runs.antt =====
-- The rows of one conversation's handling and the operations of inbox/services/handling.py on them.
-- What an operation reads of the other tables and of the configuration is its `View`; classifications,
-- reasons, tags and the audit and job rows are left out.
use operational_inbox.Common.{
  ℕ, Bool, true, false, Option, none, some, List, [], ◌∷◌, ◌++◌, ◌==◌, ◌&&◌, ◌||◌, ◌+◌, max, not,
  find, update_where, if◌then◌else◌,
}
use operational_inbox.Handling.States.{
  HandlingState, HandlingStatus, waiting, manual, interrupt_row,
}

pub data Phase : Type 0 where
  initial followup escalate : Phase

pub data RunStatus : Type 0 where
  pending running complete review superseded : RunStatus

pub data RunAction : Type 0 where
  nothing reply draft archive done review : RunAction

-- `class HandlingRun`
pub record Run : Type 0 where
  pub id : ℕ
  pub context_message : ℕ
  pub generation : ℕ
  pub phase : Phase
  pub status : RunStatus
  pub action : RunAction
  pub policy_fingerprint : ℕ
  pub baseline_outbound : Option ℕ

-- A message that a run has queued.
pub record AgentReply : Type 0 where
  pub run : ℕ
  pub generation : ℕ

-- The runs stand in the order in which they were created.
pub record Thread : Type 0 where
  pub state : Option HandlingState
  pub runs : List Run
  pub replies : List AgentReply

-- What holds outside of the rows while an operation runs. The outbound message is the latest one, less
-- the one that is being checked; `is_answered` compares the latest one with the context message.
pub record View : Type 0 where
  pub is_enabled : Bool
  pub is_off : Bool
  pub fingerprint : ℕ
  pub followup_enabled : Bool
  pub followup_hours : ℕ
  pub latest_inbound : Option ℕ
  pub latest_outbound : Option ℕ
  pub is_answered : Bool
  pub is_quarantined : Bool
  pub is_purged : Bool
  pub has_passed_virus_scan : Bool
  pub can_manage : Bool
  pub owner_active : Bool

abbrev pub phase_number : Phase → ℕ
phase_number initial = 0
phase_number followup = 1
phase_number escalate = 2

abbrev pub is_run_over : RunStatus → Bool
is_run_over RunStatus.complete = true
is_run_over RunStatus.review = true
is_run_over RunStatus.superseded = true
is_run_over _ = false

abbrev pub is_awaiting_reply : HandlingStatus → Bool
is_awaiting_reply waiting = true
is_awaiting_reply _ = false

abbrev pub has_run_id : ℕ → Run → Bool
has_run_id k r = r.id == k

abbrev pub run_of : ℕ → Thread → Option Run
run_of k t = find (has_run_id k) t.runs

abbrev pub save_run : Run → Thread → Thread
save_run r t = record t { runs = update_where (has_run_id r.id) (λ _. r) t.runs }

abbrev pub save_state : HandlingState → Thread → Thread
save_state s t = record t { state = some s }

-- `Max("generation")` over the runs, or 0.
abbrev pub last_generation : List Run → ℕ
last_generation [] = 0
last_generation (r ∷ runs) = max r.generation (last_generation runs)

-- `_next_generation`
abbrev pub next_generation : Thread → ℕ
next_generation t = last_generation t.runs + 1

-- `_enqueue`: the run of this generation and phase, which is made once.
unfoldable pub enqueue_run : (id : ℕ) → Phase → HandlingState → Thread → Thread
enqueue_run id phase s t =
    elim (find
      (λ (r : Run). r.generation == s.generation && phase_number r.phase == phase_number phase)
      t.runs) [
        | some r ↦ t
        | none ↦
            let r : Run = record {
              id = id;
              context_message = s.context_message;
              generation = s.generation;
              phase = phase;
              status = RunStatus.pending;
              action = nothing;
              policy_fingerprint = 0;
              baseline_outbound = none;
            } in
            record t { runs = t.runs ++ r ∷ [] }
      ]

-- A new row of `ConversationHandling`.
abbrev pub new_state : (conversation message generation : ℕ) → HandlingState
new_state conversation message generation = record {
  conversation_id = conversation;
  status = HandlingStatus.pending;
  generation = generation;
  taken_over = false;
  explicit_handoff = false;
  context_message = message;
  followup_at = none;
  lease_until = none;
  lease_token = none;
}

-- The end of `on_inbound`: a run, or a review where the automation is off.
unfoldable pub start_handling : (run : ℕ) → View → HandlingState → Thread → Thread
start_handling run v s t =
    if s.taken_over
    then save_state s t
    else if not v.is_enabled || v.is_off
    then save_state (record s { status = HandlingStatus.review }) t
    else enqueue_run run initial s (save_state s t)

-- `on_inbound`, for a message that is inbound and no test.
unfoldable pub on_inbound : (conversation message run : ℕ) → View → Thread → Thread
on_inbound conversation message run v t = elim t.state [
  | some s ↦
      if s.context_message == message
      then t
      else start_handling run v
          (record s {
            generation = max (s.generation + 1) (next_generation t);
            context_message = message;
            followup_at = none;
            status = if s.taken_over then manual else HandlingStatus.pending;
          })
          t
  | none ↦
      if v.is_enabled && not v.is_off
      then start_handling run v (new_state conversation message (next_generation t)) t
      else t
]

-- The columns that `set_handling` writes.
abbrev pub controlled : (handoff : Bool) (message : ℕ) → HandlingState → HandlingState
controlled handoff message s = record s {
  context_message = message;
  taken_over = not handoff;
  explicit_handoff = handoff;
  status = if handoff then HandlingStatus.pending else manual;
  followup_at = none;
}

-- The row that `get_or_create` makes, or the one that is there with its next generation.
unfoldable pub next_control : (conversation message : ℕ) → Thread → HandlingState
next_control conversation message t = elim t.state [
  | none ↦ new_state conversation message (next_generation t)
  | some s ↦ record s { generation = max (s.generation + 1) (next_generation t) }
]

-- `set_handling`, for a conversation that the caller owns; an error leaves the rows.
unfoldable pub set_handling : (conversation run : ℕ) (handoff : Bool) → View → Thread → Thread
set_handling conversation run handoff v t = if not v.can_manage then t else elim v.latest_inbound [
  | none ↦ t
  | some message ↦
      let s = next_control conversation message t in
      let s' = controlled handoff message s in
      if handoff then enqueue_run run initial s' (save_state s' t) else save_state s' t
]

-- `interrupt_handling`
unfoldable pub interrupt : (takeover : Bool) → Thread → Thread
interrupt takeover t = elim t.state [
  | none ↦ t
  | some s ↦ if s.taken_over then t else save_state (interrupt_row takeover s) t
]
