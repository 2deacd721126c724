-- ===== src/Handling/Working.antt =====
-- The worker's part of inbox/services/handling.py: the two transactions of `run_handling`, what follows
-- an exception between them, `fail_handling` and `schedule_handling`, for one conversation.
use operational_inbox.Common.{
  ℕ, Bool, true, false, Option, none, some, List, [], ◌∷◌, ◌++◌, ◌==◌, ◌&&◌, ◌||◌, ◌+◌, not, ltb,
  is_id, is_none, update_where, if◌then◌else◌, minutes, hours, at_or_before,
}
use operational_inbox.Handling.States.{HandlingState, HandlingStatus, waiting}
use operational_inbox.Handling.Runs.{
  Phase, initial, followup, escalate, RunStatus, RunAction, nothing, reply, draft, archive, Run,
  Thread, View, is_run_over, is_awaiting_reply, has_run_id, run_of, save_run, save_state,
  enqueue_run,
}

-- The run as a worker holds it in memory, and the token of its lease.
pub record Worker : Type 0 where
  pub token : ℕ
  pub run : Run

-- `a == b` for two nullable references.
abbrev pub is_same_id : Option ℕ → Option ℕ → Bool
is_same_id none none = true
is_same_id none (some b) = false
is_same_id (some a) b = is_id b a

-- `_current`; without a token the lease is not compared.
unfoldable pub is_current : View → HandlingState → Run → (token : Option ℕ) → Bool
is_current v s r token =
    not (v.is_purged || v.is_quarantined)
    && v.is_enabled
    && not s.taken_over
    && s.generation == r.generation
    && s.context_message == r.context_message
    && is_id v.latest_inbound r.context_message
    && (is_none token || is_same_id s.lease_token token)
    && v.fingerprint == r.policy_fingerprint
    && is_same_id v.latest_outbound r.baseline_outbound
    && v.can_manage
    && v.owner_active

-- How a run ends: the statuses with which `_finish` is called.
pub data Ending : Type 0 where
  handled awaiting needs_review : Ending

abbrev pub run_status : Ending → RunStatus
run_status needs_review = RunStatus.review
run_status _ = RunStatus.complete

abbrev pub state_status : Ending → HandlingStatus
state_status handled = HandlingStatus.done
state_status awaiting = waiting
state_status needs_review = HandlingStatus.review

abbrev pub is_awaiting : Ending → Bool
is_awaiting awaiting = true
is_awaiting _ = false

-- `action or run.action`
abbrev pub or_action : RunAction → RunAction → RunAction
or_action nothing old = old
or_action new old = new

-- `_finish`
unfoldable pub finish_run : Ending → RunAction → HandlingState → Run → Thread → Thread
finish_run ending action s r t =
    save_state
      (record s {
        status = state_status ending;
        lease_until = none;
        lease_token = none;
        followup_at = if is_awaiting ending then s.followup_at else none;
      })
      (save_run (record r { status = run_status ending; action = or_action action r.action }) t)

-- `run.save(update_fields=("status", …))`
abbrev pub supersede_run : ℕ → Thread → Thread
supersede_run k t = record t {
  runs = update_where (has_run_id k) (λ r. record r { status = RunStatus.superseded }) t.runs;
}

abbrev pub is_lease_running : (now : ℕ) → HandlingState → Bool
is_lease_running now s = elim s.lease_until [ none ↦ false | some t ↦ ltb now t ]

abbrev pub is_phase : Phase → Phase → Bool
is_phase initial initial = true
is_phase followup followup = true
is_phase escalate escalate = true
is_phase _ _ = false

-- The checks that end a claimed run at once.
unfoldable pub stops_at_claim : View → Run → Bool
stops_at_claim v r =
    v.is_quarantined
    || not v.has_passed_virus_scan
    || v.is_purged
    || not v.can_manage
    || not v.is_enabled
    || (is_phase r.phase initial && v.is_answered)
    || is_phase r.phase escalate

-- The first transaction of `run_handling`, with the worker that goes on.
unfoldable pub claim_run : (run token now : ℕ) → View → Thread → Thread × Option Worker
claim_run run token now v t = elim (run_of run t) [
  | none ↦ (t, none)
  | some r ↦ elim t.state [
    | none ↦ (t, none)
    | some s ↦
        if is_run_over r.status
        then (t, none)
        else if s.taken_over || not (s.generation == r.generation)
        then (supersede_run r.id t, none)
        else if is_lease_running now s
        then (t, none)
        else (let r' = record r {
          policy_fingerprint = v.fingerprint;
          baseline_outbound = v.latest_outbound;
          status = RunStatus.running;
        } in
            let s' = record s {
              lease_token = some token;
              lease_until = some (now + minutes 4);
              status = HandlingStatus.running;
            } in
            let claimed = save_state s' (save_run r' t) in
            if stops_at_claim v r'
            then (finish_run needs_review nothing s' r' claimed, none)
            else (claimed, some (record { token = token; run = r' })))
  ]
]

-- What the policy and the model decide: `action` after `resolve_action`, the model's own `proposal`,
-- and whether the reply could be queued.
pub data Decision : Type 0 where
  decide_auto decide_draft decide_review decide_archive decide_done : Decision

pub data Proposal : Type 0 where
  propose_reply propose_archive propose_done propose_review : Proposal

pub record AgentPlan : Type 0 where
  pub action : Decision
  pub proposal : Proposal
  pub waits_for_reply : Bool
  pub can_queue : Bool

-- A reply that is queued, and the time of the follow-up.
unfoldable pub send_reply : (now : ℕ) → View → AgentPlan → HandlingState → Run → Thread → Thread
send_reply now v p s r t =
    let answered = record t {
      replies = t.replies ++ record { run = r.id; generation = r.generation } ∷ [];
    } in
    let waits = p.waits_for_reply || is_phase r.phase followup in
    let s' =
      if waits && v.followup_enabled
      then record s { followup_at = some (now + hours v.followup_hours) }
      else s in
    finish_run (if waits then awaiting else handled) reply s' r answered

-- The branches on the plan.
unfoldable pub act_on :
    Decision → Proposal → (now : ℕ) → View → AgentPlan → HandlingState → Run → Thread → Thread
act_on decide_archive q now v p s r t = finish_run handled archive s r t
act_on decide_done q now v p s r t = finish_run handled RunAction.done s r t
act_on decide_review q now v p s r t = finish_run needs_review RunAction.review s r t
act_on decide_auto propose_archive now v p s r t = finish_run handled archive s r t
act_on decide_auto propose_done now v p s r t = finish_run handled RunAction.done s r t
act_on decide_auto propose_review now v p s r t = finish_run needs_review RunAction.review s r t
act_on decide_auto propose_reply now v p s r t =
    if p.can_queue then send_reply now v p s r t else finish_run needs_review reply s r t
act_on decide_draft propose_reply now v p s r t = finish_run needs_review draft s r t
act_on decide_draft _ now v p s r t = finish_run needs_review RunAction.review s r t

unfoldable pub act : (now : ℕ) → View → AgentPlan → HandlingState → Run → Thread → Thread
act now v p s r t = act_on p.action p.proposal now v p s r t

abbrev pub release : HandlingState → HandlingState
release s = record s { lease_token = none; lease_until = none }

-- The second transaction of `run_handling`.
unfoldable pub settle_run : (now : ℕ) → View → AgentPlan → Worker → Thread → Thread
settle_run now v p w t = elim t.state [
  | none ↦ t
  | some s ↦
      if is_current v s w.run (some w.token)
      then act now v p s w.run t
      else (let old = supersede_run w.run.id t in
          if is_id s.lease_token w.token
          then save_state
              (record (release s) {
                status =
                    if s.generation == w.run.generation then HandlingStatus.review else s.status;
              })
              old
          else old)
]

-- After `ModelRetryable`.
unfoldable pub retry_run : Worker → Thread → Thread
retry_run w t = elim t.state [
  | none ↦ t
  | some s ↦ if is_id s.lease_token w.token then save_state (release s) t else t
]

-- After `ModelUnavailable` or a `ValidationError`.
unfoldable pub give_up_run : Worker → Thread → Thread
give_up_run w t = elim t.state [
  | none ↦ t
  | some s ↦
      if s.generation == w.run.generation && is_id s.lease_token w.token
      then finish_run needs_review nothing s w.run t
      else t
]

-- `fail_handling`, for the run as it was read before the lock; its row is saved whole.
unfoldable pub fail_handling : (read : Option Run) → Thread → Thread
fail_handling read t = elim read [
  | none ↦ t
  | some r ↦ elim t.state [
    | none ↦ t
    | some s ↦
        if s.generation == r.generation && not s.taken_over && not (is_run_over r.status)
        then finish_run needs_review nothing s r t
        else t
  ]
]

-- The message of a run, by what the follow-up needs of it.
pub data SentStatus : Type 0 where
  not_yet_sent sent stopped : SentStatus

pub record SentReply : Type 0 where
  pub status : SentStatus
  pub sent_at : ℕ

-- `order_by("-created_at").first()`
abbrev pub last_of : (generation : ℕ) → List Run → Option Run
last_of generation [] = none
last_of generation (r ∷ runs) = elim (last_of generation runs) [
  | some x ↦ some x
  | none ↦ if r.generation == generation then some r else none
]

-- A follow-up that cannot go on.
abbrev pub review_followup : HandlingState → Thread → Thread
review_followup s = save_state (record s { status = HandlingStatus.review; followup_at = none })

-- A reply that was sent: the reminder is due later, or its run starts.
unfoldable pub follow_sent :
    (now run : ℕ) → View → (sent_at : ℕ) → HandlingState → Run → Thread → Thread
follow_sent now run v sent_at s r t =
    let due = sent_at + hours v.followup_hours in
    if not (is_current v s r none)
    then review_followup s t
    else if ltb now due
    then save_state (record s { followup_at = some due }) t
    else save_state (record s { status = HandlingStatus.pending; followup_at = none })
        (enqueue_run run (if is_phase r.phase initial then followup else escalate) s t)

-- The rows that `schedule_handling` takes up, by a query without a lock.
abbrev pub is_followup_due : (now : ℕ) → HandlingState → Bool
is_followup_due now s =
    is_awaiting_reply s.status && not s.taken_over && at_or_before s.followup_at now

-- `schedule_handling`, for the row as the query read it; the locked row may have changed meanwhile.
unfoldable pub schedule_handling :
    (now run : ℕ) → (selected : HandlingState) → View → Option SentReply → Thread → Thread
schedule_handling now run selected v outbound t = elim t.state [
  | none ↦ t
  | some s ↦
      if not (is_followup_due now selected) || not (is_awaiting_reply s.status) || s.taken_over
      then t
      else elim (last_of s.generation t.runs) [
        | none ↦ review_followup s t
        | some r ↦ elim outbound [
          | none ↦ review_followup s t
          | some x ↦ elim x.status [
            | not_yet_sent ↦ t
            | stopped ↦ review_followup s t
            | sent ↦ follow_sent now run v x.sent_at s r t
          ]
        ]
      ]
]
