-- ===== src/Handling/Leases.antt =====
-- What one operation on a conversation's rows keeps of the leases and the runs
-- (inbox/services/handling.py).
use operational_inbox.Common.{
  ℕ, Bool, true, false, Option, none, some, List, [], ◌∷◌, ◌++◌, ◌==◌, ◌||◌, ◌+◌, max, ◌≡◌, refl,
  arith, all, find, count, is_id, update_where, if◌then◌else◌, Option-cases, inl, inr,
}
use operational_inbox.Handling.States.{HandlingStatus, manual, HandlingState, interrupt_row}
use operational_inbox.Handling.Runs.{
  Phase, initial, followup, escalate, RunStatus, RunAction, nothing, Run, AgentReply, Thread, View,
  is_run_over, has_run_id, save_state, enqueue_run, start_handling, on_inbound, next_control,
  controlled, set_handling, interrupt, new_state, next_generation,
}
use operational_inbox.Handling.Working.{
  needs_review, or_action, Worker, Ending, SentReply, is_phase, run_status, finish_run,
  supersede_run, retry_run, give_up_run, fail_handling, follow_sent, schedule_handling, last_of,
}

abbrev pub is_reply_of : ℕ → AgentReply → Bool
is_reply_of k x = x.run == k

-- The replies of a run.
abbrev pub replies_of : ℕ → List AgentReply → ℕ
replies_of k = count (is_reply_of k)

-- The lease runs under the token.
abbrev pub is_held_by : ℕ → Thread → Bool
is_held_by token t = elim t.state [ none ↦ false | some s ↦ is_id s.lease_token token ]

-- A run that is not over has no reply.
abbrev pub is_run_safe : List AgentReply → Run → Bool
is_run_safe replies r = is_run_over r.status || replies_of r.id replies == 0

-- The replies and the safety of the runs are kept, and no lease begins under the token.
abbrev pub Calm : ℕ → Thread → Thread → Type 0
Calm token t t' =
    (t'.replies ≡ t.replies)
    × (all (is_run_safe t.replies) t'.runs ≡ true)
    × (is_held_by token t' ≡ true → is_held_by token t ≡ true)

safe-last :
    (replies : List AgentReply) (runs : List Run) (r : Run)
    → all (is_run_safe replies) runs ≡ true
    → is_run_safe replies r ≡ true
    → all (is_run_safe replies) (runs ++ r ∷ []) ≡ true
safe-last replies [] r h new = ground arith
safe-last replies (x ∷ runs) r h new = ground (arith, safe-last replies runs r)

pub safe-saved :
    (replies : List AgentReply) (k : ℕ) (runs : List Run) (r : Run)
    → all (is_run_safe replies) runs ≡ true
    → is_run_safe replies r ≡ true
    → all (is_run_safe replies) (update_where (has_run_id k) (λ _. r) runs) ≡ true
safe-saved replies k [] r h new = refl
safe-saved replies k (x ∷ runs) r h new = ground (arith, safe-saved replies k runs r)

pub safe-superseded :
    (replies : List AgentReply) (k : ℕ) (runs : List Run) (t : Thread)
    → all (is_run_safe replies) runs ≡ true
    → all (is_run_safe replies) (supersede_run k (record t { runs = runs })).runs ≡ true
safe-superseded replies k [] t h = refl
safe-superseded replies k (x ∷ runs) t h = ground (arith, safe-superseded replies k runs t)

pub safe-found :
    (replies : List AgentReply) (k : ℕ) (runs : List Run) (r : Run)
    → all (is_run_safe replies) runs ≡ true
    → find (has_run_id k) runs ≡ some r
    → is_run_safe replies r ≡ true
safe-found replies k [] r h found = ground arith
safe-found replies k (x ∷ runs) r h found = ground (arith, safe-found replies k runs r)

enqueue-runs :
    (id : ℕ) (phase : Phase) (s : HandlingState) (t : Thread)
    → all (is_run_safe t.replies) t.runs ≡ true
    → (replies_of id t.replies == 0) ≡ true
    → (all (is_run_safe t.replies) (enqueue_run id phase s t).runs ≡ true)
      × ((enqueue_run id phase s t).replies ≡ t.replies)
      × ((enqueue_run id phase s t).state ≡ t.state)
unfolding enqueue_run
enqueue-runs id phase s t h fresh = ground (
  arith,
  safe-last t.replies t.runs (record {
    id = id;
    context_message = s.context_message;
    generation = s.generation;
    phase = phase;
    status = RunStatus.pending;
    action = nothing;
    policy_fingerprint = 0;
    baseline_outbound = none;
  }),
)

start-Calm :
    (token run : ℕ) (v : View) (s : HandlingState) (t : Thread)
    → all (is_run_safe t.replies) t.runs ≡ true
    → (replies_of run t.replies == 0) ≡ true
    → (is_id s.lease_token token ≡ true → is_held_by token t ≡ true)
    → Calm token t (start_handling run v s t)
unfolding start_handling
start-Calm token run v s t h fresh leased =
    ground (arith, enqueue-runs run initial s (save_state s t) h fresh)

pub inbound-Calm :
    (token conversation message run : ℕ) (v : View) (t : Thread)
    → all (is_run_safe t.replies) t.runs ≡ true
    → (replies_of run t.replies == 0) ≡ true
    → Calm token t (on_inbound conversation message run v t)
unfolding on_inbound
inbound-Calm token conversation message run v t h fresh = elim (Option-cases t.state) [
  | inl e ↦
      ground (
        arith,
        start-Calm token run v (new_state conversation message (next_generation t)) t h fresh,
      )
  | inr (s, e) ↦ ground (
    arith,
    start-Calm token run v
        (record s {
          generation = max (s.generation + 1) (next_generation t);
          context_message = message;
          followup_at = none;
          status = if s.taken_over then manual else HandlingStatus.pending;
        })
        t h fresh,
  )
]

control-lease :
    (token conversation message : ℕ) (t : Thread)
    → is_id (next_control conversation message t).lease_token token ≡ true
    → is_held_by token t ≡ true
unfolding next_control
control-lease token conversation message t held = ground arith

pub control-Calm :
    (token conversation run : ℕ) (handoff : Bool) (v : View) (t : Thread)
    → all (is_run_safe t.replies) t.runs ≡ true
    → (replies_of run t.replies == 0) ≡ true
    → Calm token t (set_handling conversation run handoff v t)
unfolding set_handling
control-Calm token conversation run handoff v t h fresh = elim (Option-cases v.latest_inbound) [
  | inl e ↦ ground arith
  | inr (message, e) ↦
      let s' = controlled handoff message (next_control conversation message t) in
      ground (
        arith,
        control-lease token conversation message t,
        enqueue-runs run initial s' (save_state s' t) h fresh,
      )
]

over : (e : Ending) (n : ℕ) → (is_run_over (run_status e) || n == 0) ≡ true
over e n = ground arith

pub finish-Calm :
    (token : ℕ) (ending : Ending) (action : RunAction) (s : HandlingState) (r : Run) (t : Thread)
    → all (is_run_safe t.replies) t.runs ≡ true
    → Calm token t (finish_run ending action s r t)
unfolding finish_run
finish-Calm token ending action s r t h = (
  refl,
  safe-saved t.replies r.id t.runs
      (record r { status = run_status ending; action = or_action action r.action }) h
      (over ending (replies_of r.id t.replies)),
  λ held. absurd (ground arith),
)

pub interrupt-Calm :
    (token : ℕ) (takeover : Bool) (t : Thread)
    → all (is_run_safe t.replies) t.runs ≡ true
    → Calm token t (interrupt takeover t)
unfolding interrupt interrupt_row
interrupt-Calm token takeover t h = ground arith

pub retry-Calm :
    (token : ℕ) (w : Worker) (t : Thread)
    → all (is_run_safe t.replies) t.runs ≡ true
    → Calm token t (retry_run w t)
unfolding retry_run
retry-Calm token w t h = ground arith

pub give_up-Calm :
    (token : ℕ) (w : Worker) (t : Thread)
    → all (is_run_safe t.replies) t.runs ≡ true
    → Calm token t (give_up_run w t)
unfolding give_up_run
give_up-Calm token w t h = elim (Option-cases t.state) [
  | inl e ↦ ground arith
  | inr (s, e) ↦ ground (arith, finish-Calm token needs_review nothing s w.run t h)
]

pub fail-Calm :
    (token : ℕ) (read : Option Run) (t : Thread)
    → all (is_run_safe t.replies) t.runs ≡ true
    → Calm token t (fail_handling read t)
unfolding fail_handling
fail-Calm token read t h = elim (Option-cases read) [
  | inl e ↦ ground arith
  | inr (r, e) ↦ elim (Option-cases t.state) [
    | inl e' ↦ ground arith
    | inr (s, e') ↦ ground (arith, finish-Calm token needs_review nothing s r t h)
  ]
]

follow-Calm :
    (token now run : ℕ) (v : View) (sent_at : ℕ) (s : HandlingState) (r : Run) (t : Thread)
    → t.state ≡ some s
    → all (is_run_safe t.replies) t.runs ≡ true
    → (replies_of run t.replies == 0) ≡ true
    → Calm token t (follow_sent now run v sent_at s r t)
unfolding follow_sent
follow-Calm token now run v sent_at s r t here h fresh =
    ground (
      arith,
      enqueue-runs run (if is_phase r.phase initial then followup else escalate) s t h fresh,
    )

pub schedule-Calm :
    (token now run : ℕ) (selected : HandlingState) (v : View) (outbound : Option SentReply)
    (t : Thread)
    → all (is_run_safe t.replies) t.runs ≡ true
    → (replies_of run t.replies == 0) ≡ true
    → Calm token t (schedule_handling now run selected v outbound t)
unfolding schedule_handling
schedule-Calm token now run selected v outbound t h fresh = elim (Option-cases t.state) [
  | inl e ↦ ground arith
  | inr (s, e) ↦ elim (Option-cases (last_of s.generation t.runs)) [
    | inl none_left ↦ ground arith
    | inr (r, last) ↦ elim (Option-cases outbound) [
      | inl e' ↦ ground arith
      | inr (x, e') ↦ ground (arith, follow-Calm token now run v x.sent_at s r t e h fresh)
    ]
  ]
]
