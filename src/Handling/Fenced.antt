-- ===== src/Handling/Fenced.antt =====
-- What keeps a run of an older generation from answering (inbox/services/handling.py).
use operational_inbox.Common.{
  ℕ, Bool, true, false, Option, none, some, List, [], ◌∷◌, ◌++◌, ◌+◌, max, ltb, leb, ◌≡◌, refl, ◌∙◌,
  arith, count, get_elem?, if◌then◌else◌, Option-cases, Bool-cases, inl, inr,
}
use operational_inbox.Handling.States.{HandlingState, HandlingStatus, manual, interrupt_row}
use operational_inbox.Handling.Runs.{
  Phase, initial, followup, escalate, RunAction, Run, AgentReply, Thread, View, save_state, run_of,
  enqueue_run, start_handling, on_inbound, next_control, controlled, set_handling, interrupt,
  next_generation,
}
use operational_inbox.Handling.Working.{
  Worker, Ending, AgentPlan, SentReply, is_phase, is_current, finish_run, claim_run, send_reply,
  act, act_on, settle_run, retry_run, give_up_run, fail_handling, follow_sent, schedule_handling,
  last_of,
}
use operational_inbox.Handling.Moves.{
  World, Move, inbound_move, control_move, interrupt_move, claim_move, settle_move, retry_move,
  give_up_move, fail_move, schedule_move, by_worker, move, moves,
}

-- The conversation has moved beyond a generation.
abbrev pub is_past : ℕ → Thread → Bool
is_past g t = elim t.state [ none ↦ false | some s ↦ ltb g s.generation ]

-- The replies that runs up to a generation have queued.
abbrev pub is_reply_upto : ℕ → AgentReply → Bool
is_reply_upto g r = leb r.generation g

abbrev pub replies_upto : ℕ → Thread → ℕ
replies_upto g t = count (is_reply_upto g) t.replies

abbrev Fenced : ℕ → Thread → Thread → Type 0
Fenced g t t' = (is_past g t' ≡ true) × (replies_upto g t' ≡ replies_upto g t)

enqueue-same :
    (id : ℕ) (phase : Phase) (s : HandlingState) (t : Thread)
    → ((enqueue_run id phase s t).state ≡ t.state)
      × ((enqueue_run id phase s t).replies ≡ t.replies)
unfolding enqueue_run
enqueue-same id phase s t = ground arith

start-Fenced :
    (g run : ℕ) (v : View) (s : HandlingState) (t : Thread)
    → ltb g s.generation ≡ true
    → Fenced g t (start_handling run v s t)
unfolding start_handling
start-Fenced g run v s t past = ground (arith, enqueue-same run initial s (save_state s t))

inbound-Fenced :
    (g conversation message run : ℕ) (v : View) (t : Thread)
    → is_past g t ≡ true
    → Fenced g t (on_inbound conversation message run v t)
unfolding on_inbound
inbound-Fenced g conversation message run v t past = elim (Option-cases t.state) [
  | inl e ↦ absurd (ground arith)
  | inr (s, e) ↦ ground (
    arith,
    start-Fenced g run v
        (record s {
          generation = max (s.generation + 1) (next_generation t);
          context_message = message;
          followup_at = none;
          status = if s.taken_over then manual else HandlingStatus.pending;
        })
        t,
  )
]

next-generation :
    (g conversation message : ℕ) (t : Thread)
    → is_past g t ≡ true
    → ltb g (next_control conversation message t).generation ≡ true
unfolding next_control
next-generation g conversation message t past = ground arith

control-Fenced :
    (g conversation run : ℕ) (handoff : Bool) (v : View) (t : Thread)
    → is_past g t ≡ true
    → Fenced g t (set_handling conversation run handoff v t)
unfolding set_handling
control-Fenced g conversation run handoff v t past = elim (Option-cases v.latest_inbound) [
  | inl e ↦ ground arith
  | inr (message, e) ↦
      let s' = controlled handoff message (next_control conversation message t) in
      ground (
        arith,
        next-generation g conversation message t past,
        enqueue-same run initial s' (save_state s' t),
      )
]

interrupt-Fenced :
    (g : ℕ) (takeover : Bool) (t : Thread) → is_past g t ≡ true → Fenced g t (interrupt takeover t)
unfolding interrupt interrupt_row
interrupt-Fenced g takeover t past = ground arith

finish-Fenced :
    (g : ℕ) (ending : Ending) (action : RunAction) (s : HandlingState) (r : Run) (t : Thread)
    → ltb g s.generation ≡ true
    → Fenced g t (finish_run ending action s r t)
unfolding finish_run
finish-Fenced g ending action s r t past = ground arith

claim-Fenced :
    (g run token now : ℕ) (v : View) (t : Thread)
    → is_past g t ≡ true
    → Fenced g t (claim_run run token now v t).0
unfolding claim_run finish_run
claim-Fenced g run token now v t past = elim (Option-cases (run_of run t)) [
  | inl e ↦ ground arith
  | inr (r, e) ↦ elim (Option-cases t.state) [
    | inl e' ↦ absurd (ground arith)
    | inr (s, e') ↦ ground arith
  ]
]

count-last :
    (g : ℕ) (replies : List AgentReply) (x : AgentReply)
    → is_reply_upto g x ≡ false
    → count (is_reply_upto g) (replies ++ x ∷ []) ≡ count (is_reply_upto g) replies
count-last g [] x newer = ground arith
count-last g (y ∷ replies) x newer = ground (arith, count-last g replies x newer)

send-Fenced :
    (g now : ℕ) (v : View) (p : AgentPlan) (s : HandlingState) (r : Run) (t : Thread)
    → ltb g s.generation ≡ true
    → ltb g r.generation ≡ true
    → Fenced g t (send_reply now v p s r t)
unfolding send_reply finish_run
send-Fenced g now v p s r t past own =
    ground (arith, count-last g t.replies (record { run = r.id; generation = r.generation }))

act-Fenced :
    (g now : ℕ) (v : View) (p : AgentPlan) (s : HandlingState) (r : Run) (t : Thread)
    → ltb g s.generation ≡ true
    → ltb g r.generation ≡ true
    → Fenced g t (act now v p s r t)
unfolding act act_on finish_run
act-Fenced g now v p s r t past own = ground (arith, send-Fenced g now v p s r t past own)

current-generation :
    (v : View) (s : HandlingState) (r : Run) (token : Option ℕ)
    → is_current v s r token ≡ true
    → s.generation ≡ r.generation
unfolding is_current
current-generation v s r token e = ground arith

settle-Fenced :
    (g now : ℕ) (v : View) (p : AgentPlan) (w : Worker) (t : Thread)
    → is_past g t ≡ true
    → Fenced g t (settle_run now v p w t)
unfolding settle_run
settle-Fenced g now v p w t past = elim (Option-cases t.state) [
  | inl e ↦ absurd (ground arith)
  | inr (s, e) ↦ elim (Bool-cases (is_current v s w.run (some w.token))) [
    | inl current ↦
        ground (
          arith,
          current-generation v s w.run (some w.token) current,
          act-Fenced g now v p s w.run t,
        )
    | inr late ↦ ground arith
  ]
]

retry-Fenced : (g : ℕ) (w : Worker) (t : Thread) → is_past g t ≡ true → Fenced g t (retry_run w t)
unfolding retry_run
retry-Fenced g w t past = ground arith

give_up-Fenced :
    (g : ℕ) (w : Worker) (t : Thread) → is_past g t ≡ true → Fenced g t (give_up_run w t)
unfolding give_up_run finish_run
give_up-Fenced g w t past = ground arith

fail-Fenced :
    (g : ℕ) (read : Option Run) (t : Thread)
    → is_past g t ≡ true
    → Fenced g t (fail_handling read t)
unfolding fail_handling finish_run
fail-Fenced g read t past = elim (Option-cases read) [
  | inl e ↦ ground arith
  | inr (r, e) ↦ ground arith
]

follow-Fenced :
    (g now run : ℕ) (v : View) (sent_at : ℕ) (s : HandlingState) (r : Run) (t : Thread)
    → ltb g s.generation ≡ true
    → is_past g t ≡ true
    → Fenced g t (follow_sent now run v sent_at s r t)
unfolding follow_sent
follow-Fenced g now run v sent_at s r t past here =
    ground (arith, enqueue-same run (if is_phase r.phase initial then followup else escalate) s t)

schedule-Fenced :
    (g now run : ℕ) (selected : HandlingState) (v : View) (outbound : Option SentReply) (t : Thread)
    → is_past g t ≡ true
    → Fenced g t (schedule_handling now run selected v outbound t)
unfolding schedule_handling
schedule-Fenced g now run selected v outbound t past = elim (Option-cases t.state) [
  | inl e ↦ absurd (ground arith)
  | inr (s, e) ↦ elim (Option-cases (last_of s.generation t.runs)) [
    | inl none_left ↦ ground arith
    | inr (r, last) ↦ elim (Option-cases outbound) [
      | inl e' ↦ ground arith
      | inr (x, e') ↦ ground (arith, follow-Fenced g now run v x.sent_at s r t)
    ]
  ]
]

by-Fenced :
    (g place : ℕ) (change : Worker → Thread → Thread) (w : World)
    → ((worker : Worker) → Fenced g w.thread (change worker w.thread))
    → is_past g w.thread ≡ true
    → Fenced g w.thread (by_worker place change w).thread
unfolding by_worker
by-Fenced g place change w keeps past = elim (Option-cases (get_elem? w.workers place)) [
  | inl e ↦ ground arith
  | inr (worker, e) ↦ ground (arith, keeps worker)
]

move-Fenced :
    (g : ℕ) (m : Move) (w : World) → is_past g w.thread ≡ true → Fenced g w.thread (move m w).thread
unfolding move
move-Fenced g (inbound_move conversation message run v) w past =
    inbound-Fenced g conversation message run v w.thread past
move-Fenced g (control_move conversation run handoff v) w past =
    control-Fenced g conversation run handoff v w.thread past
move-Fenced g (interrupt_move takeover) w past = interrupt-Fenced g takeover w.thread past
move-Fenced g (claim_move run token now v) w past = claim-Fenced g run token now v w.thread past
move-Fenced g (settle_move place now v plan) w past =
    by-Fenced g place (settle_run now v plan) w (λ x. settle-Fenced g now v plan x w.thread past)
      past
move-Fenced g (retry_move place) w past =
    by-Fenced g place retry_run w (λ x. retry-Fenced g x w.thread past) past
move-Fenced g (give_up_move place) w past =
    by-Fenced g place give_up_run w (λ x. give_up-Fenced g x w.thread past) past
move-Fenced g (fail_move read) w past = fail-Fenced g read w.thread past
move-Fenced g (schedule_move now run selected v outbound) w past =
    schedule-Fenced g now run selected v outbound w.thread past

-- Once the handling of a conversation has moved beyond a generation, by new mail, an edit, a takeover, a
-- handoff or an interruption, no run of that generation or of an older one queues a reply any more,
-- whatever the workers that hold such runs and everyone else do next and in whatever order.
pub old_runs_never_reply :
    (ms : List Move) (generation : ℕ) (w : World)
    → is_past generation w.thread ≡ true
    → (is_past generation (moves ms w).thread ≡ true)
      × (replies_upto generation (moves ms w).thread ≡ replies_upto generation w.thread)
unfolding moves
old_runs_never_reply [] g w past = (past, refl)
old_runs_never_reply (m ∷ ms) g w past =
    let (still, same) = move-Fenced g m w past in
    let (ends, same') = old_runs_never_reply ms g (move m w) still in (ends, same' ∙ same)
