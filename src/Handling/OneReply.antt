-- ===== src/Handling/OneReply.antt =====
-- How many replies one run queues (inbox/services/handling.py).
use operational_inbox.Common.{
  ℕ, zero, suc, Bool, true, false, Option, some, List, [], ◌∷◌, ◌++◌, ◌==◌, ◌&&◌, not, ◌≡◌, ◌≤◌,
  refl, arith, all, any, get_elem?, Option-cases, inl, inr,
}
use operational_inbox.Handling.States.{HandlingState}
use operational_inbox.Handling.Runs.{Run, Thread, View, on_inbound, set_handling, interrupt}
use operational_inbox.Handling.Working.{
  Worker, claim_run, settle_run, retry_run, give_up_run, fail_handling, schedule_handling,
}
use operational_inbox.Handling.Moves.{
  World, Move, inbound_move, control_move, interrupt_move, claim_move, settle_move, retry_move,
  give_up_move, fail_move, schedule_move, with_worker, by_worker, move, moves,
}
use operational_inbox.Handling.Replying.{
  is_worker_safe, Kept, Calm-Kept, settle-Kept, claim-Calm, claim-some,
}
use operational_inbox.Handling.Leases.{
  replies_of, is_held_by, is_run_safe, inbound-Calm, control-Calm, interrupt-Calm, retry-Calm,
  give_up-Calm, fail-Calm, schedule-Calm,
}

others-safe :
    (token : ℕ) (t t' : Thread) (ws : List Worker)
    → ((any_token : ℕ) → is_held_by any_token t' ≡ (token == any_token))
    → any (λ (x : Worker). x.token == token) ws ≡ false
    → all (is_worker_safe t') ws ≡ true
others-safe token t t' [] held fresh = refl
others-safe token t t' (x ∷ ws) held fresh =
    ground (arith, held x.token, others-safe token t t' ws held)

worker-last :
    (t : Thread) (ws : List Worker) (x : Worker)
    → all (is_worker_safe t) ws ≡ true
    → is_worker_safe t x ≡ true
    → all (is_worker_safe t) (ws ++ x ∷ []) ≡ true
worker-last t [] x h new = ground arith
worker-last t (y ∷ ws) x h new = ground (arith, worker-last t ws x)

claim-Kept :
    (k run token now : ℕ) (v : View) (ws : List Worker) (t : Thread)
    → any (λ (x : Worker). x.token == token) ws ≡ false
    → Kept k ws t
    → Kept k (with_worker (claim_run run token now v t).1 ws) (claim_run run token now v t).0
claim-Kept k run token now v ws t fresh kept = elim (Option-cases (claim_run run token now v t).1) [
  | inl idle ↦ rw idle (
      Calm-Kept k ws t (claim_run run token now v t).0
        (λ any_token. claim-Calm any_token run token now v t idle kept.0.0) kept)
  | inr (x, given) ↦
      let (same, safe, none_yet, held) = claim-some run token now v x t given kept.0.0 in
      let t' = (claim_run run token now v t).0 in
      let one : is_worker_safe t' x ≡ true = rw same (ground arith) in
      rw given
        ((rw same (safe, kept.0.1)), worker-last t' ws x (others-safe token t t' ws held fresh) one)
]

safe-at :
    (t : Thread) (ws : List Worker) (place : ℕ) (x : Worker)
    → all (is_worker_safe t) ws ≡ true
    → get_elem? ws place ≡ some x
    → is_worker_safe t x ≡ true
safe-at t [] place x h e = ground arith
safe-at t (y ∷ ws) zero x h e = ground arith
safe-at t (y ∷ ws) (suc place) x h e = safe-at t ws place x (ground arith) e

by-Kept :
    (k place : ℕ) (change : Worker → Thread → Thread) (w : World)
    → ((x : Worker) → is_worker_safe w.thread x ≡ true → Kept k w.workers (change x w.thread))
    → Kept k w.workers w.thread
    → Kept k (by_worker place change w).workers (by_worker place change w).thread
unfolding by_worker
by-Kept k place change w keeps kept = elim (Option-cases (get_elem? w.workers place)) [
  | inl e ↦ ground (arith, kept)
  | inr (x, e) ↦ ground (arith, keeps x (safe-at w.thread w.workers place x kept.1 e))
]

-- The token of a claim and the ID of a new run are newly drawn.
abbrev pub is_fresh_move : Move → World → Bool
is_fresh_move (inbound_move conversation message run v) w = replies_of run w.thread.replies == 0
is_fresh_move (control_move conversation run handoff v) w = replies_of run w.thread.replies == 0
is_fresh_move (schedule_move now run selected v outbound) w = replies_of run w.thread.replies == 0
is_fresh_move (claim_move run token now v) w =
    not (any (λ (x : Worker). x.token == token) w.workers)
is_fresh_move _ w = true

unfoldable pub are_fresh : List Move → World → Bool
are_fresh [] w = true
are_fresh (m ∷ ms) w = is_fresh_move m w && are_fresh ms (move m w)

move-Kept :
    (k : ℕ) (m : Move) (w : World)
    → is_fresh_move m w ≡ true
    → Kept k w.workers w.thread
    → Kept k (move m w).workers (move m w).thread
unfolding move
move-Kept k (inbound_move conversation message run v) w fresh kept =
    Calm-Kept k w.workers w.thread (on_inbound conversation message run v w.thread)
      (λ token. inbound-Calm token conversation message run v w.thread kept.0.0 fresh) kept
move-Kept k (control_move conversation run handoff v) w fresh kept =
    Calm-Kept k w.workers w.thread (set_handling conversation run handoff v w.thread)
      (λ token. control-Calm token conversation run handoff v w.thread kept.0.0 fresh) kept
move-Kept k (interrupt_move takeover) w fresh kept =
    Calm-Kept k w.workers w.thread (interrupt takeover w.thread)
      (λ token. interrupt-Calm token takeover w.thread kept.0.0) kept
move-Kept k (claim_move run token now v) w fresh kept =
    claim-Kept k run token now v w.workers w.thread (ground arith) kept
move-Kept k (settle_move place now v plan) w fresh kept =
    by-Kept k place (settle_run now v plan) w
      (λ x own. settle-Kept k now v plan x w.workers w.thread own kept) kept
move-Kept k (retry_move place) w fresh kept =
    by-Kept k place retry_run w
      (λ x own.
        Calm-Kept k w.workers w.thread (retry_run x w.thread)
          (λ token. retry-Calm token x w.thread kept.0.0) kept)
      kept
move-Kept k (give_up_move place) w fresh kept =
    by-Kept k place give_up_run w
      (λ x own.
        Calm-Kept k w.workers w.thread (give_up_run x w.thread)
          (λ token. give_up-Calm token x w.thread kept.0.0) kept)
      kept
move-Kept k (fail_move read) w fresh kept =
    Calm-Kept k w.workers w.thread (fail_handling read w.thread)
      (λ token. fail-Calm token read w.thread kept.0.0) kept
move-Kept k (schedule_move now run selected v outbound) w fresh kept =
    Calm-Kept k w.workers w.thread (schedule_handling now run selected v outbound w.thread)
      (λ token. schedule-Calm token now run selected v outbound w.thread kept.0.0 fresh) kept

moves-Kept :
    (k : ℕ) (ms : List Move) (w : World)
    → are_fresh ms w ≡ true
    → Kept k w.workers w.thread
    → Kept k (moves ms w).workers (moves ms w).thread
unfolding moves are_fresh
moves-Kept k [] w fresh kept = kept
moves-Kept k (m ∷ ms) w fresh kept =
    moves-Kept k ms (move m w) (ground arith) (move-Kept k m w (ground arith) kept)

unanswered : (runs : List Run) → all (is_run_safe []) runs ≡ true
unanswered [] = refl
unanswered (r ∷ runs) = ground (arith, unanswered runs)

-- From a conversation that the agent has not answered and with no worker at work, no run queues more
-- than one reply, however many workers claim it, outlive their leases, retry and act, in whatever order
-- and beside whatever mail, takeovers and follow-ups, if tokens and the IDs of runs are drawn anew.
pub run_replies_once :
    (ms : List Move) (runs : List Run) (state : Option HandlingState) (run : ℕ)
    → are_fresh ms
        (record { thread = record { state = state; runs = runs; replies = [] }; workers = [] })
      ≡ true
    → replies_of run
        (moves ms (record {
          thread = record { state = state; runs = runs; replies = [] };
          workers = [];
        })).thread.replies
      ≤ 1
run_replies_once ms runs state run fresh =
    (moves-Kept run ms
      (record { thread = record { state = state; runs = runs; replies = [] }; workers = [] }) fresh
      ((unanswered runs, omega arith), refl)).0.1
