-- ===== src/Handling/Moves.antt =====
-- The operations of inbox/services/handling.py in any order, by any number of workers.
use operational_inbox.Common.{ℕ, Bool, Option, none, some, List, [], ◌∷◌, ◌++◌, get_elem?}
use operational_inbox.Handling.States.{HandlingState}
use operational_inbox.Handling.Runs.{Run, Thread, View, on_inbound, set_handling, interrupt}
use operational_inbox.Handling.Working.{
  Worker, AgentPlan, SentReply, claim_run, settle_run, retry_run, give_up_run, fail_handling,
  schedule_handling,
}

-- The rows, and every worker that was ever given a run. A worker stays in the list: it may be late, stop
-- or come back.
pub record World : Type 0 where
  pub thread : Thread
  pub workers : List Worker

-- A worker is named by its place, a new run by its fresh ID. What was read before a lock may be of any
-- age.
pub data Move : Type 0 where
  inbound_move : (conversation message run : ℕ) → View → Move
  control_move : (conversation run : ℕ) (handoff : Bool) → View → Move
  interrupt_move : (takeover : Bool) → Move
  claim_move : (run token now : ℕ) → View → Move
  settle_move : (worker now : ℕ) → View → AgentPlan → Move
  retry_move : (worker : ℕ) → Move
  give_up_move : (worker : ℕ) → Move
  fail_move : (read : Option Run) → Move
  schedule_move : (now run : ℕ) → (selected : HandlingState) → View → Option SentReply → Move

abbrev pub with_worker : Option Worker → List Worker → List Worker
with_worker none ws = ws
with_worker (some w) ws = ws ++ w ∷ []

-- What the worker at a place does with the rows, if there is one.
unfoldable pub by_worker : (place : ℕ) → (Worker → Thread → Thread) → World → World
by_worker place change w = elim (get_elem? w.workers place) [
  | none ↦ w
  | some worker ↦ record w { thread = change worker w.thread }
]

unfoldable pub move : Move → World → World
move (inbound_move conversation message run v) w = record w {
  thread = on_inbound conversation message run v w.thread;
}
move (control_move conversation run handoff v) w = record w {
  thread = set_handling conversation run handoff v w.thread;
}
move (interrupt_move takeover) w = record w { thread = interrupt takeover w.thread }
move (claim_move run token now v) w =
    let (t, worker) = claim_run run token now v w.thread in
    record w { thread = t; workers = with_worker worker w.workers }
move (settle_move place now v plan) w = by_worker place (settle_run now v plan) w
move (retry_move place) w = by_worker place retry_run w
move (give_up_move place) w = by_worker place give_up_run w
move (fail_move read) w = record w { thread = fail_handling read w.thread }
move (schedule_move now run selected v outbound) w = record w {
  thread = schedule_handling now run selected v outbound w.thread;
}

unfoldable pub moves : List Move → World → World
moves [] w = w
moves (m ∷ ms) w = moves ms (move m w)
