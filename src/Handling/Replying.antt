-- ===== src/Handling/Replying.antt =====
-- What claiming and settling a run keep of the leases and the runs (inbox/services/handling.py).
use operational_inbox.Common.{
  minutes, ℕ, suc, Bool, true, false, none, some, List, [], ◌∷◌, ◌++◌, ◌==◌, ◌||◌, ◌+◌, not, ◌≡◌,
  ◌≤◌, refl, arith, all, update_where, if◌then◌else◌, Option-cases, Bool-cases, inl, inr,
}
use operational_inbox.Handling.States.{HandlingState, HandlingStatus}
use operational_inbox.Handling.Runs.{
  RunStatus, RunAction, nothing, reply, draft, archive, followup, Run, AgentReply, Thread, View,
  is_run_over, has_run_id, save_run, save_state, run_of,
}
use operational_inbox.Handling.Working.{
  Decision, decide_auto, decide_draft, decide_review, decide_archive, decide_done, Proposal,
  propose_reply, propose_archive, propose_done, propose_review, act_on, Worker, Ending, awaiting,
  handled, needs_review, AgentPlan, is_phase, is_current, run_status, or_action, finish_run,
  supersede_run, claim_run, send_reply, act, settle_run,
}
use operational_inbox.Handling.Leases.{
  replies_of, is_held_by, is_run_safe, Calm, safe-saved, safe-found, safe-superseded, finish-Calm,
}

-- A worker whose lease runs has not replied.
abbrev pub is_worker_safe : Thread → Worker → Bool
is_worker_safe t x = not (is_held_by x.token t) || replies_of x.run.id t.replies == 0

abbrev pub Sound : ℕ → Thread → Type 0
Sound k t = (all (is_run_safe t.replies) t.runs ≡ true) × (replies_of k t.replies ≤ 1)

Calm-Sound : (k token : ℕ) (t t' : Thread) → Calm token t t' → Sound k t → Sound k t'
Calm-Sound k token t t' (same, safe, held) (h, bound) = rw same (safe, bound)

Calm-workers :
    (t t' : Thread) (ws : List Worker)
    → ((token : ℕ) → Calm token t t')
    → all (is_worker_safe t) ws ≡ true
    → all (is_worker_safe t') ws ≡ true
Calm-workers t t' [] calm h = refl
Calm-workers t t' (x ∷ ws) calm h =
    let (same, safe, held) = calm x.token in
    let one : is_worker_safe t' x ≡ true = rw same (ground arith) in
    ground (arith, Calm-workers t t' ws calm)

free-workers :
    (t : Thread) (ws : List Worker)
    → ((token : ℕ) → is_held_by token t ≡ false)
    → all (is_worker_safe t) ws ≡ true
free-workers t [] free = refl
free-workers t (x ∷ ws) free = ground (arith, free x.token, free-workers t ws free)

count-last :
    (k : ℕ) (replies : List AgentReply) (x : AgentReply)
    → replies_of k (replies ++ x ∷ [])
      ≡ (if x.run == k then suc (replies_of k replies) else replies_of k replies)
count-last k [] x = ground arith
count-last k (y ∷ replies) x = ground (arith, count-last k replies x)

-- The run that replies is over.
replied-safe :
    (replies : List AgentReply) (x : AgentReply) (runs : List Run) (r : Run)
    → is_run_over r.status ≡ true
    → all (is_run_safe replies) runs ≡ true
    → all (is_run_safe (replies ++ x ∷ [])) (update_where (has_run_id x.run) (λ _. r) runs) ≡ true
replied-safe replies x [] r over h = refl
replied-safe replies x (y ∷ runs) r over h =
    ground (arith, replied-safe replies x runs r, count-last y.id replies x)

finish-free :
    (token : ℕ) (ending : Ending) (action : RunAction) (s : HandlingState) (r : Run) (t : Thread)
    → is_held_by token (finish_run ending action s r t) ≡ false
unfolding finish_run
finish-free token ending action s r t = refl

over : (e : Ending) → is_run_over (run_status e) ≡ true
over e = ground arith

-- Acting ends the lease, with one reply more at most.
abbrev Acted : ℕ → Thread → Type 0
Acted k t' = Sound k t' × ((token : ℕ) → is_held_by token t' ≡ false)

finish-Acted :
    (k : ℕ) (ending : Ending) (action : RunAction) (s : HandlingState) (r : Run) (t : Thread)
    → Sound k t
    → Acted k (finish_run ending action s r t)
finish-Acted k ending action s r t sound = (
  Calm-Sound k 0 t (finish_run ending action s r t) (finish-Calm 0 ending action s r t sound.0)
      sound,
  λ token. finish-free token ending action s r t,
)

send-Acted :
    (k now : ℕ) (v : View) (p : AgentPlan) (s : HandlingState) (r : Run) (t : Thread)
    → Sound k t
    → (replies_of r.id t.replies == 0) ≡ true
    → Acted k (send_reply now v p s r t)
unfolding send_reply finish_run
send-Acted k now v p s r t (h, bound) fresh =
    let x : AgentReply = record { run = r.id; generation = r.generation } in
    let ending = if p.waits_for_reply || is_phase r.phase followup then awaiting else handled in
    let r' = record r { status = run_status ending; action = or_action reply r.action } in
    (
      (
        replied-safe t.replies x t.runs r' (over ending) h,
        ground (arith, count-last k t.replies x),
      ),
      λ token. refl,
    )

on-Acted :
    (k : ℕ) (d : Decision) (q : Proposal) (now : ℕ) (v : View) (p : AgentPlan) (s : HandlingState)
    (r : Run) (t : Thread)
    → Sound k t
    → (replies_of r.id t.replies == 0) ≡ true
    → Acted k (act_on d q now v p s r t)
unfolding act_on send_reply
on-Acted k decide_archive q now v p s r t sound fresh = finish-Acted k handled archive s r t sound
on-Acted k decide_done q now v p s r t sound fresh =
    finish-Acted k handled RunAction.done s r t sound
on-Acted k decide_review q now v p s r t sound fresh =
    finish-Acted k needs_review RunAction.review s r t sound
on-Acted k decide_auto propose_archive now v p s r t sound fresh =
    finish-Acted k handled archive s r t sound
on-Acted k decide_auto propose_done now v p s r t sound fresh =
    finish-Acted k handled RunAction.done s r t sound
on-Acted k decide_auto propose_review now v p s r t sound fresh =
    finish-Acted k needs_review RunAction.review s r t sound
on-Acted k decide_auto propose_reply now v p s r t sound fresh = elim (Bool-cases p.can_queue) [
  | inl queued ↦ rw queued (send-Acted k now v p s r t sound fresh)
  | inr refused ↦ rw refused (finish-Acted k needs_review reply s r t sound)
]
on-Acted k decide_draft propose_reply now v p s r t sound fresh =
    finish-Acted k needs_review draft s r t sound
on-Acted k decide_draft propose_archive now v p s r t sound fresh =
    finish-Acted k needs_review RunAction.review s r t sound
on-Acted k decide_draft propose_done now v p s r t sound fresh =
    finish-Acted k needs_review RunAction.review s r t sound
on-Acted k decide_draft propose_review now v p s r t sound fresh =
    finish-Acted k needs_review RunAction.review s r t sound

-- What every move keeps, for the workers that there are.
abbrev pub Kept : ℕ → List Worker → Thread → Type 0
Kept k ws t = Sound k t × (all (is_worker_safe t) ws ≡ true)

pub Calm-Kept :
    (k : ℕ) (ws : List Worker) (t t' : Thread)
    → ((token : ℕ) → Calm token t t')
    → Kept k ws t
    → Kept k ws t'
Calm-Kept k ws t t' calm (sound, safe) =
    (Calm-Sound k 0 t t' (calm 0) sound, Calm-workers t t' ws calm safe)

superseded-Calm :
    (token k : ℕ) (t : Thread)
    → all (is_run_safe t.replies) t.runs ≡ true
    → Calm token t (supersede_run k t)
superseded-Calm token k t h = (refl, safe-superseded t.replies k t.runs t h, λ held. held)

late-Calm :
    (token now : ℕ) (v : View) (p : AgentPlan) (x : Worker) (s : HandlingState) (t : Thread)
    → t.state ≡ some s
    → is_current v s x.run (some x.token) ≡ false
    → all (is_run_safe t.replies) t.runs ≡ true
    → Calm token t (settle_run now v p x t)
unfolding settle_run
late-Calm token now v p x s t here late h = ground (arith, superseded-Calm token x.run.id t h)

current-held :
    (v : View) (s : HandlingState) (x : Worker) (t : Thread)
    → t.state ≡ some s
    → is_current v s x.run (some x.token) ≡ true
    → is_held_by x.token t ≡ true
unfolding is_current
current-held v s x t here current = ground arith

settle-current :
    (now : ℕ) (v : View) (p : AgentPlan) (x : Worker) (s : HandlingState) (t : Thread)
    → t.state ≡ some s
    → is_current v s x.run (some x.token) ≡ true
    → settle_run now v p x t ≡ act_on p.action p.proposal now v p s x.run t
unfolding settle_run act
settle-current now v p x s t here current = ground arith

settle-none :
    (now : ℕ) (v : View) (p : AgentPlan) (x : Worker) (t : Thread)
    → t.state ≡ none
    → settle_run now v p x t ≡ t
unfolding settle_run
settle-none now v p x t e = ground arith

pub settle-Kept :
    (k now : ℕ) (v : View) (p : AgentPlan) (x : Worker) (ws : List Worker) (t : Thread)
    → is_worker_safe t x ≡ true
    → Kept k ws t
    → Kept k ws (settle_run now v p x t)
settle-Kept k now v p x ws t own kept = elim (Option-cases t.state) [
  | inl e ↦ rw (settle-none now v p x t e) kept
  | inr (s, e) ↦ elim (Bool-cases (is_current v s x.run (some x.token))) [
    | inr late ↦
        Calm-Kept k ws t (settle_run now v p x t)
          (λ token. late-Calm token now v p x s t e late kept.0.0) kept
    | inl current ↦
        let held = current-held v s x t e current in
        let done = on-Acted k p.action p.proposal now v p s x.run t kept.0 (ground arith) in
        rw (settle-current now v p x s t e current)
          (done.0, free-workers (act_on p.action p.proposal now v p s x.run t) ws done.1)
  ]
]

-- The rows that a claim leaves before its checks.
abbrev claimed_run : View → Run → Run
claimed_run v r = record r {
  policy_fingerprint = v.fingerprint;
  baseline_outbound = v.latest_outbound;
  status = RunStatus.running;
}

abbrev claimed_state : (token now : ℕ) → HandlingState → HandlingState
claimed_state token now s = record s {
  lease_token = some token;
  lease_until = some (now + minutes 4);
  status = HandlingStatus.running;
}

claimed-safe :
    (run : ℕ) (v : View) (r : Run) (t : Thread)
    → run_of run t ≡ some r
    → is_run_over r.status ≡ false
    → all (is_run_safe t.replies) t.runs ≡ true
    → ((replies_of r.id t.replies == 0) ≡ true)
      × (all (is_run_safe t.replies) (save_run (claimed_run v r) t).runs ≡ true)
claimed-safe run v r t found open_run h =
    let fresh : (replies_of r.id t.replies == 0) ≡ true =
      ground (arith, safe-found t.replies run t.runs r h found) in
    (fresh, safe-saved t.replies r.id t.runs (claimed_run v r) h (ground arith))

-- A claim gives the run to no worker, or it gives it under the new token.
pub claim-Calm :
    (any_token run token now : ℕ) (v : View) (t : Thread)
    → (claim_run run token now v t).1 ≡ none
    → all (is_run_safe t.replies) t.runs ≡ true
    → Calm any_token t (claim_run run token now v t).0
unfolding claim_run
claim-Calm any_token run token now v t idle h = elim (Option-cases (run_of run t)) [
  | inl e ↦ ground arith
  | inr (r, e) ↦ elim (Option-cases t.state) [
    | inl e' ↦ ground arith
    | inr (s, e') ↦
        let r' = claimed_run v r in
        let s' = claimed_state token now s in
        let claimed = save_state s' (save_run r' t) in
        ground (
          arith,
          superseded-Calm any_token r.id t h,
          claimed-safe run v r t e,
          finish-Calm any_token needs_review nothing s' r' claimed,
          finish-free any_token needs_review nothing s' r' claimed,
        )
  ]
]

pub claim-some :
    (run token now : ℕ) (v : View) (x : Worker) (t : Thread)
    → (claim_run run token now v t).1 ≡ some x
    → all (is_run_safe t.replies) t.runs ≡ true
    → ((claim_run run token now v t).0.replies ≡ t.replies)
      × (all (is_run_safe t.replies) (claim_run run token now v t).0.runs ≡ true)
      × ((replies_of x.run.id t.replies == 0) ≡ true)
      × ((any_token : ℕ)
          → is_held_by any_token (claim_run run token now v t).0 ≡ (token == any_token))
unfolding claim_run
claim-some run token now v x t given h = elim (Option-cases (run_of run t)) [
  | inl e ↦ absurd (ground arith)
  | inr (r, e) ↦ elim (Option-cases t.state) [
    | inl e' ↦ absurd (ground arith)
    | inr (s, e') ↦ (
      ground arith,
      ground (arith, claimed-safe run v r t e),
      ground (arith, claimed-safe run v r t e),
      λ any_token. ground arith,
    )
  ]
]
