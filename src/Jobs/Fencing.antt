-- ===== src/Jobs/Fencing.antt =====
-- One job and the workers that lease it: the number of attempts is the ticket of a lease, and only
-- the newest ticket can settle the job, unless the scheduler sets the number back.
use operational_inbox.Common.{
  sym, subst, ◌⊎◌, ℕ, true, List, [], ◌∷◌, ◌==◌, ◌+◌, ◌<◌, ◌≡◌, arith, any,
}
use operational_inbox.Jobs.Row.{
  Job, complete, failed, is_due, lease_row, settle_failure, settle_complete, fail_row, complete_row,
  reopen_outbound_job, resume_outbound_job, reopen_notification_job,
}

-- The row and the tickets that were handed out, the newest first.
pub record Leases : Type 0 where
  pub job : Job
  pub tickets : List ℕ

pub data Act (s : Leases) : Leases → Type 0 where
  lease_act :
      (now : ℕ)
      → is_due now s.job ≡ true
      → Act s (record s { job = lease_row now s.job; tickets = (s.job.attempts + 1) ∷ s.tickets })
  fail_act : (read : Job) (now : ℕ) → Act s (record s { job = settle_failure read now s.job })
  complete_act : (ticket now : ℕ) → Act s (record s { job = settle_complete ticket now s.job })
  reopen_act : (now : ℕ) → Act s (record s { job = reopen_outbound_job now s.job })
  resume_act : (now : ℕ) → Act s (record s { job = resume_outbound_job now s.job })

pub data Acts (s : Leases) : Leases → Type 0 where
  here : Acts s s
  next : {t u : Leases} → Acts s t → Act t u → Acts s u

-- Every ticket is below the one before it.
abbrev Falling : ℕ → List ℕ → Type 0
Falling n [] = Unit
Falling n (t ∷ ts) = (t < n) × Falling t ts

attempts-settle_failure :
    (read : Job) (now : ℕ) (j : Job) → (settle_failure read now j).attempts ≡ j.attempts
unfolding settle_failure fail_row
attempts-settle_failure read now j = ground arith

attempts-settle_complete :
    (ticket now : ℕ) (j : Job) → (settle_complete ticket now j).attempts ≡ j.attempts
unfolding settle_complete complete_row
attempts-settle_complete ticket now j = ground arith

attempts-reopen : (now : ℕ) (j : Job) → (reopen_outbound_job now j).attempts ≡ j.attempts
unfolding reopen_outbound_job
attempts-reopen now j = ground arith

attempts-resume : (now : ℕ) (j : Job) → (resume_outbound_job now j).attempts ≡ j.attempts
unfolding resume_outbound_job
attempts-resume now j = ground arith

transport_Falling : (m n : ℕ) (ts : List ℕ) → m ≡ n → Falling (m + 1) ts → Falling (n + 1) ts
transport_Falling m n ts e h = rw (← e) h

Act-Falling :
    {s t : Leases}
    → Act s t
    → Falling (s.job.attempts + 1) s.tickets
    → Falling (t.job.attempts + 1) t.tickets
unfolding lease_row
Act-Falling (lease_act now due) h = (omega arith, h)
Act-Falling {s} (fail_act read now) h =
    transport_Falling _ _ s.tickets (sym (attempts-settle_failure read now s.job)) h
Act-Falling {s} (complete_act ticket now) h =
    transport_Falling _ _ s.tickets (sym (attempts-settle_complete ticket now s.job)) h
Act-Falling {s} (reopen_act now) h =
    transport_Falling _ _ s.tickets (sym (attempts-reopen now s.job)) h
Act-Falling {s} (resume_act now) h =
    transport_Falling _ _ s.tickets (sym (attempts-resume now s.job)) h

Acts-Falling :
    {s t : Leases}
    → Falling (s.job.attempts + 1) s.tickets
    → Acts s t
    → Falling (t.job.attempts + 1) t.tickets
Acts-Falling h here = h
Acts-Falling h (next r a) = Act-Falling a (Acts-Falling h r)

older_below : (n a : ℕ) (ts : List ℕ) → Falling n ts → any (λ t. t == a) ts ≡ true → a < n
older_below n a [] h e = cc
older_below n a (t ∷ ts) h e = ground (arith, older_below t a ts h.1)

-- Once a job has been leased again, a worker with an older ticket leaves the row as it is when it
-- settles, by success or by failure, from a start at which no ticket is out. Leases, settlements by
-- any worker and the reopenings of outbound jobs may come in any order.
pub stale_ticket_changes_nothing :
    {s t : Leases} (read : Job) (newest now : ℕ) (older : List ℕ)
    → s.tickets ≡ []
    → Acts s t
    → t.tickets ≡ newest ∷ older
    → any (λ k. k == read.attempts) older ≡ true
    → (settle_failure read now t.job ≡ t.job) × (settle_complete read.attempts now t.job ≡ t.job)
unfolding settle_failure settle_complete
stale_ticket_changes_nothing {s} {t} read newest now older none_yet r e old =
    let start : Falling (s.job.attempts + 1) s.tickets = rw none_yet tt in
    let falls : Falling (t.job.attempts + 1) (newest ∷ older) =
      subst (λ ts. Falling (t.job.attempts + 1) ts) e (Acts-Falling start r) in
    let below = older_below newest read.attempts older falls.1 old in (ground arith, ground arith)

-- When the scheduler opens the finished job of a notification again, the next lease has ticket 1,
-- as the first lease had. A worker that still holds that first ticket settles the new lease.
pub reopened_lease_shares_ticket :
    (j : Job) (opened now later : ℕ)
    → (j.status ≡ complete) ⊎ (j.status ≡ failed)
    → let again = lease_row now (reopen_notification_job opened j) in
      (again.attempts ≡ 1) × ((settle_complete 1 later again).status ≡ complete)
unfolding lease_row reopen_notification_job settle_complete complete_row
reopened_lease_shares_ticket j opened now later h = ground arith
