-- ===== src/Jobs/Runner.antt =====
-- `run_due_jobs` of inbox/services/jobs.py. `handle` is `_handle`, which may change all tables and
-- tells whether it raised; `surface` is `_surface_job_failure`; `others` is what other processes do
-- between the choice of a job and its lease. `W` is the rest of the database and the world.
use operational_inbox.Common.{
  ℕ, zero, suc, Bool, none, some, List, ◌+◌, ◌&&◌, find, any, update_where, if◌then◌else◌,
}
use operational_inbox.Jobs.Row.{
  Job, has_job_id, candidate, is_due, lease_row, holds_lease, fail_row, complete_row, is_terminal,
}

pub record Counts : Type 0 where
  pub leased : ℕ
  pub complete : ℕ
  pub retry : ℕ
  pub failed : ℕ

abbrev pub no_counts : Counts
no_counts = record { leased = 0; complete = 0; retry = 0; failed = 0 }

abbrev pub State : Type 0 → Type 0
State W = List Job × W

-- How the rounds end: an exception outside the handler, which keeps what was written, or the counts.
pub data RunResult (W : Type 0) : Type 0 where
  broken : State W → RunResult W
  ran : State W → Counts → RunResult W

abbrev pub state_after : {W : Type 0} → RunResult W → State W
state_after (broken st) = st
state_after (ran st c) = st

-- The row that a lease may still take.
abbrev pub is_leasable : (id now : ℕ) → Job → Bool
is_leasable id now j = has_job_id id j && is_due now j

-- The row whose lease a worker still holds.
abbrev pub is_held : Job → Job → Bool
is_held job j = has_job_id job.id j && holds_lease job.attempts j

module _ {W : Type 0} (clock : W → ℕ) (handle : Job → State W → State W × Bool)
    (surface : Job → Bool → State W → State W) (others : State W → State W) where
  -- The handler raised.
  unfoldable pub settle_raised : Job → State W → Counts → State W × Counts
  settle_raised job (jobs, w) c =
      if any (is_held job) jobs
      then (
        surface job (is_terminal job) (update_where (is_held job) (fail_row job (clock w)) jobs, w),
        if is_terminal job
            then record c { failed = c.failed + 1 }
            else record c { retry = c.retry + 1 },
      )
      else ((jobs, w), c)

  -- The handler returned.
  unfoldable pub settle_returned : Job → State W → Counts → State W × Counts
  settle_returned job (jobs, w) c =
      if any (is_held job) jobs
      then (
        (update_where (is_held job) (complete_row (clock w)) jobs, w),
        record c { complete = c.complete + 1 },
      )
      else ((jobs, w), c)

  -- The leased job is read again and handled; `get` raises if the row is gone.
  unfoldable pub work : ℕ → State W → Counts → RunResult W
  work id st c = elim (find (has_job_id id) st.0) [
    | none ↦ broken st
    | some job ↦
        let (st', raised) = handle job st in
        let c' = record c { leased = c.leased + 1 } in
        let (st'', c'') = if raised then settle_raised job st' c' else settle_returned job st' c' in
        ran st'' c''
  ]

  -- The lease, if the job is still to be had, and the work.
  unfoldable pub lease_and_work : (id now : ℕ) → State W → Counts → RunResult W
  lease_and_work id now (jobs, w) c =
      if any (is_leasable id now) jobs
      then work id (update_where (is_leasable id now) (lease_row now) jobs, w) c
      else ran (jobs, w) c

  -- The loop, `limit` rounds at most.
  unfoldable pub run_from : (limit : ℕ) → State W → Counts → RunResult W
  run_from zero st c = ran st c
  run_from (suc limit) st c = elim (candidate (clock st.1) st.0) [
    | none ↦ ran st c
    | some job ↦ elim (lease_and_work job.id (clock st.1) (others st) c) [
      | broken st' ↦ broken st'
      | ran st' c' ↦ run_from limit st' c'
    ]
  ]

  unfoldable pub run_due_jobs : (limit : ℕ) → State W → RunResult W
  run_due_jobs limit st = run_from limit st no_counts
