-- ===== src/Jobs/Leases.antt =====
-- What a run leaves alone: the lease of another worker.
use operational_inbox.Common.{ℕ, Bool, true, some, ◌≡◌, ◌≢◌, find, any, update_where}
use operational_inbox.Jobs.Row.{Job, has_job_id, candidate, lease_row}
use operational_inbox.Jobs.Runner.{State, is_leasable}
use operational_inbox.Jobs.Held.{is_running, IsRow}

module _ {W : Type 0} (clock : W → ℕ) (handle : Job → State W → State W × Bool)
    (surface : Job → Bool → State W → State W) (others : State W → State W) where
  -- The row stands with a lease that runs.
  abbrev pub Holds : Job → State W → Type 0
  Holds r st = IsRow r st.0 × (is_running (clock st.1) r ≡ true)

  -- The handlers, the surfacing of failures and the other processes leave the row to its owner while
  -- its lease runs, and the lease does not end meanwhile.
  pub record IsLeftAlone (r : Job) : Type 0 where
    pub by_handle : (j : Job) (st : State W) → Holds r st → Holds r (handle j st).0
    pub by_surface : (j : Job) (b : Bool) (st : State W) → Holds r st → Holds r (surface j b st)
    pub by_others : (st : State W) → Holds r st → Holds r (others st)

  -- The tables with the lease of a run.
  abbrev pub leased_by : (id now : ℕ) → State W → State W
  leased_by id now st = (update_where (is_leasable id now) (lease_row now) st.0, st.1)

  -- Another process takes a job from a run: between the choice of the job and its lease, or while the
  -- handler works on an earlier lease of it.
  pub data IsTaken (r : Job) (st : State W) : Type 0 where
    before_lease :
        (chosen : Job)
        → candidate (clock st.1) st.0 ≡ some chosen
        → is_running (clock st.1) r ≡ true
        → Holds r (others st)
        → IsTaken r st
    during_handling :
        (chosen job : Job)
        → candidate (clock st.1) st.0 ≡ some chosen
        → any (is_leasable chosen.id (clock st.1)) (others st).0 ≡ true
        → find (has_job_id chosen.id) (leased_by chosen.id (clock st.1) (others st)).0 ≡ some job
        → Holds r (handle job (leased_by chosen.id (clock st.1) (others st))).0
        → r.attempts ≢ job.attempts
        → IsTaken r st
