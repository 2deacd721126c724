-- ===== src/Jobs/Tests.antt =====
-- The theorems on the job queue at concrete rows.
use operational_inbox.Common.{
  ℕ, Bool, true, false, [], ◌∷◌, ◌≡◌, refl, arith, inl, minutes, IsUnique,
}
use operational_inbox.Samples.{sample_job}
use operational_inbox.Jobs.Row.{
  Job, JobStatus, lease_row, fail_row, settle_failure, settle_complete, reopen_notification_job,
  enqueue_job, complete, candidate, complete_row,
}
use operational_inbox.Jobs.Runner.{
  run_due_jobs, State, ran, run_from, lease_and_work, work, settle_returned,
}
use operational_inbox.Jobs.Fencing.{
  Leases, here, next, lease_act, fail_act, stale_ticket_changes_nothing,
  reopened_lease_shares_ticket,
}
use operational_inbox.Jobs.Backoff.{fail_times, fail_times-status}
use operational_inbox.Jobs.Keys.{key_of, enqueue_again, enqueue-IsUnique}

abbrev job : Job
job = sample_job 1 11

abbrev fresh_leases : Leases
fresh_leases = record { job = job; tickets = [] }

abbrev first_lease : Job
first_lease = lease_row 200 job

abbrev second_lease : Job
second_lease = lease_row (minutes 20) (settle_failure first_lease 300 first_lease)

stale_ticket_changes_nothing_example :
    (settle_failure first_lease 400 second_lease ≡ second_lease)
    × (settle_complete 1 400 second_lease ≡ second_lease)
unfolding lease_row settle_failure fail_row
stale_ticket_changes_nothing_example =
    stale_ticket_changes_nothing {s = fresh_leases}
      {t = record { job = second_lease; tickets = 2 ∷ 1 ∷ [] }} first_lease 2 400 (1 ∷ []) refl
      (next (next (next here (lease_act 200 refl)) (fail_act first_lease 300))
        (lease_act (minutes 20) refl))
      refl refl

reopened_lease_shares_ticket_example :
    ((lease_row 900 (reopen_notification_job 800 (complete_row 700 job))).attempts ≡ 1)
    × ((settle_complete 1 950
          (lease_row 900 (reopen_notification_job 800 (complete_row 700 job)))).status
        ≡ complete)
unfolding complete_row
reopened_lease_shares_ticket_example =
    reopened_lease_shares_ticket (complete_row 700 job) 800 900 950 (inl refl)

fail_times-status_example :
    ((fail_times ((200, 300) ∷ (400, 500) ∷ []) job).attempts ≡ 2)
    × ((fail_times ((200, 300) ∷ (400, 500) ∷ []) job).status ≡ JobStatus.retry)
fail_times-status_example =
    fail_times-status ((200, 300) ∷ (400, 500) ∷ []) job (omega arith) (omega arith)

enqueue_again_example : enqueue_job (sample_job 2 11) (enqueue_job job []).0 ≡ enqueue_job job []
enqueue_again_example = enqueue_again job (sample_job 2 11) [] refl

enqueue-IsUnique_example : IsUnique key_of (enqueue_job (sample_job 2 12) (job ∷ [])).0
enqueue-IsUnique_example = enqueue-IsUnique (sample_job 2 12) (job ∷ []) (tt, tt)

-- The lease of a second worker, who took the job while the first one handled it.
abbrev taken : Job
taken = lease_row 500 (lease_row 100 job)

abbrev taking : Job → State ℕ → State ℕ × Bool
taking j (jobs, w) = ((taken ∷ [], w), true)

-- The one due job is leased and completed, and the second round finds none.
run_completes :
    run_due_jobs
      (λ (w : ℕ). 200)
      (λ j st. (st, false))
      (λ j terminal st. st)
      (λ st. st)
      5
      (job ∷ [], 0)
    ≡ ran
        (complete_row 200 (lease_row 200 job) ∷ [], 0)
        (record { leased = 1; complete = 1; retry = 0; failed = 0 })
unfolding run_due_jobs run_from lease_and_work work settle_returned candidate lease_row complete_row
run_completes = refl
