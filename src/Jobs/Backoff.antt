-- ===== src/Jobs/Backoff.antt =====
-- A job whose handler always fails is tried `max_attempts` times and then given up.
use operational_inbox.Common.{
  ℕ, List, [], ◌∷◌, ◌==◌, ◌+◌, ◌≤◌, ◌<◌, ◌≡◌, arith, length, leb, if◌then◌else◌,
}
use operational_inbox.Jobs.Row.{Job, retry, failed, lease_row, settle_failure, fail_row}

-- One lease at a time and the failure of its handler at a later one.
pub fail_once : (leased_at failed_at : ℕ) → Job → Job
fail_once leased_at failed_at j =
    let leased = lease_row leased_at j in settle_failure leased failed_at leased

pub fail_times : List (ℕ × ℕ) → Job → Job
fail_times [] j = j
fail_times ((leased_at, failed_at) ∷ rest) j = fail_times rest (fail_once leased_at failed_at j)

fail_once_lem :
    (a b : ℕ) (j : Job)
    → ((fail_once a b j).attempts ≡ j.attempts + 1)
      × ((fail_once a b j).max_attempts ≡ j.max_attempts)
      × ((fail_once a b j).status ≡ (if leb j.max_attempts (j.attempts + 1) then failed else retry))
unfolding fail_once lease_row settle_failure fail_row
fail_once_lem a b j = ground arith

-- After n failures, as long as the attempts are not used up before, the job has n attempts more;
-- it is `failed` exactly when they are used up, and `retry` before.
pub fail_times-status :
    (rounds : List (ℕ × ℕ)) (j : Job)
    → 0 < length rounds
    → j.attempts + length rounds ≤ j.max_attempts
    → ((fail_times rounds j).attempts ≡ j.attempts + length rounds)
      × ((fail_times rounds j).status
          ≡ (if j.attempts + length rounds == j.max_attempts then failed else retry))
unfolding fail_times
fail_times-status [] j pos h = absurd (omega arith)
fail_times-status ((a, b) ∷ []) j pos h = let once = fail_once_lem a b j in ground arith
fail_times-status ((a, b) ∷ r ∷ rest) j pos h =
    let once = fail_once_lem a b j in
    ground (arith, once, fail_times-status (r ∷ rest) (fail_once a b j))
