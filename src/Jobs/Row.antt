-- ===== src/Jobs/Row.antt =====
-- A job's row and the conditional updates that lease and settle it.
use operational_inbox.Common.{
  ℕ, Bool, true, false, Option, none, some, String, List, [], ◌∷◌, ◌++◌, ◌==◌, ◌&&◌, ◌||◌, leb, min,
  ◌+◌, ◌^◌, find, filter, first, order_by, if◌then◌else◌, minutes, is_none, at_or_before,
}

pub data JobStatus : Type 0 where
  pending leased complete retry failed : JobStatus

pub record Job : Type 0 where
  pub id : ℕ
  pub domain_id : Option ℕ
  pub kind : ℕ
  pub idempotency_key : ℕ
  pub status : JobStatus
  pub payload : ℕ
  pub due_at : ℕ
  pub leased_until : Option ℕ
  pub attempts : ℕ
  pub max_attempts : ℕ
  pub last_error_code : String
  pub updated_at : ℕ

abbrev pub has_key : ℕ → Job → Bool
has_key k j = j.idempotency_key == k

abbrev pub has_job_id : ℕ → Job → Bool
has_job_id k j = j.id == k

-- The row that `enqueue_job` creates, with the model's defaults and a new ID.
abbrev pub new_job : (id kind key payload due_at now : ℕ) → Option ℕ → Job
new_job id kind key payload due_at now domain = record {
  id = id;
  domain_id = domain;
  kind = kind;
  idempotency_key = key;
  status = pending;
  payload = payload;
  due_at = due_at;
  leased_until = none;
  attempts = 0;
  max_attempts = 8;
  last_error_code = "";
  updated_at = now;
}

-- `get_or_create(idempotency_key=…)`
unfoldable pub enqueue_job : Job → List Job → List Job × Job
enqueue_job new jobs = elim (find (has_key new.idempotency_key) jobs) [
  | some job ↦ (jobs, job)
  | none ↦ (jobs ++ new ∷ [], new)
]

-- The statuses that a worker may lease from; an expired lease is one.
abbrev pub is_open_status : JobStatus → Bool
is_open_status pending = true
is_open_status retry = true
is_open_status leased = true
is_open_status _ = false

-- The filter of the candidate and of the lease.
abbrev pub is_due : (now : ℕ) → Job → Bool
is_due now j =
    is_open_status j.status
    && leb j.due_at now
    && (is_none j.leased_until || at_or_before j.leased_until now)

-- `order_by("due_at").first()`
abbrev pub due_before : Job → Job → Bool
due_before a b = leb a.due_at b.due_at

unfoldable pub candidate : (now : ℕ) → List Job → Option Job
candidate now jobs = first (order_by due_before (filter (is_due now) jobs))

-- The columns that a lease writes.
unfoldable pub lease_row : (now : ℕ) → Job → Job
lease_row now j = record j {
  status = leased;
  leased_until = some (now + minutes 5);
  attempts = j.attempts + 1;
  updated_at = now;
}

abbrev pub is_leased : JobStatus → Bool
is_leased leased = true
is_leased _ = false

-- `filter(id=job.id, status=LEASED, attempts=job.attempts)`: the lease of this attempt still runs.
abbrev pub holds_lease : (attempts : ℕ) → Job → Bool
holds_lease attempts j = is_leased j.status && j.attempts == attempts

-- A failed attempt is the last one.
abbrev pub is_terminal : Job → Bool
is_terminal job = leb job.max_attempts job.attempts

-- `job` is the row as the worker read it.
unfoldable pub fail_row : (job : Job) (now : ℕ) → Job → Job
fail_row job now j = record j {
  status = if is_terminal job then failed else retry;
  leased_until = none;
  due_at = if is_terminal job then job.due_at else now + minutes (min 60 (2 ^ job.attempts));
  last_error_code = "job_handler_failed";
  updated_at = now;
}

unfoldable pub complete_row : (now : ℕ) → Job → Job
complete_row now j = record j {
  status = complete;
  leased_until = none;
  last_error_code = "";
  updated_at = now;
}

-- The conditional updates, on one row.
unfoldable pub settle_failure : (job : Job) (now : ℕ) → Job → Job
settle_failure job now j = if holds_lease job.attempts j then fail_row job now j else j

unfoldable pub settle_complete : (attempts now : ℕ) → Job → Job
settle_complete attempts now j = if holds_lease attempts j then complete_row now j else j

-- The update of `schedule_work` that opens the finished job of a pending notification again.
unfoldable pub reopen_notification_job : (now : ℕ) → Job → Job
reopen_notification_job now j =
    let opened = record j {
      status = pending;
      due_at = now;
      leased_until = none;
      attempts = 0;
      last_error_code = "";
      updated_at = now;
    } in
    elim j.status [ complete ↦ opened | failed ↦ opened | _ ↦ j ]

-- The update of `schedule_work` for a queued message, and that of `set_outbound_paused`, which
-- leaves out only leased jobs.
unfoldable pub reopen_outbound_job : (now : ℕ) → Job → Job
reopen_outbound_job now j =
    let opened = record j {
      status = pending;
      due_at = now;
      leased_until = none;
      last_error_code = "";
      updated_at = now;
    } in
    elim j.status [ complete ↦ opened | failed ↦ opened | _ ↦ j ]

unfoldable pub resume_outbound_job : (now : ℕ) → Job → Job
resume_outbound_job now j = if is_leased j.status then j else record j {
  status = pending;
  due_at = now;
  leased_until = none;
  last_error_code = "";
  updated_at = now;
}
