-- ===== src/Jobs/Keys.antt =====
-- Idempotency keys: enqueuing is idempotent, and a key never has two rows.
use operational_inbox.Common.{
  subst, sym, ==_refl, Bool-cases, ℕ, true, none, some, List, [], ◌∷◌, ◌++◌, ◌≡◌, ◌≢◌, arith, find,
  IsFresh, IsUnique, Option-cases, inl, inr,
}
use operational_inbox.Jobs.Row.{Job, has_key, enqueue_job}

abbrev pub key_of : Job → ℕ
key_of j = j.idempotency_key

find_appended :
    (k : ℕ) (new : Job) (jobs : List Job)
    → find (has_key k) jobs ≡ none
    → has_key k new ≡ true
    → find (has_key k) (jobs ++ new ∷ []) ≡ some new
find_appended k new [] e h = ground arith
find_appended k new (j ∷ jobs) e h = ground (arith, find_appended k new jobs)

-- A second call with the same key, whatever its other arguments, returns the first call's job and
-- leaves the table as the first call left it.
pub enqueue_again :
    (new other : Job) (jobs : List Job)
    → other.idempotency_key ≡ new.idempotency_key
    → enqueue_job other (enqueue_job new jobs).0 ≡ enqueue_job new jobs
unfolding enqueue_job
enqueue_again new other jobs same = elim (Option-cases (find (has_key new.idempotency_key) jobs)) [
  | inl e ↦ ground (
    arith,
    subst (λ k. find (has_key k) (jobs ++ new ∷ []) ≡ some new) (sym same)
        (find_appended new.idempotency_key new jobs e (==_refl new.idempotency_key)),
  )
  | inr (job, e) ↦ ground (arith, subst (λ k. find (has_key k) jobs ≡ some job) (sym same) e)
]

append-IsFresh :
    (k : ℕ) (new : Job) (jobs : List Job)
    → key_of new ≢ k
    → IsFresh key_of k jobs
    → IsFresh key_of k (jobs ++ new ∷ [])
append-IsFresh k new [] h f = (h, tt)
append-IsFresh k new (j ∷ jobs) h f = (f.0, append-IsFresh k new jobs h f.1)

append-IsUnique :
    (new : Job) (jobs : List Job)
    → find (has_key new.idempotency_key) jobs ≡ none
    → IsUnique key_of jobs
    → IsUnique key_of (jobs ++ new ∷ [])
append-IsUnique new [] e u = (tt, tt)
append-IsUnique new (j ∷ jobs) e u = elim (Bool-cases (has_key new.idempotency_key j)) [
  | inl hit ↦ ground arith
  | inr miss ↦ (
    append-IsFresh (key_of j) new jobs (ground arith) u.0,
    append-IsUnique new jobs (ground arith) u.1,
  )
]

-- Enqueuing keeps the keys unique.
pub enqueue-IsUnique :
    (new : Job) (jobs : List Job) → IsUnique key_of jobs → IsUnique key_of (enqueue_job new jobs).0
unfolding enqueue_job
enqueue-IsUnique new jobs u = elim (Option-cases (find (has_key new.idempotency_key) jobs)) [
  | inl e ↦ rw (e, enqueue_job) (append-IsUnique new jobs e u)
  | inr (job, e) ↦ rw (e, enqueue_job) u
]
