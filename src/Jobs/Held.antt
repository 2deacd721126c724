-- ===== src/Jobs/Held.antt =====
-- Writes to other rows leave a row that is held under a lease: lemmas on the table of jobs.
use operational_inbox.Common.{
  ℕ, Bool, true, false, some, List, [], ◌∷◌, ◌==◌, ◌&&◌, ◌||◌, not, ◌≡◌, refl, ◌∙◌, ap, arith, find,
  any, filter, update_where, is_none, at_or_before,
}
use operational_inbox.Jobs.Row.{
  Job, has_job_id, is_due, lease_row, fail_row, complete_row, is_leased,
}
use operational_inbox.Jobs.Runner.{is_leasable}

filter-update_where :
    (p test : Job → Bool) (change : Job → Job)
    → ((j : Job) → p (change j) ≡ p j)
    → (jobs : List Job)
    → filter p (update_where test change jobs) ≡ update_where test change (filter p jobs)
filter-update_where p test change same [] = refl
filter-update_where p test change same (j ∷ jobs) =
    ground (arith, filter-update_where p test change same jobs, same j)

any-filter :
    (p q : Job → Bool) (jobs : List Job) → any (λ j. p j && q j) jobs ≡ any q (filter p jobs)
any-filter p q [] = refl
any-filter p q (j ∷ jobs) = ground (arith, any-filter p q jobs)

pub find-passes : (p : Job → Bool) (jobs : List Job) (j : Job) → find p jobs ≡ some j → p j ≡ true
find-passes p [] j e = ground arith
find-passes p (x ∷ jobs) j e = ground (arith, find-passes p jobs j)

-- The lease of the row runs at a moment.
abbrev pub is_running : (now : ℕ) → Job → Bool
is_running now j =
    is_leased j.status && not (is_none j.leased_until || at_or_before j.leased_until now)

running_not_due : (now : ℕ) (j : Job) → is_running now j ≡ true → is_due now j ≡ false
running_not_due now j h = ground arith

-- The only row with the ID is `r`.
abbrev pub IsRow : Job → List Job → Type 0
IsRow r jobs = filter (has_job_id r.id) jobs ≡ r ∷ []

pub write-IsRow :
    (r : Job) (test : Job → Bool) (change : Job → Job) (jobs : List Job)
    → ((j : Job) → (change j).id ≡ j.id)
    → test r ≡ false
    → IsRow r jobs
    → IsRow r (update_where test change jobs)
write-IsRow r test change jobs same off h =
    filter-update_where (has_job_id r.id) test change (λ j. ap (λ k. k == r.id) (same j)) jobs
    ∙ ap (update_where test change) h
    ∙ ground arith

pub id-lease_row : (now : ℕ) (j : Job) → (lease_row now j).id ≡ j.id
unfolding lease_row
id-lease_row now j = refl

pub id-fail_row : (job : Job) (now : ℕ) (j : Job) → (fail_row job now j).id ≡ j.id
unfolding fail_row
id-fail_row job now j = refl

pub id-complete_row : (now : ℕ) (j : Job) → (complete_row now j).id ≡ j.id
unfolding complete_row
id-complete_row now j = refl

-- A lease that runs leaves nothing to be leased.
pub none_leasable :
    (r : Job) (id now : ℕ) (jobs : List Job)
    → IsRow r jobs
    → is_running now r ≡ true
    → id ≡ r.id
    → any (is_leasable id now) jobs ≡ false
none_leasable r id now jobs row running same =
    ap (λ k. any (is_leasable k now) jobs) same
    ∙ any-filter (has_job_id r.id) (is_due now) jobs
    ∙ ap (any (is_due now)) row
    ∙ ground (arith, running_not_due now r running)
