-- ===== src/Outbound/Workers/Claims.antt =====
-- What a claim does to the permission to send: a queued row is turned into a worker.
use operational_inbox.Common.{
  subst, sym, ==_iff, ℕ, zero, suc, Bool, true, Option, some, String, List, [], ◌∷◌, ◌++◌, ◌==◌,
  ◌&&◌, ◌≡◌, refl, ◌+◌, ◌≤◌, arith, count, get_elem?, find, update_where, inl, inr, Option-cases,
  Bool-cases,
}
use operational_inbox.Accounts.{Domain}
use operational_inbox.Outbound.Message.{OutboundMessage, is_queued}
use operational_inbox.Outbound.Submission.{claim, claim_row, refuse, take, lock_control}
use operational_inbox.Database.{
  Database, has_id, change_outbound, notify_problem, outbound_of, domain_of,
}
use operational_inbox.Outbound.Workers.Steps.{World, remove_at, with_claim}

abbrev pub queued_of : ℕ → OutboundMessage → Bool
queued_of k m = has_id k m && is_queued m.status

-- What still may lead to a call of SES for `k`, and the calls that were made.
abbrev pub permission : ℕ → World → ℕ
permission k w =
    count (queued_of k) w.db.outbound + count (has_id k) w.claimed + count (λ s. s == k) w.sends

pub count-update_le {ℓ} :
    {A : Type ℓ} (p test : A → Bool) (change : A → A) (xs : List A)
    → ((x : A) → p (change x) ≡ true → p x ≡ true)
    → count p (update_where test change xs) ≤ count p xs
count-update_le p test change [] h = omega arith
count-update_le p test change (x ∷ xs) h = ground (arith, h x, count-update_le p test change xs h)

pub count-remove_at {ℓ} :
    {A : Type ℓ} (p : A → Bool) (k : ℕ) (xs : List A) → count p (remove_at k xs) ≤ count p xs
count-remove_at p k [] = omega arith
count-remove_at p zero (x ∷ xs) = ground arith
count-remove_at p (suc k) (x ∷ xs) = ground (arith, count-remove_at p k xs)

pub count-remove_found :
    (p : OutboundMessage → Bool) (k : ℕ) (xs : List OutboundMessage) (m : OutboundMessage)
    → get_elem? xs k ≡ some m
    → count p (m ∷ []) + count p (remove_at k xs) ≤ count p xs
count-remove_found p k [] m e = cc
count-remove_found p zero (x ∷ xs) m e = ground arith
count-remove_found p (suc k) (x ∷ xs) m e = ground (arith, count-remove_found p k xs m e)

pub count-append :
    (p : OutboundMessage → Bool) (xs ys : List OutboundMessage)
    → count p (xs ++ ys) ≡ count p xs + count p ys
count-append p [] ys = omega arith
count-append p (x ∷ xs) ys = ground (arith, count-append p xs ys)

pub found_id :
    (k : ℕ) (xs : List OutboundMessage) (m : OutboundMessage)
    → find (has_id k) xs ≡ some m
    → m.id ≡ k
found_id k [] m e = cc
found_id k (x ∷ xs) m e = ground (arith, found_id k xs m)

found_queued :
    (k : ℕ) (xs : List OutboundMessage) (m : OutboundMessage)
    → find (has_id k) xs ≡ some m
    → is_queued m.status ≡ true
    → 1 ≤ count (queued_of k) xs
found_queued k [] m e q = cc
found_queued k (x ∷ xs) m e q = ground (arith, found_queued k xs m)

-- Once every row of an ID is taken, none of them is queued.
taken_unqueued :
    (k now : ℕ) (xs : List OutboundMessage)
    → count (queued_of k) (update_where (has_id k) (take now) xs) ≡ 0
unfolding take
taken_unqueued k now [] = refl
taken_unqueued k now (x ∷ xs) = ground (arith, taken_unqueued k now xs)

pub notify_problem-outbound :
    (m : OutboundMessage) (db : Database) → (notify_problem m db).outbound ≡ db.outbound
unfolding notify_problem
notify_problem-outbound m db = ground arith

take_unqueues :
    (now k : ℕ) (m : OutboundMessage) → queued_of k (take now m) ≡ true → queued_of k m ≡ true
unfolding take
take_unqueues now k m h = ground arith

refuse_unqueues :
    (error : String) (now k : ℕ) (m : OutboundMessage)
    → queued_of k (refuse error now m) ≡ true
    → queued_of k m ≡ true
unfolding refuse
refuse_unqueues error now k m h = ground arith

take-id : (now : ℕ) (m : OutboundMessage) → (take now m).id ≡ m.id
unfolding take
take-id now m = refl

take_permission :
    (now k : ℕ) (m : OutboundMessage) (rows ms : List OutboundMessage)
    → find (has_id m.id) rows ≡ some m
    → is_queued m.status ≡ true
    → count (queued_of k) (update_where (has_id m.id) (take now) rows)
        + count (has_id k) (take now m ∷ ms)
      ≤ count (queued_of k) rows + count (has_id k) ms
take_permission now k m rows ms e q = elim (Bool-cases (m.id == k)) [
  | inl same ↦
      subst
        (λ j.
          count (queued_of j) (update_where (has_id m.id) (take now) rows)
            + count (has_id j) (take now m ∷ ms)
          ≤ count (queued_of j) rows + count (has_id j) ms)
        ((==_iff m.id k).0 same)
        (ground (arith, take-id now m, taken_unqueued m.id now rows, found_queued m.id rows m e q))
  | inr other ↦ ground (
    arith,
    take-id now m,
    count-update_le (queued_of k) (has_id m.id) (take now) rows (take_unqueues now k),
  )
]

-- A claim turns a queued row into a worker, or leaves no row queued that was not.
claim_row_permission :
    (authorize : Database → OutboundMessage → Option String) (now k : ℕ) (m : OutboundMessage)
    (d : Domain) (db : Database) (ms : List OutboundMessage)
    → find (has_id m.id) db.outbound ≡ some m
    → count (queued_of k) (claim_row authorize now m d db).0.outbound
        + count (has_id k) (with_claim (claim_row authorize now m d db).1 ms)
      ≤ count (queued_of k) db.outbound + count (has_id k) ms
unfolding claim_row
claim_row_permission authorize now k m d db ms e = elim (Option-cases (authorize db m)) [
  | inl granted ↦ ground (arith, take_permission now k m db.outbound ms e)
  | inr (error, refused) ↦ ground (
    arith,
    notify_problem-outbound (refuse error now m) (change_outbound m.id (refuse error now) db),
    count-update_le (queued_of k) (has_id m.id) (refuse error now) db.outbound
        (refuse_unqueues error now k),
  )
]

pub claim_permission :
    (authorize : Database → OutboundMessage → Option String) (id now k : ℕ) (db : Database)
    (ms : List OutboundMessage)
    → count (queued_of k) (claim authorize id now db).0.outbound
        + count (has_id k) (with_claim (claim authorize id now db).1 ms)
      ≤ count (queued_of k) db.outbound + count (has_id k) ms
unfolding claim
claim_permission authorize id now k db ms = elim (Option-cases (outbound_of id db)) [
  | inl e ↦ ground arith
  | inr (m, e) ↦ elim (Option-cases (domain_of m.domain_id db)) [
    | inl f ↦ ground arith
    | inr (d, f) ↦
        let found =
          subst (λ j. find (has_id j) db.outbound ≡ some m) (sym (found_id id db.outbound m e)) e in
        ground
          (arith, claim_row_permission authorize now k m d (lock_control d.owner_id db) ms found)
  ]
]
