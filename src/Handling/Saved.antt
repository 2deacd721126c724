-- ===== src/Handling/Saved.antt =====
-- What saving a policy changes: the agent's running work, and the mode that counts
-- (inbox/services/handling_policy.py).
use operational_inbox.Common.{
  ℕ, Bool, true, false, Option, none, some, List, [], ◌∷◌, ◌++◌, ◌==◌, ◌&&◌, not, or_else, ◌≡◌,
  refl, arith, all, any, find, is_none, update_where, Option-cases, Bool-cases, inl, inr,
}
use operational_inbox.Handling.States.{HandlingState}
use operational_inbox.Handling.Moves.{World, Move, moves}
use operational_inbox.Handling.Fenced.{replies_upto, old_runs_never_reply}
use operational_inbox.Handling.Policies.{
  HandlingPolicy, is_inherit, has_policy_id, is_account_policy, is_domain_policy, is_valid_policy,
  account_policy, combine, effective_policy, PolicyBook, is_covered_by, reassess, stored_policy,
  put_policy, save_policy,
}

abbrev pub is_about : ℕ → HandlingState → Bool
is_about conversation s = s.conversation_id == conversation

-- The conversation's row after the update.
reassessed :
    (covers : HandlingState → Bool) (k : ℕ) (states : List HandlingState) (s : HandlingState)
    → find (is_about k) states ≡ some s
    → covers s ≡ true
    → find (is_about k) (update_where covers reassess states) ≡ some (reassess s)
reassessed covers k [] s found covered = ground arith
reassessed covers k (x ∷ states) s found covered =
    ground (arith, reassessed covers k states s, found)

saved-states :
    (owner_of domain_of : ℕ → ℕ) (now : ℕ) (p : HandlingPolicy) (book book' : PolicyBook)
    → save_policy owner_of domain_of now p book ≡ some book'
    → book'.states ≡ update_where (is_covered_by owner_of domain_of p) reassess book.states
unfolding save_policy
saved-states owner_of domain_of now p book book' e = ground arith

-- The rows of one conversation with its state as a table has it.
abbrev pub with_state_of : ℕ → List HandlingState → World → World
with_state_of k states w = record w {
  thread = record w.thread { state = find (is_about k) states };
}

-- Saving a policy stops the agent's running work on every conversation that it covers: no run of the
-- conversation's generation at that time, or of an older one, queues a reply afterwards, whatever the
-- workers and everyone else do next.
pub policy_change_stops_runs :
    (owner_of domain_of : ℕ → ℕ) (now k : ℕ) (p : HandlingPolicy) (book book' : PolicyBook)
    (s : HandlingState) (w : World) (ms : List Move)
    → save_policy owner_of domain_of now p book ≡ some book'
    → find (is_about k) book.states ≡ some s
    → is_covered_by owner_of domain_of p s ≡ true
    → replies_upto s.generation (moves ms (with_state_of k book'.states w)).thread
      ≡ replies_upto s.generation w.thread
policy_change_stops_runs owner_of domain_of now k p book book' s w ms saved found covered =
    let same = saved-states owner_of domain_of now p book book' saved in
    let row = reassessed (is_covered_by owner_of domain_of p) k book.states s found covered in
    (old_runs_never_reply ms s.generation (with_state_of k book'.states w)
      (rw same (rw row (ground arith)))).1

-- An account's own row never stands back.
abbrev pub is_settled_mode : HandlingPolicy → Bool
is_settled_mode p = not (is_none p.domain_id && is_inherit p.mode)

settled-last :
    (ps : List HandlingPolicy) (p : HandlingPolicy)
    → all is_settled_mode ps ≡ true
    → is_settled_mode p ≡ true
    → all is_settled_mode (ps ++ p ∷ []) ≡ true
settled-last [] p h new = ground arith
settled-last (x ∷ ps) p h new = ground (arith, settled-last ps p)

settled-update :
    (test : HandlingPolicy → Bool) (ps : List HandlingPolicy) (p : HandlingPolicy)
    → all is_settled_mode ps ≡ true
    → is_settled_mode p ≡ true
    → all is_settled_mode (update_where test (λ _. p) ps) ≡ true
settled-update test [] p h new = refl
settled-update test (x ∷ ps) p h new = ground (arith, settled-update test ps p)

settled-found :
    (test : HandlingPolicy → Bool) (ps : List HandlingPolicy) (p : HandlingPolicy)
    → all is_settled_mode ps ≡ true
    → find test ps ≡ some p
    → (is_settled_mode p ≡ true) × (test p ≡ true)
settled-found test [] p h found = ground arith
settled-found test (x ∷ ps) p h found = ground (arith, settled-found test ps p)

stored-settled :
    (now : ℕ) (old : Option HandlingPolicy) (p : HandlingPolicy)
    → is_settled_mode p ≡ true
    → is_settled_mode (stored_policy now old p) ≡ true
unfolding stored_policy
stored-settled now none p h = h
stored-settled now (some old) p h = h

valid-settled :
    (owner_of : ℕ → ℕ) (ps : List HandlingPolicy) (p : HandlingPolicy)
    → is_valid_policy owner_of ps p ≡ true
    → is_settled_mode p ≡ true
unfolding is_valid_policy
valid-settled owner_of ps p h = ground arith

put-settled :
    (p : HandlingPolicy) (ps : List HandlingPolicy)
    → all is_settled_mode ps ≡ true
    → is_settled_mode p ≡ true
    → all is_settled_mode (put_policy p ps) ≡ true
put-settled p ps h new = elim (Bool-cases (any (has_policy_id p.id) ps)) [
  | inl known ↦ rw known (settled-update (has_policy_id p.id) ps p h new)
  | inr first ↦ rw first (settled-last ps p h new)
]

saved-settled :
    (owner_of domain_of : ℕ → ℕ) (now : ℕ) (p : HandlingPolicy) (book : PolicyBook)
    → all is_settled_mode book.policies ≡ true
    → all is_settled_mode (or_else (save_policy owner_of domain_of now p book) book).policies ≡ true
unfolding save_policy
saved-settled owner_of domain_of now p book h =
    let stored = stored_policy now (find (has_policy_id p.id) book.policies) p in
    elim (Bool-cases (is_valid_policy owner_of book.policies p)) [
      | inr invalid ↦ ground arith
      | inl valid ↦ rw valid (
          put-settled stored book.policies h (
            stored-settled now (find (has_policy_id p.id) book.policies) p
              (valid-settled owner_of book.policies p valid)))
    ]

-- Saves in a row; a refused one leaves the rows.
unfoldable pub save_all :
    (owner_of domain_of : ℕ → ℕ) → List (ℕ × HandlingPolicy) → PolicyBook → PolicyBook
save_all owner_of domain_of [] book = book
save_all owner_of domain_of ((now, p) ∷ ps) book =
    save_all owner_of domain_of ps (or_else (save_policy owner_of domain_of now p book) book)

all-settled :
    (owner_of domain_of : ℕ → ℕ) (ps : List (ℕ × HandlingPolicy)) (book : PolicyBook)
    → all is_settled_mode book.policies ≡ true
    → all is_settled_mode (save_all owner_of domain_of ps book).policies ≡ true
unfolding save_all
all-settled owner_of domain_of [] book h = h
all-settled owner_of domain_of ((now, p) ∷ ps) book h =
    all-settled owner_of domain_of ps (or_else (save_policy owner_of domain_of now p book) book)
      (saved-settled owner_of domain_of now p book h)

account-chosen :
    (id owner joined_at : ℕ) (ps : List HandlingPolicy)
    → all is_settled_mode ps ≡ true
    → is_inherit (account_policy id owner joined_at ps).1.mode ≡ false
unfolding account_policy
account-chosen id owner joined_at ps h = elim (Option-cases (find (is_account_policy owner) ps)) [
  | inl missing ↦ ground arith
  | inr (p, found) ↦ ground (arith, settled-found (is_account_policy owner) ps p h found)
]

combine-chosen :
    (o : Option HandlingPolicy) (account : HandlingPolicy)
    → is_inherit account.mode ≡ false
    → is_inherit (combine o account).mode ≡ false
unfolding combine
combine-chosen none account h = h
combine-chosen (some o) account h = ground arith

effective-settled :
    (id owner domain joined_at : ℕ) (ps : List HandlingPolicy)
    → all is_settled_mode ps ≡ true
    → is_inherit (effective_policy id owner domain joined_at ps).1.mode ≡ false
unfolding effective_policy
effective-settled id owner domain joined_at ps h =
    let found = account_policy id owner joined_at ps in
    combine-chosen (find (is_domain_policy owner domain) found.0) found.1
      (account-chosen id owner joined_at ps h)

-- However policies are saved for accounts and domains, from none on and in any order, the mode that
-- counts for a domain is always one that is chosen: it never stands back behind nothing.
pub effective_mode_is_chosen :
    (owner_of domain_of : ℕ → ℕ) (ps : List (ℕ × HandlingPolicy)) (states : List HandlingState)
    (id owner domain joined_at : ℕ)
    → is_inherit
        (effective_policy id owner domain joined_at
          (save_all owner_of domain_of ps
            (record { policies = []; states = states })).policies).1.mode
      ≡ false
effective_mode_is_chosen owner_of domain_of ps states id owner domain joined_at =
    effective-settled id owner domain joined_at
      (save_all owner_of domain_of ps (record { policies = []; states = states })).policies
      (all-settled owner_of domain_of ps (record { policies = []; states = states }) refl)
