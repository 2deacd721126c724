-- ===== src/Routing/Transitions.antt =====
-- Lemmas on writes to the table of transitions.
use operational_inbox.Common.{
  ==_refl, subst, ==_iff, ℕ, Bool, true, false, Option, none, some, List, [], ◌∷◌, ◌++◌, ◌==◌, ◌≡◌,
  ◌≢◌, ◌≤◌, ◌+◌, arith, find, first, filter, order_by, insert_by, count, update_where,
  if◌then◌else◌, Bool-cases, inl, inr, refl, IsFresh, IsUnique, sym, ap,
}
use operational_inbox.Setup.{Transition}
use operational_inbox.Routing.{has_transition_id, is_open_of}

abbrev pub transition_id : Transition → ℕ
transition_id t = t.id

-- The transition IDs are distinct and no domain has two transitions in progress.
abbrev pub IsExclusive : List Transition → Type 0
IsExclusive ts = IsUnique transition_id ts × ((domain : ℕ) → count (is_open_of domain) ts ≤ 1)

head_found :
    (b : Bool) (x t : Transition) (rest : Option Transition)
    → b ≡ true
    → (if b then some x else rest) ≡ some t
    → x ≡ t
head_found b x t rest hit e = ground arith

module _ (k : ℕ) (change : Transition → Transition)
    (same : (t : Transition) → (change t).id ≡ t.id) where
  pub change-IsFresh :
      (n : ℕ) (ts : List Transition)
      → IsFresh transition_id n ts
      → IsFresh transition_id n (update_where (has_transition_id k) change ts)
  change-IsFresh n [] f = tt
  change-IsFresh n (t ∷ ts) f = ground (arith, change-IsFresh n ts f.1, same t)

  pub change-IsUnique :
      (ts : List Transition)
      → IsUnique transition_id ts
      → IsUnique transition_id (update_where (has_transition_id k) change ts)
  change-IsUnique [] u = tt
  change-IsUnique (t ∷ ts) u =
      ground (arith, change-IsUnique ts u.1, change-IsFresh t.id ts u.0, same t)

  untouched :
      (ts : List Transition)
      → IsFresh transition_id k ts
      → update_where (has_transition_id k) change ts ≡ ts
  untouched [] f = refl
  untouched (t ∷ ts) f = ground (arith, untouched ts f.1)

  -- A write to the one row of an ID that opens nothing raises no count.
  pub count_change :
      (p : Transition → Bool) (ts : List Transition) (t : Transition)
      → IsUnique transition_id ts
      → find (has_transition_id k) ts ≡ some t
      → (p t ≡ false → p (change t) ≡ false)
      → count p (update_where (has_transition_id k) change ts) ≤ count p ts
  count_change p [] t u e h = ground arith
  count_change p (x ∷ ts) t u e h = elim (Bool-cases (x.id == k)) [
    | inl hit ↦
        let rest =
          untouched ts (subst (λ n. IsFresh transition_id n ts) ((==_iff x.id k).0 hit) u.0) in
        let here = head_found (x.id == k) x t (find (has_transition_id k) ts) hit e in
        ground (arith, ap (count p) rest, h, ap p here, ap (λ z. p (change z)) here)
    | inr miss ↦ ground (arith, count_change p ts t u.1)
  ]

module _ (k : ℕ) (change : Transition → Transition) (p : Transition → Bool)
    (off : (t : Transition) → p (change t) ≡ false) where
  pub count_off :
      (ts : List Transition) → count p (update_where (has_transition_id k) change ts) ≤ count p ts
  count_off [] = ground arith
  count_off (x ∷ ts) = ground (arith, off x, count_off ts)

  -- Closing the only open row leaves none open.
  pub count_closed :
      (ts : List Transition) (t : Transition)
      → count p ts ≤ 1
      → find p ts ≡ some t
      → t.id ≡ k
      → count p (update_where (has_transition_id k) change ts) ≡ 0
  count_closed [] t le e same = ground arith
  count_closed (x ∷ ts) t le e same = elim (Bool-cases (p x)) [
    | inl hit ↦
        let here = head_found (p x) x t (find p ts) hit e in
        ground (arith, count_off ts, off x, ap transition_id here, ==_refl k)
    | inr miss ↦ ground (arith, off x, count_closed ts t)
  ]

none_left : (p : Transition → Bool) (ts : List Transition) → count p ts ≡ 0 → filter p ts ≡ []
none_left p [] e = refl
none_left p (x ∷ ts) e = ground (arith, none_left p ts)

-- Where one row passes, the first in any order is that row.
pub only_found :
    (p : Transition → Bool) (before : Transition → Transition → Bool) (ts : List Transition)
    (t : Transition)
    → count p ts ≤ 1
    → first (order_by before (filter p ts)) ≡ some t
    → find p ts ≡ some t
only_found p before [] t le e = e
only_found p before (x ∷ ts) t le e = elim (Bool-cases (p x)) [
  | inl hit ↦ ground (arith, none_left p ts)
  | inr miss ↦ ground (arith, only_found p before ts t)
]

first-insert :
    (before : Transition → Transition → Bool) (x : Transition) (ys : List Transition)
    → first (insert_by before x ys) ≢ none
first-insert before x [] e = ground arith
first-insert before x (y ∷ ys) e = ground arith

pub none_found :
    (p : Transition → Bool) (before : Transition → Transition → Bool) (ts : List Transition)
    → first (order_by before (filter p ts)) ≡ none
    → count p ts ≡ 0
none_found p before [] e = refl
none_found p before (x ∷ ts) e = elim (Bool-cases (p x)) [
  | inl hit ↦ ground (arith, first-insert before x (order_by before (filter p ts)))
  | inr miss ↦ ground (arith, none_found p before ts)
]

pub count-append :
    (p : Transition → Bool) (t : Transition) (ts : List Transition)
    → count p (ts ++ t ∷ []) ≡ count p ts + (if p t then 1 else 0)
count-append p t [] = ground arith
count-append p t (x ∷ ts) = ground (arith, count-append p t ts)

append-IsFresh :
    (k : ℕ) (t : Transition) (ts : List Transition)
    → t.id ≢ k
    → IsFresh transition_id k ts
    → IsFresh transition_id k (ts ++ t ∷ [])
append-IsFresh k t [] h f = (h, tt)
append-IsFresh k t (x ∷ ts) h f = (f.0, append-IsFresh k t ts h f.1)

pub append-IsUnique :
    (t : Transition) (ts : List Transition)
    → IsFresh transition_id t.id ts
    → IsUnique transition_id ts
    → IsUnique transition_id (ts ++ t ∷ [])
append-IsUnique t [] f u = (tt, tt)
append-IsUnique t (x ∷ ts) f u =
    (append-IsFresh x.id t ts (λ e. f.0 (sym e)) u.0, append-IsUnique t ts f.1 u.1)
