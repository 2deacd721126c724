-- ===== src/Routing/Opened.antt =====
-- Beginning and cancelling a transition keep the table of transitions exclusive.
use operational_inbox.Routing.Reachable.{find_passes}
use operational_inbox.Common.{
  ◌⊎◌, ℕ, false, Option, none, some, List, [], ◌∷◌, ◌++◌, ◌≡◌, arith, find, count, subst,
  update_where, Option-cases, inl, inr, refl, IsFresh, sym,
}
use operational_inbox.Accounts.{Domain, SetupMode}
use operational_inbox.Setup.{Setup, Naming, Transition, has_domain_id}
use operational_inbox.Routing.{
  has_transition_id, is_open_of, active_routing_transition, newest_first,
}
use operational_inbox.Routing.Opening.{
  begin_transition, create_transition, new_transition, end_grace, complete_row, begun,
  cancel_transition, closed, cancel_row, close_transition,
}
use operational_inbox.Routing.Transitions.{
  transition_id, IsExclusive, change-IsUnique, count_change, count_closed, only_found, none_found,
  count-append, append-IsUnique, change-IsFresh,
}

created :
    (n : Naming) (id route_id now : ℕ) (d : Domain) (target : SetupMode) (db : Setup)
    (t : Transition) (db' : Setup)
    → create_transition n id route_id now d target db ≡ begun t db'
    → (db'.transitions ≡ db.transitions ++ t ∷ []) × (t.id ≡ id) × (t.domain_id ≡ d.id)
unfolding create_transition new_transition
created n id route_id now d target db t db' e = ground arith

appended :
    (id : ℕ) (d : ℕ) (ts : List Transition) (t : Transition)
    → t.id ≡ id
    → t.domain_id ≡ d
    → IsFresh transition_id id ts
    → IsExclusive ts
    → count (is_open_of d) ts ≡ 0
    → IsExclusive (ts ++ t ∷ [])
appended id d ts t same of_d f (u, one) zero = (
  append-IsUnique t ts (subst (λ k. IsFresh transition_id k ts) (sym same) f) u,
  λ domain. ground (arith, one domain, count-append (is_open_of domain) t ts),
)

pub off_complete : (d now : ℕ) (t : Transition) → is_open_of d (complete_row now t) ≡ false
off_complete d now t = ground arith

off_cancel : (d now : ℕ) (t : Transition) → is_open_of d (cancel_row now t) ≡ false
off_cancel d now t = ground arith

absent :
    (k : ℕ) (change : Transition → Transition) (ts : List Transition)
    → find (has_transition_id k) ts ≡ none
    → update_where (has_transition_id k) change ts ≡ ts
absent k change [] e = refl
absent k change (t ∷ ts) e = ground (arith, absent k change ts)

-- A write to one row that opens none keeps the table as it should be.
pub written :
    (k : ℕ) (change : Transition → Transition) (ts : List Transition)
    → ((t : Transition) → (change t).id ≡ t.id)
    → ((d : ℕ) (t : Transition)
        → find (has_transition_id k) ts ≡ some t
        → is_open_of d t ≡ false
        → is_open_of d (change t) ≡ false)
    → IsExclusive ts
    → IsExclusive (update_where (has_transition_id k) change ts)
written k change ts same shut (u, one) = (
  change-IsUnique k change same ts u,
  λ d. elim (Option-cases (find (has_transition_id k) ts)) [
    | inl e ↦ rw (absent k change ts e) (one d)
    | inr (t, e) ↦
        omega (arith, one d, count_change k change same (is_open_of d) ts t u e (shut d t e))
  ],
)

end_grace_closes :
    (d now : ℕ) (t : Transition) (db : Setup)
    → IsExclusive db.transitions
    → active_routing_transition d db.transitions ≡ some t
    → IsExclusive (end_grace now t db).transitions
      × (count (is_open_of d) (end_grace now t db).transitions ≡ 0)
unfolding end_grace active_routing_transition
end_grace_closes d now t db ex e = (
  written t.id (complete_row now) db.transitions (λ x. refl)
      (λ k x found shut. off_complete k now x) ex,
  count_closed t.id (complete_row now) (is_open_of d) (λ x. off_complete d now x) db.transitions t
      (ex.1 d) (only_found (is_open_of d) newest_first db.transitions t (ex.1 d) e) refl,
)

abbrev fresh_after :
    (id now : ℕ) (t : Transition) (db : Setup)
    → IsFresh transition_id id db.transitions
    → IsFresh transition_id id (end_grace now t db).transitions
unfolding end_grace
fresh_after id now t db f = change-IsFresh t.id (complete_row now) (λ x. refl) id db.transitions f

from_create :
    (n : Naming) (id route_id now : ℕ) (d : Domain) (target : SetupMode) (base : Setup)
    (t : Transition) (db' : Setup)
    → IsFresh transition_id id base.transitions
    → IsExclusive base.transitions
    → count (is_open_of d.id) base.transitions ≡ 0
    → create_transition n id route_id now d target base ≡ begun t db'
    → IsExclusive db'.transitions
from_create n id route_id now d target base t db' f ex zero e =
    let (rows, same, of_d) = created n id route_id now d target base t db' e in
    subst IsExclusive (sym rows) (appended id d.id base.transitions t same of_d f ex zero)

-- How a call that begins a transition comes to create it.
begin_cases :
    (n : Naming) (id route_id now domain : ℕ) (target : SetupMode) (t : Transition) (db db' : Setup)
    (d : Domain)
    → find (has_domain_id domain) db.domains ≡ some d
    → begin_transition n id route_id now domain target db ≡ some (begun t db')
    → ((active_routing_transition d.id db.transitions ≡ none)
        × (create_transition n id route_id now d target db ≡ begun t db'))
      ⊎ ((current : Transition) × (active_routing_transition d.id db.transitions ≡ some current)
          × (create_transition n id route_id now d target (end_grace now current db) ≡ begun t db'))
unfolding begin_transition
begin_cases n id route_id now domain target t db db' d found e =
    elim (Option-cases (active_routing_transition d.id db.transitions)) [
      | inl idle ↦ inl (idle, ground arith)
      | inr (current, busy) ↦ inr (current, busy, ground arith)
    ]

pub begin-IsExclusive :
    (n : Naming) (id route_id now domain : ℕ) (target : SetupMode) (t : Transition) (db db' : Setup)
    → IsFresh transition_id id db.transitions
    → begin_transition n id route_id now domain target db ≡ some (begun t db')
    → IsExclusive db.transitions
    → IsExclusive db'.transitions
unfolding begin_transition active_routing_transition
begin-IsExclusive n id route_id now domain target t db db' f e ex =
    elim (Option-cases (find (has_domain_id domain) db.domains)) [
      | inl missing ↦ ground arith
      | inr (d, found) ↦ elim (begin_cases n id route_id now domain target t db db' d found e) [
        | inl (idle, made) ↦
            from_create n id route_id now d target db t db' f ex
              (none_found (is_open_of d.id) newest_first db.transitions idle) made
        | inr (current, busy, made) ↦
            let (kept, zero) = end_grace_closes d.id now current db ex busy in
            from_create n id route_id now d target (end_grace now current db) t db'
              (fresh_after id now current db f) kept zero made
      ]
    ]

-- What a look-up finds is found again by its own ID, and by no other row.
pub found_again :
    (k : ℕ) (ts : List Transition) (t : Transition)
    → find (has_transition_id k) ts ≡ some t
    → find (has_transition_id t.id) ts ≡ some t
found_again k ts t e =
    subst (λ j. find (has_transition_id j) ts ≡ some t) (sym (find_passes k ts t e)) e

pub same_row : (o : Option Transition) (t t' : Transition) → o ≡ some t → o ≡ some t' → t ≡ t'
same_row o t t' e e' = ground arith

cancel_row_only :
    (n : Naming) (transition now : ℕ) (t : Transition) (db db' : Setup)
    → find (has_transition_id transition) db.transitions ≡ some t
    → cancel_transition n transition now db ≡ some (closed db')
    → db'.transitions ≡ update_where (has_transition_id t.id) (cancel_row now) db.transitions
unfolding cancel_transition close_transition
cancel_row_only n transition now t db db' found e =
    elim (Option-cases (find (has_domain_id t.domain_id) db.domains)) [
      | inl missing ↦ ground arith
      | inr (d, here) ↦ ground arith
    ]

pub cancel-IsExclusive :
    (n : Naming) (transition now : ℕ) (db db' : Setup)
    → cancel_transition n transition now db ≡ some (closed db')
    → IsExclusive db.transitions
    → IsExclusive db'.transitions
unfolding cancel_transition
cancel-IsExclusive n transition now db db' e ex =
    elim (Option-cases (find (has_transition_id transition) db.transitions)) [
      | inl missing ↦ ground arith
      | inr (t, found) ↦
          subst IsExclusive (sym (cancel_row_only n transition now t db db' found e)) (
            written t.id (cancel_row now) db.transitions (λ x. refl)
              (λ d x here shut. off_cancel d now x) ex)
    ]
