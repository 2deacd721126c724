-- ===== src/Routing/Settled.antt =====
-- Refreshing, cutting over and completing a transition keep the table of transitions exclusive.
use operational_inbox.Routing.Reachable.{finalized}
use operational_inbox.Common.{
  is_id, hours, any, at_or_before, ℕ, Bool, true, false, Option, none, some, List, [], ◌∷◌, ◌&&◌,
  not, ◌≡◌, ◌+◌, arith, find, subst, update_where, if◌then◌else◌, Bool-cases, Option-cases, inl,
  inr, refl, sym, ◌∙◌, ap,
}
use operational_inbox.Settings.{Settings}
use operational_inbox.Accounts.{is_disabled, Domain}
use operational_inbox.Setup.{
  is_in_progress, Setup, Naming, Transition, RouteKind, DomainTest, has_domain_id,
}
use operational_inbox.Routing.{has_transition_id, is_open_of}
use operational_inbox.Routing.Opening.{
  is_waiting, is_grace, complete_row, record_refresh, refreshed_row,
}
use operational_inbox.Routing.Cutover.{
  is_cutover_ready, finalize, finalize_locked, complete, cut_over, locked_rows, cutover_transition,
}
use operational_inbox.Routing.Transitions.{IsExclusive}
use operational_inbox.Routing.Opened.{written, off_complete, found_again, same_row}

if_IsExclusive :
    (b : Bool) (xs ys : List Transition)
    → (b ≡ true → IsExclusive xs)
    → IsExclusive ys
    → IsExclusive (if b then xs else ys)
if_IsExclusive true xs ys p q = p refl
if_IsExclusive false xs ys p q = q

-- An open row may be written to any status.
open_shut :
    (d : ℕ) (t t' : Transition)
    → t'.domain_id ≡ t.domain_id
    → is_in_progress t.status ≡ true
    → is_open_of d t ≡ false
    → is_open_of d t' ≡ false
open_shut d t t' same running shut = ground arith

complete_rows :
    (transition now : ℕ) (t : Transition) (db : Setup)
    → find (has_transition_id transition) db.transitions ≡ some t
    → (complete transition now db).0.transitions ≡ (
        if is_grace t.status && at_or_before t.grace_until now
        then update_where (has_transition_id t.id) (complete_row now) db.transitions
        else db.transitions)
unfolding complete
complete_rows transition now t db found = ground arith

pub complete-IsExclusive :
    (transition now : ℕ) (db : Setup)
    → IsExclusive db.transitions
    → IsExclusive (complete transition now db).0.transitions
unfolding complete
complete-IsExclusive transition now db ex =
    elim (Option-cases (find (has_transition_id transition) db.transitions)) [
      | inl missing ↦ rw (complete, missing) ex
      | inr (t, found) ↦ subst IsExclusive (sym (complete_rows transition now t db found)) (
          if_IsExclusive (is_grace t.status && at_or_before t.grace_until now) _ db.transitions
            (λ go.
              written t.id (complete_row now) db.transitions (λ x. refl)
                (λ d x here shut. off_complete d now x) ex)
            ex)
    ]

refreshed_same : (r : Bool) (now : ℕ) (t : Transition) → (refreshed_row r now t).id ≡ t.id
refreshed_same true now t = refl
refreshed_same false now t = refl

refreshed_domain :
    (r : Bool) (now : ℕ) (t : Transition) → (refreshed_row r now t).domain_id ≡ t.domain_id
refreshed_domain true now t = refl
refreshed_domain false now t = refl

-- The transition is waiting and its domain is not disabled.
abbrev is_refreshable : Transition → Setup → Bool
is_refreshable t db =
    is_waiting t.status
    && not (any (λ (d : Domain). has_domain_id t.domain_id d && is_disabled d.status) db.domains)

refresh_rows :
    (o r : Bool) (transition now : ℕ) (t : Transition) (db : Setup)
    → find (has_transition_id transition) db.transitions ≡ some t
    → (record_refresh o r transition now db).transitions ≡ (
        if is_refreshable t db
        then update_where (has_transition_id t.id) (refreshed_row r now) db.transitions
        else db.transitions)
unfolding record_refresh
refresh_rows o r transition now t db found = ground arith

waiting_open :
    (t : Transition) (b : Bool) → (is_waiting t.status && b) ≡ true → is_in_progress t.status ≡ true
waiting_open t b e = ground arith

-- A write to a row that is in progress, whatever status it gets.
pub running_written :
    (k : ℕ) (t : Transition) (change : Transition → Transition) (ts : List Transition)
    → find (has_transition_id k) ts ≡ some t
    → is_in_progress t.status ≡ true
    → ((x : Transition) → (change x).id ≡ x.id)
    → ((x : Transition) → (change x).domain_id ≡ x.domain_id)
    → IsExclusive ts
    → IsExclusive (update_where (has_transition_id t.id) change ts)
running_written k t change ts found running same of_d ex =
    written t.id change ts same
      (λ d x here shut.
        open_shut d x (change x) (of_d x)
          (ap (λ y. is_in_progress y.status) (same_row _ x t here (found_again k ts t found))
            ∙ running)
          shut)
      ex

pub refresh-IsExclusive :
    (o r : Bool) (transition now : ℕ) (db : Setup)
    → IsExclusive db.transitions
    → IsExclusive (record_refresh o r transition now db).transitions
unfolding record_refresh
refresh-IsExclusive o r transition now db ex =
    elim (Option-cases (find (has_transition_id transition) db.transitions)) [
      | inl missing ↦ rw (record_refresh, missing) ex
      | inr (t, found) ↦ subst IsExclusive (sym (refresh_rows o r transition now t db found)) (
          if_IsExclusive (is_refreshable t db) _ db.transitions
            (λ go.
              running_written transition t (refreshed_row r now) db.transitions found
                (waiting_open t _ go) (refreshed_same r now) (refreshed_domain r now) ex)
            ex)
    ]

referenced :
    (o : Option ℕ) (ts : List Transition) (t : Transition)
    → find (λ (u : Transition). is_id o u.id) ts ≡ some t
    → is_id o t.id ≡ true
referenced o [] t e = ground arith
referenced o (u ∷ ts) t e = elim (Bool-cases (is_id o u.id)) [
  | inl hit ↦ ground arith
  | inr miss ↦ referenced o ts t (ground arith)
]

found_by_id :
    (k : ℕ) (ts : List Transition) (t : Transition)
    → find (λ (u : Transition). is_id (some k) u.id) ts ≡ some t
    → find (has_transition_id k) ts ≡ some t
found_by_id k [] t e = e
found_by_id k (u ∷ ts) t e = ground (arith, found_by_id k ts t)

found_reference :
    (o : Option ℕ) (ts : List Transition) (t : Transition)
    → find (λ (u : Transition). is_id o u.id) ts ≡ some t
    → find (has_transition_id t.id) ts ≡ some t
found_reference none ts t e = cc (referenced none ts t e)
found_reference (some k) ts t e = found_again k ts t (found_by_id k ts t e)

locked_found :
    (k : ℕ) (db : Setup) (x : DomainTest) (t : Transition) (d : Domain)
    → locked_rows k db ≡ some (x, t, d)
    → find (has_transition_id t.id) db.transitions ≡ some t
unfolding locked_rows
locked_found k db x t d e = found_reference x.routing_transition db.transitions t (ground arith)

ready_running :
    (t : Transition) (x : DomainTest) (d : Domain) (db : Setup)
    → is_cutover_ready t x d db.routes ≡ true
    → is_in_progress t.status ≡ true
ready_running t x d db e = ground arith

finalize_off :
    (s : Settings) (n : Naming) (message message_domain now : ℕ) (arrival : RouteKind)
    (test : DomainTest) (db : Setup)
    → (finalize s n message message_domain now arrival test db).1 ≡ false
    → (finalize s n message message_domain now arrival test db).0 ≡ db
unfolding finalize finalize_locked
finalize_off s n message message_domain now arrival test db off = ground arith

finalize_needs :
    (s : Settings) (n : Naming) (message message_domain now : ℕ) (arrival : RouteKind)
    (test : DomainTest) (db : Setup)
    → locked_rows test.id db ≡ none
    → (finalize s n message message_domain now arrival test db).1 ≡ false
unfolding finalize finalize_locked
finalize_needs s n message message_domain now arrival test db e = ground arith

pub finalize-IsExclusive :
    (s : Settings) (n : Naming) (message message_domain now : ℕ) (arrival : RouteKind)
    (test : DomainTest) (db : Setup)
    → IsExclusive db.transitions
    → IsExclusive (finalize s n message message_domain now arrival test db).0.transitions
unfolding cut_over
finalize-IsExclusive s n message message_domain now arrival test db ex =
    elim (Bool-cases (finalize s n message message_domain now arrival test db).1) [
      | inr off ↦
          subst (λ y. IsExclusive y.transitions)
            (sym (finalize_off s n message message_domain now arrival test db off)) ex
      | inl on ↦ elim (Option-cases (locked_rows test.id db)) [
        | inl missing ↦
            cc (on, finalize_needs s n message message_domain now arrival test db missing)
        | inr ((x, t, d), found) ↦
            let (ready, done) =
              finalized s n message message_domain now arrival test x t d db found on in
            subst (λ y. IsExclusive y.0.transitions) (sym done)
              (running_written t.id t
                (cutover_transition (now + hours s.routing_transition_grace_hours) now)
                db.transitions (locked_found test.id db x t d found) (ready_running t x d db ready)
                (λ y. refl) (λ y. refl) ex)
      ]
    ]
