-- ===== src/Routing/OneTest.antt =====
-- The test of a transition: at most one is pending for its domain.
use operational_inbox.Common.{
  ℕ, Bool, true, some, List, [], ◌∷◌, ◌++◌, ◌&&◌, ◌+◌, ◌≡◌, ◌∙◌, refl, ap, arith, count, find,
  is_none, if◌then◌else◌, ==_refl, Bool-cases, inl, inr,
}
use operational_inbox.Accounts.{Domain}
use operational_inbox.Setup.{Setup, Transition, DomainTest, has_domain_id}
use operational_inbox.Routing.{has_transition_id, is_pending_of}
use operational_inbox.Routing.Probing.{
  is_test_ready, is_current_scope, current_test, look_for_test, new_test, make_test,
}

-- What the search leaves pending.
one_left :
    (fits : DomainTest → Bool) (t : Transition) (d : Domain) (now : ℕ) (tests : List DomainTest)
    → count (is_pending_of d.id) (current_test fits t d now tests).0
      ≡ (if is_none (current_test fits t d now tests).1 then 0 else 1)
unfolding current_test
one_left fits t d now [] = refl
one_left fits t d now (x ∷ xs) =
    let (rest, found) = current_test fits t d now xs in
    elim (Bool-cases (is_pending_of d.id x)) [
      | inr miss ↦ ground (arith, one_left fits t d now xs)
      | inl hit ↦ elim (Bool-cases (is_current_scope fits t d now x && is_none found)) [
        | inl here ↦ ground (arith, one_left fits t d now xs)
        | inr not_here ↦ ground (arith, one_left fits t d now xs)
      ]
    ]

count-append :
    (p : DomainTest → Bool) (x : DomainTest) (xs : List DomainTest)
    → count p (xs ++ x ∷ []) ≡ count p xs + (if p x then 1 else 0)
count-append p x [] = ground arith
count-append p x (y ∷ xs) = ground (arith, count-append p x xs)

new_pending :
    (id now : ℕ) (t : Transition) (d : Domain) → is_pending_of d.id (new_test id now t d) ≡ true
unfolding new_test
new_pending id now t d = ground (arith, ==_refl d.id)

made :
    (fits : DomainTest → Bool) (id transition now : ℕ) (t : Transition) (d : Domain) (db : Setup)
    → find (has_transition_id transition) db.transitions ≡ some t
    → find (has_domain_id t.domain_id) db.domains ≡ some d
    → is_test_ready t d db.routes ≡ true
    → (make_test fits id transition now db).tests ≡ (
        if is_none (current_test fits t d now db.tests).1
        then (current_test fits t d now db.tests).0 ++ new_test id now t d ∷ []
        else (current_test fits t d now db.tests).0)
unfolding make_test look_for_test
made fits id transition now t d db found home ready = ground arith

-- When a transition waits for its test and its target route is there, making the test leaves exactly
-- one pending test of its domain, whatever tests were pending before, of this transition or others.
pub make_leaves_one_test :
    (fits : DomainTest → Bool) (id transition now : ℕ) (t : Transition) (d : Domain) (db : Setup)
    → find (has_transition_id transition) db.transitions ≡ some t
    → find (has_domain_id t.domain_id) db.domains ≡ some d
    → is_test_ready t d db.routes ≡ true
    → count (is_pending_of d.id) (make_test fits id transition now db).tests ≡ 1
make_leaves_one_test fits id transition now t d db found home ready =
    ap (count (is_pending_of d.id)) (made fits id transition now t d db found home ready)
    ∙ ground (
      arith,
      one_left fits t d now db.tests,
      count-append (is_pending_of d.id) (new_test id now t d)
          (current_test fits t d now db.tests).0,
      new_pending id now t d,
    )
