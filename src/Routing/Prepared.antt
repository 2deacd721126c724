-- ===== src/Routing/Prepared.antt =====
-- Provisioning a transition and making its test keep the table of transitions exclusive.
use operational_inbox.Common.{
  ℕ, Bool, true, false, none, some, String, List, ◌||◌, not, ◌≡◌, refl, sym, subst, arith, find,
  update_where, if◌then◌else◌, Option-cases, inl, inr,
}
use operational_inbox.Accounts.{Domain, is_disabled}
use operational_inbox.Setup.{Setup, Transition, DomainTest, has_domain_id, is_in_progress}
use operational_inbox.Routing.{has_transition_id}
use operational_inbox.Routing.Preparing.{is_provisionable, provisioned_row, record_provisioned}
use operational_inbox.Routing.Probing.{look_for_test, expire_tests, make_test}
use operational_inbox.Routing.Transitions.{IsExclusive}
use operational_inbox.Routing.Settled.{running_written}

provision_rows :
    (region token verification : String) (transition : ℕ) (t : Transition) (d : Domain) (db : Setup)
    → find (has_transition_id transition) db.transitions ≡ some t
    → find (has_domain_id t.domain_id) db.domains ≡ some d
    → (record_provisioned region token verification transition db).transitions ≡ (
        if not (is_provisionable t.status) || is_disabled d.status
        then db.transitions
        else update_where (has_transition_id t.id) provisioned_row db.transitions)
unfolding record_provisioned
provision_rows region token verification transition t d db found home = ground arith

no_domain :
    (region token verification : String) (transition : ℕ) (t : Transition) (db : Setup)
    → find (has_transition_id transition) db.transitions ≡ some t
    → find (has_domain_id t.domain_id) db.domains ≡ none
    → record_provisioned region token verification transition db ≡ db
unfolding record_provisioned
no_domain region token verification transition t db found gone = ground arith

no_transition :
    (region token verification : String) (transition : ℕ) (db : Setup)
    → find (has_transition_id transition) db.transitions ≡ none
    → record_provisioned region token verification transition db ≡ db
unfolding record_provisioned
no_transition region token verification transition db gone = ground arith

either_IsExclusive :
    (b : Bool) (xs ys : List Transition)
    → IsExclusive xs
    → (b ≡ false → IsExclusive ys)
    → IsExclusive (if b then xs else ys)
either_IsExclusive true xs ys p q = p
either_IsExclusive false xs ys p q = q refl

provisionable_running :
    (t : Transition) (b : Bool)
    → (not (is_provisionable t.status) || b) ≡ false
    → is_in_progress t.status ≡ true
provisionable_running t b e = ground arith

pub provision-IsExclusive :
    (region token verification : String) (transition : ℕ) (db : Setup)
    → IsExclusive db.transitions
    → IsExclusive (record_provisioned region token verification transition db).transitions
provision-IsExclusive region token verification transition db ex =
    elim (Option-cases (find (has_transition_id transition) db.transitions)) [
      | inl gone ↦
          subst (λ x. IsExclusive x.transitions)
            (sym (no_transition region token verification transition db gone)) ex
      | inr (t, found) ↦ elim (Option-cases (find (has_domain_id t.domain_id) db.domains)) [
        | inl gone ↦
            subst (λ x. IsExclusive x.transitions)
              (sym (no_domain region token verification transition t db found gone)) ex
        | inr (d, home) ↦
            subst IsExclusive
              (sym (provision_rows region token verification transition t d db found home))
              (either_IsExclusive (not (is_provisionable t.status) || is_disabled d.status)
                db.transitions _ ex
                (λ go.
                  running_written transition t provisioned_row db.transitions found
                    (provisionable_running t _ go) (λ x. refl) (λ x. refl) ex))
      ]
    ]

pub expire_tests-transitions :
    (fits : DomainTest → Bool) (transition now : ℕ) (db : Setup)
    → (expire_tests fits transition now db).transitions ≡ db.transitions
unfolding expire_tests look_for_test
expire_tests-transitions fits transition now db = ground arith

pub make_test-transitions :
    (fits : DomainTest → Bool) (id transition now : ℕ) (db : Setup)
    → (make_test fits id transition now db).transitions ≡ db.transitions
unfolding make_test look_for_test
make_test-transitions fits id transition now db = ground arith
