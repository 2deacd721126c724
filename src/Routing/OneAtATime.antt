-- ===== src/Routing/OneAtATime.antt =====
-- At most one receiving-route transition of a domain is in progress.
use operational_inbox.Common.{sym, subst}
use operational_inbox.Settings.{Settings}
use operational_inbox.Setup.{Setup, Naming}
use operational_inbox.Routing.Transitions.{IsExclusive}
use operational_inbox.Routing.Steps.{
  Step, begin, cancel, refresh, provision, look, make, finish_test, expire_grace, Reach, stop, go,
}
use operational_inbox.Routing.Opened.{begin-IsExclusive, cancel-IsExclusive}
use operational_inbox.Routing.Settled.{
  complete-IsExclusive, refresh-IsExclusive, finalize-IsExclusive,
}
use operational_inbox.Routing.Prepared.{
  provision-IsExclusive, expire_tests-transitions, make_test-transitions,
}

Step-IsExclusive :
    (s : Settings) (n : Naming) (db db' : Setup)
    → Step s n db db'
    → IsExclusive db.transitions
    → IsExclusive db'.transitions
Step-IsExclusive s n db db' (begin id route_id now domain target t f e) ex =
    begin-IsExclusive n id route_id now domain target t db db' f e ex
Step-IsExclusive s n db db' (cancel transition now e) ex =
    cancel-IsExclusive n transition now db db' e ex
Step-IsExclusive s n db db' (refresh o r transition now) ex =
    refresh-IsExclusive o r transition now db ex
Step-IsExclusive s n db db' (provision region token verification transition) ex =
    provision-IsExclusive region token verification transition db ex
Step-IsExclusive s n db db' (look fits transition now) ex =
    subst IsExclusive (sym (expire_tests-transitions fits transition now db)) ex
Step-IsExclusive s n db db' (make fits id transition now) ex =
    subst IsExclusive (sym (make_test-transitions fits id transition now db)) ex
Step-IsExclusive s n db db' (finish_test message message_domain now arrival test) ex =
    finalize-IsExclusive s n message message_domain now arrival test db ex
Step-IsExclusive s n db db' (expire_grace transition now) ex =
    complete-IsExclusive transition now db ex

-- From tables in which the transitions' IDs are distinct and no domain has two transitions in
-- progress, every sequence of the routing service's transactions leads to such tables again: those that
-- begin, provision, refresh, cancel, cut over and complete a transition, and those that expire and
-- make its test.
pub one_transition_at_a_time :
    (s : Settings) (n : Naming) (db db' : Setup)
    → Reach s n db db'
    → IsExclusive db.transitions
    → IsExclusive db'.transitions
one_transition_at_a_time s n db _ stop ex = ex
one_transition_at_a_time s n db db'' (go step rest) ex =
    one_transition_at_a_time s n _ db'' rest (Step-IsExclusive s n db _ step ex)
