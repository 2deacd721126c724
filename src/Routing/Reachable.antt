-- ===== src/Routing/Reachable.antt =====
-- The cutover keeps a working receiving route.
use operational_inbox.Common.{
  ◌+◌, hours, ap, ◌∙◌, sym, ℕ, Bool, true, false, none, some, List, [], ◌∷◌, ◌==◌, ◌&&◌, not, ◌≡◌,
  arith, find, any, update_where, if◌then◌else◌, is_none, Option-cases, inl, inr, refl,
}
use operational_inbox.Settings.{Settings}
use operational_inbox.Accounts.{Domain}
use operational_inbox.Setup.{Setup, Naming, Transition, Route, RouteKind, DomainTest}
use operational_inbox.Routing.{
  route_kind_for_mode, is_same_time, is_kind, is_route_of, has_transition_id, is_left_behind,
}
use operational_inbox.Routing.Cutover.{
  is_test_route, is_superseded_route, cutover_routes, cut_over, finalize, complete, locked_rows,
  finalize_locked, is_arrived, is_cutover_ready,
}

-- A route of the transition that accepts mail with no end in sight.
abbrev pub is_live : Transition → RouteKind → Route → Bool
is_live t kind r =
    is_route_of t.id r
    && r.is_active
    && r.setup_generation == t.generation
    && is_kind r.kind kind
    && is_none r.grace_until

any-update :
    (p q test : Route → Bool) (change : Route → Route) (rs : List Route)
    → ((r : Route) → p r ≡ true → q (if test r then change r else r) ≡ true)
    → any p rs ≡ true
    → any q (update_where test change rs) ≡ true
any-update p q test change [] keeps h = h
any-update p q test change (r ∷ rs) keeps h =
    ground (arith, keeps r, any-update p q test change rs keeps)

conj_false : (a b c d e : Bool) → e ≡ true → (a && b && c && d && not e) ≡ false
conj_false a b c d e h = ground arith

conj_first : (a b c d : Bool) → (a && b && c && d) ≡ true → a ≡ true
conj_first a b c d h = ground arith

conj_head : (a b c d e : Bool) → (a && b && c && d && e) ≡ true → a ≡ true
conj_head a b c d e h = ground arith

conj_reset : (a b c d : Bool) → (a && b && c && d) ≡ true → (a && true && c && d && true) ≡ true
conj_reset a b c d h = ground arith

if_false : (b : Bool) (x y : Route) → b ≡ false → (if b then x else y) ≡ y
if_false b x y h = ground arith

if_true : (b : Bool) (x y : Route) → b ≡ true → (if b then x else y) ≡ x
if_true b x y h = ground arith

-- A route of the transition itself is never left behind by it.
spared :
    (t u : Transition) (r : Route)
    → u.id ≡ t.id
    → is_route_of t.id r ≡ true
    → is_left_behind u r ≡ false
spared t u r e own =
    conj_false (r.domain_id == u.domain_id) r.is_active
      (is_kind r.kind (route_kind_for_mode u.from_mode)) (is_same_time r.grace_until u.grace_until)
      (is_route_of u.id r) (ap (λ k. is_route_of k r) e ∙ own)

not_superseded :
    (t : Transition) (d : Domain) (r : Route)
    → is_route_of t.id r ≡ true
    → is_superseded_route t d r ≡ false
not_superseded t d r own =
    conj_false (r.domain_id == d.id) r.is_active (is_kind r.kind (route_kind_for_mode t.from_mode))
      (r.setup_generation == d.inbound_setup_generation) (is_route_of t.id r) own

live_own :
    (t : Transition) (k : RouteKind) (r : Route) → is_live t k r ≡ true → is_route_of t.id r ≡ true
live_own t k r h =
    conj_head (is_route_of t.id r) r.is_active (r.setup_generation == t.generation)
      (is_kind r.kind k) (is_none r.grace_until) h

test_own :
    (t : Transition) (x : DomainTest) (r : Route)
    → is_test_route t x r ≡ true
    → is_route_of t.id r ≡ true
test_own t x r h =
    conj_first (is_route_of t.id r) r.is_active (r.setup_generation == t.generation)
      (is_kind r.kind x.expected_route_kind) h

left_live :
    (t u : Transition) (k : RouteKind) (routes : List Route)
    → u.id ≡ t.id
    → any (is_live t k) routes ≡ true
    → any
        (is_live t k)
        (update_where (is_left_behind u) (λ r. record r { is_active = false }) routes)
      ≡ true
left_live t u k routes e h =
    any-update (is_live t k) (is_live t k) (is_left_behind u) (λ r. record r { is_active = false })
      routes
      (λ r live.
        ap (is_live t k) (
          if_false (is_left_behind u r) (record r { is_active = false }) r
            (spared t u r e (live_own t k r live)))
        ∙ live)
      h

cutover_live :
    (until : ℕ) (t : Transition) (x : DomainTest) (d : Domain) (routes : List Route)
    → any (is_test_route t x) routes ≡ true
    → any (is_live t x.expected_route_kind) (cutover_routes until t d routes) ≡ true
unfolding cutover_routes
cutover_live until t x d routes h =
    any-update (is_test_route t x) (is_live t x.expected_route_kind) (is_route_of t.id)
      (λ r. record r { grace_until = none; is_active = true })
      (update_where (is_superseded_route t d) (λ r. record r { grace_until = some until }) routes)
      (λ r ready.
        ap (is_live t x.expected_route_kind) (
          if_true (is_route_of t.id r) (record r { grace_until = none; is_active = true }) r
            (test_own t x r ready))
        ∙ conj_reset (is_route_of t.id r) r.is_active (r.setup_generation == t.generation)
            (is_kind r.kind x.expected_route_kind) ready)
      (any-update (is_test_route t x) (is_test_route t x) (is_superseded_route t d)
        (λ r. record r { grace_until = some until }) routes
        (λ r ready.
          ap (is_test_route t x) (
            if_false (is_superseded_route t d r) (record r { grace_until = some until }) r
              (not_superseded t d r (test_own t x r ready)))
          ∙ ready)
        h)

pub find_passes :
    (k : ℕ) (ts : List Transition) (u : Transition)
    → find (has_transition_id k) ts ≡ some u
    → u.id ≡ k
find_passes k [] u e = ground arith
find_passes k (t ∷ ts) u e = ground (arith, find_passes k ts u)

complete_live :
    (t : Transition) (k : RouteKind) (now : ℕ) (db : Setup)
    → any (is_live t k) db.routes ≡ true
    → any (is_live t k) (complete t.id now db).0.routes ≡ true
unfolding complete
complete_live t k now db live = elim (Option-cases (find (has_transition_id t.id) db.transitions)) [
  | inl e ↦ ground arith
  | inr (u, e) ↦
      ground (arith, left_live t u k db.routes (find_passes t.id db.transitions u e) live)
]

ready_routes :
    (t : Transition) (x : DomainTest) (d : Domain) (routes : List Route)
    → is_cutover_ready t x d routes ≡ true
    → any (is_test_route t x) routes ≡ true
ready_routes t x d routes h = ground arith

cut_over_live :
    (s : Settings) (n : Naming) (message now : ℕ) (x : DomainTest) (t : Transition) (d : Domain)
    (db : Setup)
    → any (is_test_route t x) db.routes ≡ true
    → any (is_live t x.expected_route_kind) (cut_over s n message now x t d db).routes ≡ true
unfolding cut_over
cut_over_live s n message now x t d db h =
    cutover_live (now + hours s.routing_transition_grace_hours) t x d db.routes h

conj_both :
    (a b : Bool) (x y : Setup × Bool)
    → y.1 ≡ false
    → (if a && b then x else y).1 ≡ true
    → (b ≡ true) × ((if a && b then x else y) ≡ x)
conj_both a b x y h e = ground arith

if_not :
    (a : Bool) (x y : Setup × Bool)
    → x.1 ≡ false
    → (if not a then x else y).1 ≡ true
    → (if not a then x else y) ≡ y
if_not a x y h e = ground arith

finalize_found :
    (s : Settings) (n : Naming) (message message_domain now : ℕ) (arrival : RouteKind)
    (test x : DomainTest) (t : Transition) (d : Domain) (db : Setup)
    → locked_rows test.id db ≡ some (x, t, d)
    → finalize_locked s n message message_domain now arrival test db ≡ (
        if is_arrived message_domain now arrival x && is_cutover_ready t x d db.routes
        then (cut_over s n message now x t d db, true)
        else (db, false))
unfolding finalize_locked
finalize_found s n message message_domain now arrival test x t d db e = rw (finalize_locked, e) refl

pub finalized :
    (s : Settings) (n : Naming) (message message_domain now : ℕ) (arrival : RouteKind)
    (test x : DomainTest) (t : Transition) (d : Domain) (db : Setup)
    → locked_rows test.id db ≡ some (x, t, d)
    → (finalize s n message message_domain now arrival test db).1 ≡ true
    → (is_cutover_ready t x d db.routes ≡ true)
      × (finalize s n message message_domain now arrival test db
          ≡ (cut_over s n message now x t d db, true))
unfolding finalize
finalized s n message message_domain now arrival test x t d db e h =
    let arrived =
      if_not (is_kind arrival test.expected_route_kind) (db, false)
        (finalize_locked s n message message_domain now arrival test db) refl h in
    let found = finalize_found s n message message_domain now arrival test x t d db e in
    let both =
      conj_both (is_arrived message_domain now arrival x) (is_cutover_ready t x d db.routes)
        (cut_over s n message now x t d db, true) (db, false) refl
        (sym (ap (λ r. r.1) (arrived ∙ found)) ∙ h) in
    (both.0, arrived ∙ found ∙ both.1)

-- When an arriving test, found with its transition and its domain, cuts the domain over, the
-- transition keeps a route that is active, of the
-- transition's generation, of the kind that the test expects and without an end, at once and after
-- the grace period of that transition is completed at any later time.
pub cutover_stays_reachable :
    (s : Settings) (n : Naming) (message message_domain now later : ℕ) (arrival : RouteKind)
    (test x : DomainTest) (t : Transition) (d : Domain) (db : Setup)
    → locked_rows test.id db ≡ some (x, t, d)
    → (finalize s n message message_domain now arrival test db).1 ≡ true
    → (any
          (is_live t x.expected_route_kind)
          (finalize s n message message_domain now arrival test db).0.routes
        ≡ true)
      × (any
            (is_live t x.expected_route_kind)
            (complete t.id later
              (finalize s n message message_domain now arrival test db).0).0.routes
          ≡ true)
cutover_stays_reachable s n message message_domain now later arrival test x t d db e h =
    let (ready, done) = finalized s n message message_domain now arrival test x t d db e h in
    let live =
      ap (λ r. any (is_live t x.expected_route_kind) r.0.routes) done
      ∙ cut_over_live s n message now x t d db (ready_routes t x d db.routes ready) in
    (
      live,
      complete_live t x.expected_route_kind later
          (finalize s n message message_domain now arrival test db).0 live,
    )
