-- ===== src/Routing/Steps.antt =====
-- The writes of the routing service as a step relation on the tables.
use operational_inbox.Common.{ℕ, Bool, String, some, ◌≡◌, IsFresh}
use operational_inbox.Settings.{Settings}
use operational_inbox.Accounts.{SetupMode}
use operational_inbox.Setup.{Setup, Naming, Transition, RouteKind, DomainTest}
use operational_inbox.Routing.Opening.{
  begin_transition, begun, cancel_transition, closed, record_refresh,
}
use operational_inbox.Routing.Preparing.{record_provisioned}
use operational_inbox.Routing.Probing.{expire_tests, make_test}
use operational_inbox.Routing.Cutover.{finalize, complete}
use operational_inbox.Routing.Transitions.{transition_id}

-- One transaction of the routing service, each function's in turn. A refused call writes nothing.
pub data Step (s : Settings) (n : Naming) : Setup → Setup → Type 0 where
  begin :
      {db db' : Setup} (id route_id now domain : ℕ) (target : SetupMode) (t : Transition)
      → IsFresh transition_id id db.transitions
      → begin_transition n id route_id now domain target db ≡ some (begun t db')
      → Step s n db db'
  cancel :
      {db db' : Setup} (transition now : ℕ)
      → cancel_transition n transition now db ≡ some (closed db')
      → Step s n db db'
  refresh :
      {db : Setup} (ownership_valid target_ready : Bool) (transition now : ℕ)
      → Step s n db (record_refresh ownership_valid target_ready transition now db)
  -- The SES probe and the ownership token are found before the transaction.
  provision :
      {db : Setup} (region ownership_token verification_token : String) (transition : ℕ)
      → Step s n db (record_provisioned region ownership_token verification_token transition db)
  look :
      {db : Setup} (address_matches : DomainTest → Bool) (transition now : ℕ)
      → Step s n db (expire_tests address_matches transition now db)
  make :
      {db : Setup} (address_matches : DomainTest → Bool) (id transition now : ℕ)
      → Step s n db (make_test address_matches id transition now db)
  finish_test :
      {db : Setup} (message message_domain now : ℕ) (arrival : RouteKind) (test : DomainTest)
      → Step s n db (finalize s n message message_domain now arrival test db).0
  expire_grace : {db : Setup} (transition now : ℕ) → Step s n db (complete transition now db).0

pub data Reach (s : Settings) (n : Naming) : Setup → Setup → Type 0 where
  stop : {db : Setup} → Reach s n db db
  go : {db db' db'' : Setup} → Step s n db db' → Reach s n db' db'' → Reach s n db db''
