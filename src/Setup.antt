-- ===== src/Setup.antt =====
-- The tables that setting up, routing and disabling domains read and write (inbox/models.py):
-- `class InboundRoutingTransition`, `class InboundRoute` and `class DomainTest` beside the domains,
-- the billing profiles and the jobs.
use operational_inbox.Common.{ℕ, Bool, true, false, Option, String, List, [], ◌∷◌, ◌++◌, ◌==◌}
use operational_inbox.Accounts.{Domain, SetupMode, DomainStatus, BillingProfile}
use operational_inbox.Jobs.{Job, new_job, enqueue_job}

pub data TransitionStatus : Type 0 where
  preparing waiting_dns waiting_test grace complete failed cancelled : TransitionStatus

pub record Transition : Type 0 where
  pub id : ℕ
  pub domain_id : ℕ
  pub generation : ℕ
  pub from_mode : SetupMode
  pub to_mode : SetupMode
  pub from_domain_status : DomainStatus
  pub status : TransitionStatus
  pub dns_verified_at : Option ℕ
  pub test_received_at : Option ℕ
  pub cutover_at : Option ℕ
  pub grace_until : Option ℕ
  pub cancelled_at : Option ℕ
  pub completed_at : Option ℕ
  pub error_code : String
  pub error_message : String

pub data RouteKind : Type 0 where
  direct_domain forwarding_alias test_delivery : RouteKind

pub record Route : Type 0 where
  pub id : ℕ
  pub domain_id : ℕ
  pub routing_transition : Option ℕ
  pub setup_generation : ℕ
  pub kind : RouteKind
  pub is_active : Bool
  pub grace_until : Option ℕ

pub data TestStatus : Type 0 where
  pending received expired : TestStatus

pub record DomainTest : Type 0 where
  pub id : ℕ
  pub domain_id : ℕ
  pub routing_transition : Option ℕ
  pub setup_generation : ℕ
  pub expected_setup_mode : SetupMode
  pub expected_route_kind : RouteKind
  pub status : TestStatus
  pub expires_at : ℕ
  pub received_message : Option ℕ

-- `class DomainDNSRecord`, by what the routing services read and write of it.
pub data DnsPurpose : Type 0 where
  ownership ses_verification mx dkim spf dmarc : DnsPurpose

pub data DnsStatus : Type 0 where
  pending valid invalid missing : DnsStatus

pub record DnsRecord : Type 0 where
  pub domain_id : ℕ
  pub purpose : DnsPurpose
  pub record_type : String
  pub name : String
  pub value : String
  pub priority : Option ℕ
  pub is_required : Bool
  pub status : DnsStatus

-- The kinds of the audit rows and of the jobs, by the texts that the source writes.
pub data SetupEvent : Type 0 where
  disabled_after_capacity_grace : SetupEvent
  receiving_route_cutover : SetupEvent
  receiving_route_transition_completed : SetupEvent
  receiving_route_grace_ended_for_reverse : SetupEvent

pub record SetupAudit : Type 0 where
  pub domain_id : ℕ
  pub object_id : ℕ
  pub event : SetupEvent

pub record Setup : Type 0 where
  pub profiles : List BillingProfile
  pub domains : List Domain
  pub transitions : List Transition
  pub routes : List Route
  pub tests : List DomainTest
  pub dns_records : List DnsRecord
  pub jobs : List Job
  pub audit : List SetupAudit

-- What a job is for. With an ID it gives the idempotency key.
pub data JobPurpose : Type 0 where
  capacity_disable transition_provision transition_cancel transition_complete resume_provision :
      JobPurpose

-- The texts of the keys and kinds and the drawing of new IDs, as numbers.
pub record Naming : Type 0 where
  pub key : JobPurpose → ℕ → ℕ
  pub kind : JobPurpose → ℕ
  pub new_job_id : List Job → ℕ

-- `DurableJob.objects.get_or_create(idempotency_key=…)`
abbrev pub enqueue : Naming → JobPurpose → (object_id due_at now : ℕ) → Option ℕ → Setup → Setup
enqueue n p object_id due_at now domain s = record s {
  jobs =
      (enqueue_job
        (new_job (n.new_job_id s.jobs) (n.kind p) (n.key p object_id) object_id due_at now domain)
        s.jobs).0;
}

abbrev pub log_setup : SetupAudit → Setup → Setup
log_setup e s = record s { audit = s.audit ++ e ∷ [] }

-- `active_routing_transition`: the statuses that count as a transition in progress.
abbrev pub is_in_progress : TransitionStatus → Bool
is_in_progress preparing = true
is_in_progress waiting_dns = true
is_in_progress waiting_test = true
is_in_progress grace = true
is_in_progress TransitionStatus.failed = true
is_in_progress _ = false

abbrev pub is_pending_test : TestStatus → Bool
is_pending_test TestStatus.pending = true
is_pending_test _ = false

abbrev pub has_domain_id : ℕ → Domain → Bool
has_domain_id k d = d.id == k
