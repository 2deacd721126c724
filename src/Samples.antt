-- ===== src/Samples.antt =====
-- Concrete rows that the tests share.
use operational_inbox.Common.{◌+◌, ◌*◌, ℕ, true, false, none, some, [], ◌∷◌}
use operational_inbox.Accounts.{Domain, SetupMode, DomainStatus, OutboundStatus, User}
use operational_inbox.Outbound.Message.{OutboundMessage, queued, owner_approval, OutboundControl}
use operational_inbox.Jobs.{Job, new_job}
use operational_inbox.Setup.{Setup, Naming, JobPurpose}

abbrev pub sample_user : User
sample_user = record { id = 1; is_authenticated = true; is_active = true }

-- A forwarding domain of user 1 that is in use.
abbrev pub sample_domain : (id created_at : ℕ) → Domain
sample_domain id created_at = record {
  id = id;
  owner_id = 1;
  hostname = "example.org";
  receiving_enabled = true;
  sending_requested = true;
  setup_mode = SetupMode.provider_forward;
  inbound_setup_generation = 1;
  status = DomainStatus.ready;
  ownership_verified = true;
  inbound_ready = true;
  outbound_ready = true;
  outbound_status = OutboundStatus.ready;
  verified_at = some 5;
  last_checked_at = some 5;
  error_code = "";
  error_message = "";
  outbound_error_code = "";
  outbound_error_message = "";
  created_at = created_at;
}

-- A queued message from domain 3.
abbrev pub sample_message : (id created_at : ℕ) → OutboundMessage
sample_message id created_at = record {
  id = id;
  domain_id = 3;
  conversation_id = 4;
  revision_id = 6;
  agent_run = none;
  parent = none;
  attempt_number = 1;
  idempotency_key = none;
  authorization_mode = owner_approval;
  status = queued;
  from_address = "reply@example.org";
  to_address = "ada@example.com";
  subject = "Re: hello";
  body_text = "Hello.";
  content_hash = 99;
  rfc_message_id = "<7@operationalinbox.com>";
  provider_message_id = "";
  accepted_at = none;
  delivered_at = none;
  failed_at = none;
  error_code = "";
  error_message = "";
  created_at = created_at;
  updated_at = created_at;
}

abbrev pub sample_control : OutboundControl
sample_control = record { user_id = 1; is_paused = false; paused_at = none }

abbrev pub sample_job : (id key : ℕ) → Job
sample_job id key = new_job id 2 key 7 100 100 (some 3)

abbrev pub purpose_number : JobPurpose → ℕ
purpose_number JobPurpose.capacity_disable = 1
purpose_number JobPurpose.transition_provision = 2
purpose_number JobPurpose.transition_cancel = 3
purpose_number JobPurpose.transition_complete = 4
purpose_number JobPurpose.resume_provision = 5

abbrev pub sample_naming : Naming
sample_naming = record {
  key = λ p k. 10 * k + purpose_number p;
  kind = purpose_number;
  new_job_id = λ jobs. 500;
}

-- Two domains of user 1 and nothing else.
abbrev pub sample_setup : Setup
sample_setup = record {
  profiles = [];
  domains = sample_domain 3 10 ∷ sample_domain 8 20 ∷ [];
  transitions = [];
  routes = [];
  tests = [];
  dns_records = [];
  jobs = [];
  audit = [];
}
