-- ===== src/Routing/Preparing.antt =====
-- The locked part of `provision_routing_transition` (inbox/services/routing_transitions.py) and
-- `_upsert_dns_instruction` (inbox/services/domains.py). What was found of the SES identity before is
-- an argument; the SES columns of the domain and the observed values of a record are left out.
use Prim.Native.String.{◌++◌ as str_append}
use text.Mathlib.Text.{◌==◌ as str_eq}
use operational_inbox.Common.{
  ℕ, Bool, true, false, Option, none, some, String, List, [], ◌∷◌, ◌++◌, ◌==◌, ◌&&◌, ◌||◌, not, any,
  find, update_where, if◌then◌else◌,
}
use operational_inbox.Accounts.{Domain, is_disabled}
use operational_inbox.Setup.{
  Setup, Transition, TransitionStatus, DnsRecord, DnsPurpose, DnsStatus, has_domain_id,
}
use operational_inbox.Routing.{has_transition_id}
use operational_inbox.Routing.Opening.{is_direct}

abbrev pub purpose_index : DnsPurpose → ℕ
purpose_index DnsPurpose.ownership = 0
purpose_index DnsPurpose.ses_verification = 1
purpose_index DnsPurpose.mx = 2
purpose_index DnsPurpose.dkim = 3
purpose_index DnsPurpose.spf = 4
purpose_index DnsPurpose.dmarc = 5

abbrev pub is_same_priority : Option ℕ → Option ℕ → Bool
is_same_priority none none = true
is_same_priority (some a) (some b) = a == b
is_same_priority _ _ = false

-- The unique columns of an instruction.
abbrev pub is_same_instruction : DnsRecord → DnsRecord → Bool
is_same_instruction new r =
    r.domain_id == new.domain_id
    && purpose_index r.purpose == purpose_index new.purpose
    && str_eq r.record_type new.record_type
    && str_eq r.name new.name

-- A changed instruction is checked anew.
unfoldable pub updated_record : DnsRecord → DnsRecord → DnsRecord
updated_record new r =
    if str_eq r.value new.value
      && is_same_priority r.priority new.priority
      && (if r.is_required then new.is_required else not new.is_required)
    then r
    else record r {
      value = new.value;
      priority = new.priority;
      is_required = new.is_required;
      status = DnsStatus.pending;
    }

-- `_upsert_dns_instruction`
unfoldable pub upsert_dns_instruction : DnsRecord → List DnsRecord → List DnsRecord
upsert_dns_instruction new records =
    if any (is_same_instruction new) records
    then update_where (is_same_instruction new) (updated_record new) records
    else records ++ new ∷ []

-- `expected_inbound_mx_exchange`
abbrev pub expected_inbound_mx_exchange : (region : String) → String
expected_inbound_mx_exchange region =
    str_append "inbound-smtp." (str_append region ".amazonaws.com")

-- `application_ownership_record_name`
abbrev pub application_ownership_record_name : Domain → String
application_ownership_record_name d = str_append "_operational-inbox-claim." d.hostname

abbrev pub ownership_instruction : Domain → (token : String) → DnsRecord
ownership_instruction d token = record {
  domain_id = d.id;
  purpose = DnsPurpose.ownership;
  record_type = "TXT";
  name = application_ownership_record_name d;
  value = token;
  priority = none;
  is_required = true;
  status = DnsStatus.pending;
}

abbrev pub verification_instruction : Domain → (token : String) → DnsRecord
verification_instruction d token = record {
  domain_id = d.id;
  purpose = DnsPurpose.ses_verification;
  record_type = "TXT";
  name = str_append "_amazonses." d.hostname;
  value = token;
  priority = none;
  is_required = is_direct d.setup_mode;
  status = DnsStatus.pending;
}

abbrev pub mx_instruction : Domain → (region : String) → DnsRecord
mx_instruction d region = record {
  domain_id = d.id;
  purpose = DnsPurpose.mx;
  record_type = "MX";
  name = d.hostname;
  value = expected_inbound_mx_exchange region;
  priority = some 10;
  is_required = is_direct d.setup_mode;
  status = DnsStatus.pending;
}

-- The instructions of the transition's target.
unfoldable pub target_instructions :
    (region ownership_token verification_token : String)
    → Transition
    → Domain
    → List DnsRecord
    → List DnsRecord
target_instructions region ownership_token verification_token t d records =
    let owned = upsert_dns_instruction (ownership_instruction d ownership_token) records in
    let verified =
      if str_eq verification_token ""
      then owned
      else upsert_dns_instruction (verification_instruction d verification_token) owned in
    if is_direct t.to_mode then upsert_dns_instruction (mx_instruction d region) verified else owned

abbrev pub is_provisionable : TransitionStatus → Bool
is_provisionable TransitionStatus.preparing = true
is_provisionable TransitionStatus.failed = true
is_provisionable _ = false

abbrev pub provisioned_row : Transition → Transition
provisioned_row t = record t {
  status = TransitionStatus.waiting_dns;
  error_code = "";
  error_message = "";
}

-- The locked part of `provision_routing_transition`; a missing row raises and writes nothing.
unfoldable pub record_provisioned :
    (region ownership_token verification_token : String) (transition : ℕ) → Setup → Setup
record_provisioned region ownership_token verification_token transition db =
    elim (find (has_transition_id transition) db.transitions) [
      | none ↦ db
      | some t ↦ elim (find (has_domain_id t.domain_id) db.domains) [
        | none ↦ db
        | some d ↦
            if not (is_provisionable t.status) || is_disabled d.status then db else record db {
              dns_records =
                  target_instructions region ownership_token verification_token t d db.dns_records;
              transitions = update_where (has_transition_id t.id) provisioned_row db.transitions;
            }
      ]
    ]
