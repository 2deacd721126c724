-- ===== src/Handling/Policies.antt =====
-- The stored policies of inbox/services/handling_policy.py and `class HandlingPolicy` of
-- inbox/models.py: their validation, the policy that counts for a domain, and what saving one does to
-- the conversations that the agent handles. Tags are numbers, so that each is valid.
use operational_inbox.Common.{
  ℕ, Bool, true, false, Option, none, some, String, List, [], ◌∷◌, ◌++◌, ◌==◌, ◌&&◌, ◌+◌, not, leb,
  all, any, find, length, is_id, is_none, update_where, if◌then◌else◌, char_count,
}
use operational_inbox.Handling.States.{HandlingState, HandlingStatus}
use operational_inbox.Handling.Policy.{Rule, Mode, auto_handle, off}

-- The mode of a row; a domain's row may stand back behind the account's.
pub data StoredMode : Type 0 where
  own : Mode → StoredMode
  inherit : StoredMode

pub record HandlingPolicy : Type 0 where
  pub id : ℕ
  pub owner_id : ℕ
  pub domain_id : Option ℕ
  pub mode : StoredMode
  pub knowledge : String
  pub rules : List Rule
  pub followup_enabled : Bool
  pub followup_hours : ℕ
  pub enabled_at : ℕ
  pub version : ℕ

abbrev pub is_inherit : StoredMode → Bool
is_inherit inherit = true
is_inherit _ = false

abbrev pub is_mode_off : StoredMode → Bool
is_mode_off (own off) = true
is_mode_off _ = false

-- `validate_rules`, on rules whose fields have their types.
unfoldable pub is_valid_rule : Rule → Bool
is_valid_rule r =
    elim r.name [ none ↦ true | some name ↦ leb (char_count name) 80 ]
    && leb (length r.types) 20
    && leb (length r.risks) 20
    && leb (length r.tags) 20
    && leb (length r.add_tags) 20

unfoldable pub are_valid_rules : List Rule → Bool
are_valid_rules rules = leb (length rules) 30 && all is_valid_rule rules

abbrev pub has_policy_id : ℕ → HandlingPolicy → Bool
has_policy_id k p = p.id == k

abbrev pub is_account_policy : (owner : ℕ) → HandlingPolicy → Bool
is_account_policy owner p = p.owner_id == owner && is_none p.domain_id

abbrev pub is_domain_policy : (owner domain : ℕ) → HandlingPolicy → Bool
is_domain_policy owner domain p = p.owner_id == owner && is_id p.domain_id domain

-- Another row for the same account or the same domain.
abbrev pub is_rival : HandlingPolicy → HandlingPolicy → Bool
is_rival p q =
    not (q.id == p.id)
    && elim p.domain_id [ none ↦ is_account_policy p.owner_id q | some d ↦ is_id q.domain_id d ]

-- `full_clean`, for the owner of each domain.
unfoldable pub is_valid_policy : (owner_of : ℕ → ℕ) → List HandlingPolicy → HandlingPolicy → Bool
is_valid_policy owner_of policies p =
    are_valid_rules p.rules
    && elim p.domain_id [ none ↦ true | some d ↦ owner_of d == p.owner_id ]
    && not (is_none p.domain_id && is_inherit p.mode)
    && leb 1 p.followup_hours
    && leb p.followup_hours 720
    && leb (char_count p.knowledge) 20000
    && not (any (is_rival p) policies)

-- The defaults of a row.
abbrev pub new_policy : (id owner joined_at : ℕ) → HandlingPolicy
new_policy id owner joined_at = record {
  id = id;
  owner_id = owner;
  domain_id = none;
  mode = own auto_handle;
  knowledge = "";
  rules = [];
  followup_enabled = true;
  followup_hours = 72;
  enabled_at = joined_at;
  version = 1;
}

-- `account_policy`, for the fresh ID of a missing row.
unfoldable pub account_policy :
    (id owner joined_at : ℕ) → List HandlingPolicy → List HandlingPolicy × HandlingPolicy
account_policy id owner joined_at policies = elim (find (is_account_policy owner) policies) [
  | some p ↦ (policies, p)
  | none ↦ let p = new_policy id owner joined_at in (policies ++ p ∷ [], p)
]

pub record Effective : Type 0 where
  pub mode : StoredMode
  pub knowledge : String
  pub rules : List Rule
  pub followup_enabled : Bool
  pub followup_hours : ℕ
  pub versions : List (ℕ × ℕ)
  pub enabled_at : ℕ

abbrev pub version_of : HandlingPolicy → ℕ × ℕ
version_of p = (p.id, p.version)

-- A domain's row under the account's.
unfoldable pub combine : Option HandlingPolicy → (account : HandlingPolicy) → Effective
combine none account = record {
  mode = account.mode;
  knowledge = "";
  rules = account.rules;
  followup_enabled = account.followup_enabled;
  followup_hours = account.followup_hours;
  versions = version_of account ∷ [];
  enabled_at = account.enabled_at;
}
combine (some o) account =
    let selected = if is_inherit o.mode then account else o in
    record {
      mode = selected.mode;
      knowledge = o.knowledge;
      rules = o.rules ++ account.rules;
      followup_enabled = selected.followup_enabled;
      followup_hours = selected.followup_hours;
      versions = version_of o ∷ version_of account ∷ [];
      enabled_at = selected.enabled_at;
    }

-- `effective_policy`, without its fingerprint; the account's row is made where it is missing.
unfoldable pub effective_policy :
    (id owner domain joined_at : ℕ) → List HandlingPolicy → List HandlingPolicy × Effective
effective_policy id owner domain joined_at policies =
    let (policies', account) = account_policy id owner joined_at policies in
    (policies', combine (find (is_domain_policy owner domain) policies') account)

pub record PolicyBook : Type 0 where
  pub policies : List HandlingPolicy
  pub states : List HandlingState

abbrev pub is_done : HandlingStatus → Bool
is_done HandlingStatus.done = true
is_done _ = false

-- The conversations that a policy reaches, for the owner of each domain and each conversation's domain.
unfoldable pub is_covered_by : (owner_of domain_of : ℕ → ℕ) → HandlingPolicy → HandlingState → Bool
is_covered_by owner_of domain_of p s =
    owner_of (domain_of s.conversation_id) == p.owner_id
    && not s.taken_over
    && elim p.domain_id [ none ↦ true | some d ↦ domain_of s.conversation_id == d ]
    && not (is_done s.status)

abbrev pub reassess : HandlingState → HandlingState
reassess s = record s {
  generation = s.generation + 1;
  status = HandlingStatus.review;
  followup_at = none;
}

-- The row that is stored: its version, and when it was switched on again.
unfoldable pub stored_policy : (now : ℕ) → Option HandlingPolicy → HandlingPolicy → HandlingPolicy
stored_policy now none p = record p { version = 1 }
stored_policy now (some old) p = record p {
  version = old.version + 1;
  enabled_at = if is_mode_off old.mode && not (is_mode_off p.mode) then now else p.enabled_at;
}

abbrev pub put_policy : HandlingPolicy → List HandlingPolicy → List HandlingPolicy
put_policy p policies =
    if any (has_policy_id p.id) policies
    then update_where (has_policy_id p.id) (λ _. p) policies
    else policies ++ p ∷ []

-- `save_policy`; `none` is the validation error.
unfoldable pub save_policy :
    (owner_of domain_of : ℕ → ℕ) (now : ℕ) → HandlingPolicy → PolicyBook → Option PolicyBook
save_policy owner_of domain_of now p book =
    if not (is_valid_policy owner_of book.policies p)
    then none
    else some (record {
      policies =
          put_policy (stored_policy now (find (has_policy_id p.id) book.policies) p) book.policies;
      states = update_where (is_covered_by owner_of domain_of p) reassess book.states;
    })
