-- ===== src/Handling/Policy.antt =====
-- `resolve_action` of inbox/services/handling_policy.py. Tags stand for their normalized names, as
-- numbers, and the confidence of a classification and its threshold for their values in thousandths.
use operational_inbox.Common.{
  or_else, ℕ, Bool, true, false, Option, none, some, String, List, [], ◌∷◌, ◌==◌, ◌&&◌, ◌||◌, not,
  ◌≡◌, ◌≤◌, refl, arith, find, any, ltb, if◌then◌else◌,
}

pub data MailType : Type 0 where
  billing support sales partnership transactional newsletter personal spam other : MailType

pub data Risk : Type 0 where
  low medium high unknown : Risk

pub data Action : Type 0 where
  auto draft review archive : Action

-- The mode of an effective policy, which is never `inherit`.
pub data Mode : Type 0 where
  auto_handle draft_only review_only off : Mode

-- A rule, whose name is `none` when it is missing or empty.
pub record Rule : Type 0 where
  pub name : Option String
  pub types : List MailType
  pub risks : List Risk
  pub tags : List ℕ
  pub action : Action
  pub add_tags : List ℕ

pub record Classification : Type 0 where
  pub confidence : ℕ
  pub mail_type : MailType
  pub risk : Risk

pub record Resolved : Type 0 where
  pub action : Action
  pub add_tags : List ℕ
  pub reason : String

abbrev pub type_number : MailType → ℕ
type_number billing = 0
type_number support = 1
type_number sales = 2
type_number partnership = 3
type_number transactional = 4
type_number newsletter = 5
type_number personal = 6
type_number spam = 7
type_number other = 8

abbrev pub risk_number : Risk → ℕ
risk_number low = 0
risk_number medium = 1
risk_number high = 2
risk_number unknown = 3

abbrev pub is_bulk : MailType → Bool
is_bulk newsletter = true
is_bulk spam = true
is_bulk _ = false

-- A condition that lists nothing holds of everything.
abbrev pub allows {ℓ} : {A : Type ℓ} → (A → Bool) → List A → Bool
allows test [] = true
allows test (x ∷ xs) = any test (x ∷ xs)

unfoldable pub matches : Classification → List ℕ → Rule → Bool
matches c tags r =
    allows (λ t. type_number t == type_number c.mail_type) r.types
    && allows (λ k. risk_number k == risk_number c.risk) r.risks
    && allows (λ t. any (λ u. u == t) tags) r.tags

-- What the rules alone choose, and whether one of them did.
unfoldable pub choose : List Rule → Classification → List ℕ → Resolved × Bool
choose rules c tags = elim (find (matches c tags) rules) [
  | some r ↦ (
    record { action = r.action; add_tags = r.add_tags; reason = or_else r.name "Matching rule" },
    true,
  )
  | none ↦ (
    record {
      action = if is_bulk c.mail_type then archive else auto;
      add_tags = [];
      reason = "Default handling";
    },
    false,
  )
]

abbrev pub is_off : Mode → Bool
is_off off = true
is_off _ = false

abbrev pub is_review_mode : Mode → Bool
is_review_mode review_only = true
is_review_mode _ = false

abbrev pub is_draft_mode : Mode → Bool
is_draft_mode draft_only = true
is_draft_mode _ = false

abbrev pub is_auto : Action → Bool
is_auto auto = true
is_auto _ = false

abbrev pub is_archive : Action → Bool
is_archive archive = true
is_archive _ = false

abbrev pub is_risk : Risk → Risk → Bool
is_risk a b = risk_number a == risk_number b

-- The mode's limit on the chosen action.
unfoldable pub limit_by_mode : Mode → Risk → Action → Action
limit_by_mode mode risk action =
    if is_review_mode mode
    then review
    else if (is_draft_mode mode || is_risk risk medium) && is_auto action
    then draft
    else action

-- The limits that the threat risk sets after the mode's.
unfoldable pub limit_by_risk : Risk → (matched : Bool) → Resolved → Resolved
limit_by_risk risk matched r =
    let r' =
      if is_risk risk high && not (matched && is_archive r.action)
      then record r { action = review; reason = "Threat risk requires review." }
      else r in
    if is_risk risk medium && is_archive r'.action && not matched
    then record r' { action = review }
    else r'

unfoldable pub resolve_action :
    (threshold : ℕ)
    → Mode
    → List Rule
    → Classification
    → (tags : List ℕ) → (explicit : Bool) → Resolved
resolve_action threshold mode rules c tags explicit =
    if ltb c.confidence threshold
    then record { action = review; add_tags = []; reason = "Classification needs review." }
    else if is_risk c.risk unknown
    then record { action = review; add_tags = []; reason = "Threat risk requires review." }
    else if is_off mode && not explicit
    then record { action = review; add_tags = []; reason = "Automation is off." }
    else (let (chosen, matched) = choose rules c tags in
        limit_by_risk c.risk matched
          (record chosen { action = limit_by_mode mode c.risk chosen.action }))

-- The two modes in which the agent may answer by itself.
abbrev pub is_answering : Mode → (explicit : Bool) → Bool
is_answering auto_handle explicit = true
is_answering off explicit = explicit
is_answering _ explicit = false

limited_auto :
    (mode : Mode) (risk : Risk) (matched : Bool) (r : Resolved)
    → (limit_by_risk risk matched (record r { action = limit_by_mode mode risk r.action })).action
      ≡ auto
    → (is_risk risk high ≡ false)
      × (is_risk risk medium ≡ false)
      × (is_review_mode mode ≡ false)
      × (is_draft_mode mode ≡ false)
unfolding limit_by_risk limit_by_mode
limited_auto mode risk matched r e = ground arith

answering :
    (mode : Mode) (explicit : Bool)
    → (is_off mode && not explicit) ≡ false
    → is_review_mode mode ≡ false
    → is_draft_mode mode ≡ false
    → is_answering mode explicit ≡ true
answering auto_handle explicit a b c = refl
answering off explicit a b c = ground arith
answering review_only explicit a b c = ground arith
answering draft_only explicit a b c = ground arith

only_low :
    (k : Risk)
    → is_risk k high ≡ false
    → is_risk k medium ≡ false
    → is_risk k unknown ≡ false
    → k ≡ low
only_low low a b c = refl
only_low medium a b c = ground arith
only_low high a b c = ground arith
only_low unknown a b c = ground arith

-- The agent may answer by itself only on a classification at or above the confidence threshold with
-- low risk, under automatic handling or an explicit request while automation is off.
pub auto_needs :
    (threshold : ℕ) (mode : Mode) (rules : List Rule) (c : Classification) (tags : List ℕ)
    (explicit : Bool)
    → (resolve_action threshold mode rules c tags explicit).action ≡ auto
    → (threshold ≤ c.confidence) × (c.risk ≡ low) × (is_answering mode explicit ≡ true)
unfolding resolve_action
auto_needs threshold mode rules c tags explicit e =
    let chosen = choose rules c tags in
    let limited = limited_auto mode c.risk chosen.1 chosen.0 in
    ground (arith, limited, answering mode explicit, only_low c.risk)
