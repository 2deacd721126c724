-- ===== src/Capacity/Enforcement.antt =====
-- What `reconcile_domain_capacity` does to the domains.
use operational_inbox.Common.{
  length-order_by, length-filter, count, ℕ, Bool, Option, none, some, List, [], ◌∷◌, ◌==◌, ◌&&◌,
  ◌||◌, not, ◌≡◌, refl, ◌∙◌, arith, any, find, filter, order_by, insert_by, update_where, length,
  if◌then◌else◌, is_id, Bool-cases, Option-cases, inl, inr, leb, ltb, ap,
}
use operational_inbox.Settings.{Settings}
use operational_inbox.Accounts.{
  Domain, is_disabled, is_active_of, created_before, BillingProfile, is_pro,
}
use operational_inbox.Setup.{Setup, Naming, has_domain_id}
use operational_inbox.Capacity.{
  reconcile_profile, disable_after_grace, domain_id_of, ordered_domains, selected_primary,
  disable_row, disable_for_capacity, disable_others, ensure_profile, with_primary, save_profile,
  grace_end, reconcile, stop_receiving,
}

-- Disabling a row that may be disabled already.
abbrev pub expel : Domain → Domain
expel d = if is_disabled d.status then d else disable_row d

abbrev pub expel_found : Option Domain → Option Domain
expel_found none = none
expel_found (some d) = some (expel d)

abbrev pub disable_found : Option Domain → Option Domain
disable_found none = none
disable_found (some d) = some (disable_row d)

expel-expel : (d : Option Domain) → expel_found (expel_found d) ≡ expel_found d
unfolding disable_row
expel-expel none = refl
expel-expel (some d) = ground arith

-- What a reader of the row `j` sees once the row `k` is written.
found_after :
    (j k : ℕ) (rows : List Domain)
    → find (has_domain_id j) (update_where (has_domain_id k) disable_row rows) ≡ (
        if j == k then disable_found (find (has_domain_id j) rows) else find (has_domain_id j) rows)
unfolding disable_row
found_after j k [] = ground arith
found_after j k (x ∷ rows) = ground (arith, found_after j k rows)

one_disabled :
    (n : Naming) (j k now : ℕ) (db : Setup)
    → find (has_domain_id j) (disable_for_capacity n k now db).0.domains ≡ (
        if j == k
        then expel_found (find (has_domain_id j) db.domains)
        else find (has_domain_id j) db.domains)
unfolding disable_for_capacity stop_receiving
one_disabled n j k now db = elim (Option-cases (find (has_domain_id k) db.domains)) [
  | inl e ↦ ground arith
  | inr (d, e) ↦ ground (arith, found_after j k db.domains)
]

all_disabled :
    (n : Naming) (j primary now : ℕ) (ds : List Domain) (db : Setup)
    → find (has_domain_id j) (disable_others n primary now ds db).0.domains ≡ (
        if not (j == primary) && any (has_domain_id j) ds
        then expel_found (find (has_domain_id j) db.domains)
        else find (has_domain_id j) db.domains)
unfolding disable_others
all_disabled n j primary now [] db = ground arith
all_disabled n j primary now (d ∷ ds) db = elim (Bool-cases (d.id == primary)) [
  | inl e ↦ ground (arith, all_disabled n j primary now ds db)
  | inr e ↦ ground (
    arith,
    all_disabled n j primary now ds (disable_for_capacity n d.id now db).0,
    one_disabled n j d.id now db,
    expel-expel (find (has_domain_id j) db.domains),
  )
]

any-insert_by :
    (p : Domain → Bool) (before : Domain → Domain → Bool) (x : Domain) (ys : List Domain)
    → any p (insert_by before x ys) ≡ (p x || any p ys)
any-insert_by p before x [] = refl
any-insert_by p before x (y ∷ ys) = ground (arith, any-insert_by p before x ys)

any-order_by :
    (p : Domain → Bool) (before : Domain → Domain → Bool) (xs : List Domain)
    → any p (order_by before xs) ≡ any p xs
any-order_by p before [] = refl
any-order_by p before (x ∷ xs) =
    any-insert_by p before x (order_by before xs) ∙ ap (λ r. p x || r) (any-order_by p before xs)

any-filter :
    (p q : Domain → Bool) (xs : List Domain) → any p (filter q xs) ≡ any (λ d. p d && q d) xs
any-filter p q [] = refl
any-filter p q (x ∷ xs) = ground (arith, any-filter p q xs)

-- The row of `user`'s domain `k` that is active.
abbrev pub is_own_active : (user k : ℕ) → Domain → Bool
is_own_active user k d = has_domain_id k d && is_active_of user d

ordered_any :
    (user k : ℕ) (domains : List Domain)
    → any (has_domain_id k) (ordered_domains user domains) ≡ any (is_own_active user k) domains
unfolding ordered_domains
ordered_any user k domains =
    any-order_by (has_domain_id k) created_before (filter (is_active_of user) domains)
    ∙ any-filter (has_domain_id k) (is_active_of user) domains

ordered_length :
    (user : ℕ) (domains : List Domain)
    → length (ordered_domains user domains) ≡ count (is_active_of user) domains
unfolding ordered_domains
ordered_length user domains =
    length-order_by created_before (filter (is_active_of user) domains)
    ∙ length-filter (is_active_of user) domains

unselected :
    (k : Option ℕ) (domains : List Domain) → selected_primary k domains ≡ none → length domains ≡ 0
unfolding selected_primary
unselected k [] e = refl
unselected k (x ∷ xs) e = ground arith

abbrev pub profile_before : ℕ → Setup → BillingProfile
profile_before user db = (ensure_profile user db.profiles).1

-- The domain that the account keeps.
abbrev pub kept : ℕ → Setup → Option ℕ
kept user db = domain_id_of (
    selected_primary (profile_before user db).free_primary_domain_id
      (ordered_domains user db.domains))

-- The account is on Free Core with several active domains and its grace period has ended.
abbrev pub is_enforced : Settings → (user now : ℕ) → Setup → Bool
is_enforced s user now db =
    not (is_pro (profile_before user db))
    && ltb 1 (count (is_active_of user) db.domains)
    && leb (grace_end s now (profile_before user db)) now

-- What `reconcile_domain_capacity` leaves in each row of the domains' table: a row changes only
-- when the account is on Free Core with two or more active domains after its grace period, and then
-- exactly the account's active domains other than the kept one are disabled.
pub reconcile_enforces :
    (s : Settings) (n : Naming) (user now j : ℕ) (db : Setup)
    → find (has_domain_id j) (reconcile s n user now db).0.domains ≡ (
        if is_enforced s user now db
          && not (is_id (kept user db) j)
          && any (is_own_active user j) db.domains
        then expel_found (find (has_domain_id j) db.domains)
        else find (has_domain_id j) db.domains)
unfolding reconcile reconcile_profile disable_after_grace
reconcile_enforces s n user now j db =
    elim (Option-cases (
      selected_primary (profile_before user db).free_primary_domain_id
        (ordered_domains user db.domains))) [
          | inl e ↦ ground (
            arith,
            ordered_length user db.domains,
            unselected (profile_before user db).free_primary_domain_id
                (ordered_domains user db.domains) e,
          )
          | inr (d, e) ↦ ground (
            arith,
            ordered_length user db.domains,
            ordered_any user j db.domains,
            all_disabled n j d.id now (ordered_domains user db.domains) (
                save_profile
                  (record (with_primary (some d) (profile_before user db)) {
                    domain_grace_ends_at = some (grace_end s now (profile_before user db));
                  })
                  (record db { profiles = (ensure_profile user db.profiles).0 })),
          )
        ]
