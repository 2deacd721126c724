-- ===== src/Capacity/Primary.antt =====
-- Two services choose the domain that a Free Core account keeps: `free_primary_domain` of
-- inbox/services/entitlements.py, by two queries, and `_selected_primary` of
-- inbox/services/domain_entitlements.py, on a list.
use operational_inbox.Common.{
  ℕ, Bool, true, Option, none, some, List, [], ◌∷◌, ◌≡◌, refl, ◌∙◌, arith, find, filter, order_by,
  insert_by, is_id, IsFresh, IsUnique, Option-cases, inl, inr,
}
use operational_inbox.Settings.{Settings}
use operational_inbox.Accounts.{Domain, is_active_of, created_before, User}
use operational_inbox.Accounts.Entitlements.{free_primary_domain, profile_of}
use operational_inbox.Setup.{Setup}
use operational_inbox.Capacity.{ordered_domains, selected_primary, domain_capacity, domain_id_of}

abbrev pub id_of : Domain → ℕ
id_of d = d.id

abbrev chosen : Option ℕ → Domain → Bool
chosen k d = is_id k d.id

fresh_unchosen :
    (k : Option ℕ) (x : Domain) (ys : List Domain)
    → chosen k x ≡ true
    → IsFresh id_of x.id ys
    → find (chosen k) ys ≡ none
fresh_unchosen k x [] e f = refl
fresh_unchosen none x (y ∷ ys) e f = cc
fresh_unchosen (some n) x (y ∷ ys) e f = ground (arith, fresh_unchosen (some n) x ys e f.1)

find-insert :
    (p : Domain → Bool) (before : Domain → Domain → Bool) (x : Domain) (ys : List Domain)
    → (p x ≡ true → find p ys ≡ none)
    → find p (insert_by before x ys) ≡ find p (x ∷ ys)
find-insert p before x [] h = refl
find-insert p before x (y ∷ ys) h = ground (arith, h, find-insert p before x ys)

find-order_by :
    (k : Option ℕ) (before : Domain → Domain → Bool) (xs : List Domain)
    → IsUnique id_of xs
    → find (chosen k) (order_by before xs) ≡ find (chosen k) xs
find-order_by k before [] u = refl
find-order_by k before (x ∷ xs) u =
    let ih = find-order_by k before xs u.1 in
    ground (
      arith,
      ih,
      find-insert (chosen k) before x (order_by before xs)
          (λ hit. ih ∙ fresh_unchosen k x xs hit u.0),
    )

filter-IsFresh :
    (n : ℕ) (p : Domain → Bool) (xs : List Domain)
    → IsFresh id_of n xs
    → IsFresh id_of n (filter p xs)
filter-IsFresh n p [] f = tt
filter-IsFresh n p (x ∷ xs) f = ground (arith, filter-IsFresh n p xs f.1)

filter-IsUnique :
    (p : Domain → Bool) (xs : List Domain) → IsUnique id_of xs → IsUnique id_of (filter p xs)
filter-IsUnique p [] u = tt
filter-IsUnique p (x ∷ xs) u =
    ground (arith, filter-IsUnique p xs u.1, filter-IsFresh x.id p xs u.0)

-- If the domains have distinct IDs, the two services agree on the primary domain of every account,
-- whether it has a billing profile,
-- has chosen a domain, or has chosen one that is no longer active.
pub primaries_agree :
    (s : Settings) (user : User) (db : Setup)
    → IsUnique id_of db.domains
    → (domain_capacity s user db).primary_domain_id
      ≡ domain_id_of (free_primary_domain db.profiles db.domains user)
unfolding domain_capacity free_primary_domain ordered_domains selected_primary
primaries_agree s user db u = elim (Option-cases (profile_of user.id db.profiles)) [
  | inl e ↦ ground arith
  | inr (p, e) ↦ ground (
    arith,
    find-order_by p.free_primary_domain_id created_before (filter (is_active_of user.id) db.domains)
        (filter-IsUnique (is_active_of user.id) db.domains u),
  )
]
