-- ===== src/Ingestion/Tenancy.antt =====
-- Which mail reaches which tenant (inbox/services/ingestion.py).
use text.Mathlib.Text.{◌==◌ as str_eq}
use text.Mathlib.TextEquality.{eq_iff}
use operational_inbox.Common.{
  ℕ, Bool, true, String, List, [], ◌∷◌, ◌++◌, ◌==◌, ◌&&◌, ◌||◌, ◌≡◌, refl, arith, all, any, filter,
  map, order_by, insert_by, if◌then◌else◌, Bool-cases, inl, inr,
}
use operational_inbox.Accounts.{Domain}
use operational_inbox.Setup.{Setup, Route}
use operational_inbox.Ingestion.Recipients.{
  Addresses, RoutedDomain, distinct, normalized, is_forwarding, is_open_domain, is_forwarding_route,
  is_direct_domain, str_before, is_at, route_domain, receives, id_before, route_domains,
}

module _ {ℓ} {A : Type ℓ} (p : A → Bool) where
  all-append : (xs ys : List A) → all p xs ≡ true → all p ys ≡ true → all p (xs ++ ys) ≡ true
  all-append [] ys hx hy = hy
  all-append (x ∷ xs) ys hx hy = ground (arith, all-append xs ys)

  all-insert :
      (before : A → A → Bool) (x : A) (ys : List A)
      → p x ≡ true
      → all p ys ≡ true
      → all p (insert_by before x ys) ≡ true
  all-insert before x [] hx hy = ground arith
  all-insert before x (y ∷ ys) hx hy = ground (arith, all-insert before x ys)

  all-order :
      (before : A → A → Bool) (xs : List A) → all p xs ≡ true → all p (order_by before xs) ≡ true
  all-order before [] h = refl
  all-order before (x ∷ xs) h =
      ground (arith, all-order before xs, all-insert before x (order_by before xs))

  all-filter :
      (q : A → Bool) (xs : List A)
      → ((x : A) → q x ≡ true → p x ≡ true)
      → all p (filter q xs) ≡ true
  all-filter q [] h = refl
  all-filter q (x ∷ xs) h = ground (arith, h x, all-filter q xs h)

module _ {A B : Type 0} (p : B → Bool) (f : A → B) where
  all-map : (xs : List A) → all (λ x. p (f x)) xs ≡ true → all p (map f xs) ≡ true
  all-map [] h = refl
  all-map (x ∷ xs) h = ground (arith, all-map xs)

all-distinct : (p : String → Bool) (xs : List String) → all p xs ≡ true → all p (distinct xs) ≡ true
unfolding distinct
all-distinct p [] h = refl
all-distinct p (x ∷ xs) h = ground (arith, all-distinct p xs)

-- An active forwarding alias of the domain has the address, in its folded form.
abbrev pub is_alias_of : Addresses → Domain → String → Route → Bool
is_alias_of a d s r =
    r.domain_id == d.id
    && r.is_active
    && is_forwarding r.kind
    && str_eq (a.casefold (a.route_address r.id)) s

-- The address is the domain's: by an alias of its own, or at its verified hostname.
abbrev pub is_own_recipient : Addresses → Setup → Domain → String → Bool
is_own_recipient a db d s = any (is_alias_of a d s) db.routes || d.ownership_verified && is_at d s

same_text : (s : String) → str_eq s s ≡ true
same_text s = (eq_iff s s).1 refl

-- Each route of a list that the filter keeps is an alias of the domain in any list that holds it.
alias_own :
    (a : Addresses) (now : ℕ) (db : Setup) (addresses : List String) (d : Domain) (r : Route)
    → is_forwarding_route a now db addresses d r ≡ true
    → is_alias_of a d (a.casefold (a.route_address r.id)) r ≡ true
unfolding is_forwarding_route
alias_own a now db addresses d r h = ground (arith, same_text (a.casefold (a.route_address r.id)))

weaken :
    (q : Route → String → Bool) (rs : List Route) (r : Route) (f : Route → String) (xs : List Route)
    → all (λ x. any (λ y. q y (f x)) rs) xs ≡ true
    → all (λ x. any (λ y. q y (f x)) (r ∷ rs)) xs ≡ true
weaken q rs r f [] h = refl
weaken q rs r f (x ∷ xs) h = ground (arith, weaken q rs r f xs)

kept_self :
    (keep : Route → Bool) (q : Route → String → Bool) (f : Route → String) (rs : List Route)
    → ((r : Route) → keep r ≡ true → q r (f r) ≡ true)
    → all (λ x. any (λ y. q y (f x)) rs) (filter keep rs) ≡ true
kept_self keep q f [] h = refl
kept_self keep q f (r ∷ rs) h =
    let rest = weaken q rs r f (filter keep rs) (kept_self keep q f rs h) in
    elim (Bool-cases (keep r)) [ inl kept ↦ ground (arith, h r) | inr dropped ↦ ground arith ]

all_mono {ℓ} :
    {A : Type ℓ} (p q : A → Bool) (xs : List A)
    → ((x : A) → p x ≡ true → q x ≡ true)
    → all p xs ≡ true
    → all q xs ≡ true
all_mono p q [] h e = refl
all_mono p q (x ∷ xs) h e = ground (arith, h x, all_mono p q xs h)

aliases-own :
    (a : Addresses) (now : ℕ) (db : Setup) (addresses : List String) (d : Domain)
    → all (is_own_recipient a db d) (
        map
          (λ (r : Route). a.casefold (a.route_address r.id))
          (filter (is_forwarding_route a now db addresses d) db.routes))
      ≡ true
aliases-own a now db addresses d =
    let f = λ (r : Route). a.casefold (a.route_address r.id) in
    let kept = filter (is_forwarding_route a now db addresses d) db.routes in
    all-map (is_own_recipient a db d) f kept (
      all_mono (λ x. any (is_alias_of a d (f x)) db.routes) (λ x. is_own_recipient a db d (f x))
        kept (λ x h. ground arith)
        (kept_self (is_forwarding_route a now db addresses d) (λ r s. is_alias_of a d s r) f
          db.routes (alias_own a now db addresses d)))

verified :
    (now : ℕ) (db : Setup) (addresses : List String) (d : Domain)
    → is_direct_domain now db addresses d ≡ true
    → (d.ownership_verified ≡ true) × (is_open_domain d ≡ true)
unfolding is_direct_domain
verified now db addresses d h = ground arith

direct-own :
    (a : Addresses) (now : ℕ) (db : Setup) (addresses : List String) (d : Domain)
    → all
        (is_own_recipient a db d)
        (if is_direct_domain now db addresses d then filter (is_at d) addresses else [])
      ≡ true
direct-own a now db addresses d = elim (Bool-cases (is_direct_domain now db addresses d)) [
  | inr closed ↦ rw closed refl
  | inl direct ↦ rw direct (
      all-filter (is_own_recipient a db d) (is_at d) addresses
        λ s at. ground (arith, verified now db addresses d direct))
]

domain-own :
    (a : Addresses) (now : ℕ) (db : Setup) (addresses : List String) (d : Domain)
    → all (is_own_recipient a db d) (route_domain a now db addresses d).recipients ≡ true
unfolding route_domain
domain-own a now db addresses d = all-order (is_own_recipient a db d) str_before _ (
    all-distinct (is_own_recipient a db d) _ (
      all-append (is_own_recipient a db d) _ _ (aliases-own a now db addresses d)
        (direct-own a now db addresses d)))

forwarding-open :
    (a : Addresses) (now : ℕ) (db : Setup) (addresses : List String) (d : Domain) (rs : List Route)
    → any (is_forwarding_route a now db addresses d) rs ≡ true
    → is_open_domain d ≡ true
unfolding is_forwarding_route
forwarding-open a now db addresses d [] h = ground arith
forwarding-open a now db addresses d (r ∷ rs) h =
    ground (arith, forwarding-open a now db addresses d rs)

receives-open :
    (a : Addresses) (now : ℕ) (db : Setup) (addresses : List String) (d : Domain)
    → receives a now db addresses d ≡ true
    → is_open_domain d ≡ true
unfolding receives
receives-open a now db addresses d h =
    ground (arith, forwarding-open a now db addresses d db.routes, verified now db addresses d)

both : {a b : Bool} → a ≡ true → b ≡ true → (a && b) ≡ true
both p q = ground arith

abbrev pub is_tenant_safe : Addresses → Setup → RoutedDomain → Bool
is_tenant_safe a db x = is_open_domain x.domain && all (is_own_recipient a db x.domain) x.recipients

tenant_safe :
    (a : Addresses) (now : ℕ) (db : Setup) (addresses : List String) (d : Domain)
    → receives a now db addresses d ≡ true
    → is_tenant_safe a db (route_domain a now db addresses d) ≡ true
unfolding route_domain
tenant_safe a now db addresses d h =
    both (receives-open a now db addresses d h) (domain-own a now db addresses d)

-- However an envelope is addressed, each domain that it is routed to receives mail and is not disabled,
-- and each recipient that the domain is given is its own: the address of an active forwarding alias
-- of that domain, or an address at its hostname, whose ownership is verified.
pub mail_stays_in_tenant :
    (a : Addresses) (now : ℕ) (recipients : List String) (db : Setup)
    → all (is_tenant_safe a db) (route_domains a now recipients db) ≡ true
unfolding route_domains
mail_stays_in_tenant a now recipients db =
    let addresses = normalized a recipients in
    all-map (is_tenant_safe a db) (route_domain a now db addresses) _ (
      all-order (λ d. is_tenant_safe a db (route_domain a now db addresses d)) id_before _
        (all-filter (λ d. is_tenant_safe a db (route_domain a now db addresses d))
          (receives a now db addresses) db.domains (λ d h. tenant_safe a now db addresses d h)))
