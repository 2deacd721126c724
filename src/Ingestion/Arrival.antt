-- ===== src/Ingestion/Arrival.antt =====
-- Mail that must reach its domain (inbox/services/ingestion.py).
use text.Mathlib.Text.{◌==◌ as str_eq}
use text.Mathlib.TextEquality.{eq_iff}
use operational_inbox.Common.{
  ℕ, Bool, true, false, none, some, String, List, [], ◌∷◌, ◌++◌, ◌==◌, ◌&&◌, ◌||◌, ◌≡◌, refl, sym,
  ◌∙◌, ap, arith, any, find, filter, map, order_by, insert_by, Bool-cases, inl, inr, ==_refl,
}
use operational_inbox.Accounts.{Domain, is_mode, direct_mx}
use operational_inbox.Setup.{Setup, Route, has_domain_id}
use operational_inbox.Outbound.Submission.Address.{behind_at}
use operational_inbox.Ingestion.Recipients.{
  Addresses, RoutedDomain, mem_text, distinct, normalized, is_serving, is_open_domain,
  is_direct_domain, is_forwarding_route, str_before, is_at, route_domain, receives, id_before,
  route_domains,
}

module _ {ℓ} {A : Type ℓ} (p : A → Bool) where
  any-append_right : (xs ys : List A) → any p ys ≡ true → any p (xs ++ ys) ≡ true
  any-append_right [] ys h = h
  any-append_right (x ∷ xs) ys h = ground (arith, any-append_right xs ys h)

  any-insert :
      (before : A → A → Bool) (x : A) (ys : List A)
      → any p (insert_by before x ys) ≡ (p x || any p ys)
  any-insert before x [] = refl
  any-insert before x (y ∷ ys) = ground (arith, any-insert before x ys)

  any-order : (before : A → A → Bool) (xs : List A) → any p (order_by before xs) ≡ any p xs
  any-order before [] = refl
  any-order before (x ∷ xs) =
      ground (arith, any-order before xs, any-insert before x (order_by before xs))

any-map :
    {A B : Type 0} (p : B → Bool) (f : A → B) (xs : List A)
    → any p (map f xs) ≡ any (λ x. p (f x)) xs
any-map p f [] = refl
any-map p f (x ∷ xs) = ground (arith, any-map p f xs)

same_text : (s : String) → str_eq s s ≡ true
same_text s = (eq_iff s s).1 refl

moved_text : (s t u : String) → str_eq s t ≡ true → str_eq s u ≡ str_eq t u
moved_text s t u e = ap (λ x. str_eq x u) ((eq_iff s t).0 e)

mem-moved : (s t : String) (xs : List String) → str_eq s t ≡ true → mem_text s xs ≡ mem_text t xs
mem-moved s t xs e = ap (λ x. mem_text x xs) ((eq_iff s t).0 e)

mem-distinct :
    (s : String) (xs : List String) → mem_text s xs ≡ true → mem_text s (distinct xs) ≡ true
unfolding distinct
mem-distinct s [] h = h
mem-distinct s (x ∷ xs) h = ground (arith, mem-distinct s xs, mem-moved s x (distinct xs))

mem-filter :
    (q : String → Bool) (s : String) (xs : List String)
    → q s ≡ true
    → mem_text s xs ≡ true
    → mem_text s (filter q xs) ≡ true
mem-filter q s [] passes h = h
mem-filter q s (x ∷ xs) passes h = elim (Bool-cases (str_eq s x)) [
  | inl same ↦ let kept : q x ≡ true = sym (ap q ((eq_iff s x).0 same)) ∙ passes in ground arith
  | inr other ↦ ground (arith, mem-filter q s xs passes)
]

head_same : (x d : Domain) → some x ≡ some d → d ≡ x
head_same x d e = cc

any-head :
    (q p : Domain → Bool) (x : Domain) (ds : List Domain)
    → q x ≡ true
    → p x ≡ true
    → any p (filter q (x ∷ ds)) ≡ true
any-head q p x ds passes holds = ground arith

any-kept :
    (q : Domain → Bool) (p : Domain → Bool) (d : Domain) (ds : List Domain)
    → find (has_domain_id d.id) ds ≡ some d
    → q d ≡ true
    → p d ≡ true
    → any p (filter q ds) ≡ true
any-kept q p d [] found passes holds = ground arith
any-kept q p d (x ∷ ds) found passes holds = elim (Bool-cases (has_domain_id d.id x)) [
  | inl here ↦
      let same : d ≡ x = head_same x d (ground arith) in
      any-head q p x ds (sym (ap q same) ∙ passes) (sym (ap p same) ∙ holds)
  | inr other ↦ ground (arith, any-kept q p d ds)
]

both : {x y : Bool} → x ≡ true → y ≡ true → (x && y) ≡ true
both p q = ground arith

-- The domain is given the address.
abbrev pub delivers : ℕ → String → RoutedDomain → Bool
delivers domain s x = x.domain.id == domain && mem_text s x.recipients

given :
    (a : Addresses) (now : ℕ) (db : Setup) (addresses : List String) (d : Domain) (s : String)
    → is_direct_domain now db addresses d ≡ true
    → mem_text s addresses ≡ true
    → is_at d s ≡ true
    → delivers d.id s (route_domain a now db addresses d) ≡ true
unfolding route_domain
given a now db addresses d s direct there at =
    let aliases =
      map (λ (r : Route). a.casefold (a.route_address r.id))
        (filter (is_forwarding_route a now db addresses d) db.routes) in
    let own = filter (is_at d) addresses in
    let listed =
      any-order (str_eq s) str_before (distinct (aliases ++ own))
      ∙ mem-distinct s (aliases ++ own)
          (any-append_right (str_eq s) aliases own (mem-filter (is_at d) s addresses at there)) in
    rw direct (both (==_refl d.id) listed)

host_named :
    (d : Domain) (s : String) (addresses : List String)
    → mem_text s addresses ≡ true
    → behind_at s ≡ some d.hostname
    → any (λ x. elim (behind_at x) [ none ↦ false | some host ↦ str_eq host d.hostname ]) addresses
      ≡ true
host_named d s [] there host = there
host_named d s (x ∷ xs) there host = elim (Bool-cases (str_eq s x)) [
  | inl same ↦
      let named : behind_at x ≡ some d.hostname = sym (ap behind_at ((eq_iff s x).0 same)) ∙ host in
      ground (arith, same_text d.hostname)
  | inr other ↦ ground (arith, host_named d s xs)
]

serving-direct :
    (now : ℕ) (db : Setup) (addresses : List String) (d : Domain) (s : String)
    → is_mode d.setup_mode direct_mx ≡ true
    → is_serving d.status ≡ true
    → d.ownership_verified ≡ true
    → is_open_domain d ≡ true
    → mem_text s addresses ≡ true
    → behind_at s ≡ some d.hostname
    → is_direct_domain now db addresses d ≡ true
unfolding is_direct_domain
serving-direct now db addresses d s mode serving owned opened there host =
    ground (arith, host_named d s addresses there host)

-- Mail to an address of a domain that receives under its own hostname reaches the domain: if the domain
-- is verified, receives, and waits for its test, is ready or is degraded, the address is among those
-- that the envelope's routing gives it, whatever else the envelope names.
pub served_mail_arrives :
    (a : Addresses) (now : ℕ) (recipients : List String) (db : Setup) (d : Domain) (s : String)
    → find (has_domain_id d.id) db.domains ≡ some d
    → is_mode d.setup_mode direct_mx ≡ true
    → is_serving d.status ≡ true
    → d.ownership_verified ≡ true
    → is_open_domain d ≡ true
    → mem_text s (normalized a recipients) ≡ true
    → behind_at s ≡ some d.hostname
    → is_at d s ≡ true
    → any (delivers d.id s) (route_domains a now recipients db) ≡ true
unfolding route_domains receives
served_mail_arrives a now recipients db d s found mode serving owned opened there host at =
    let addresses = normalized a recipients in
    let direct = serving-direct now db addresses d s mode serving owned opened there host in
    any-map (delivers d.id s) (route_domain a now db addresses) _
    ∙ any-order (λ x. delivers d.id s (route_domain a now db addresses x)) id_before _
    ∙ any-kept (receives a now db addresses)
        (λ x. delivers d.id s (route_domain a now db addresses x)) d db.domains found (ground arith)
        (given a now db addresses d s direct there at)
