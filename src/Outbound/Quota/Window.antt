-- ===== src/Outbound/Quota/Window.antt =====
-- The limits over whole histories of sends, with the plan's limits as they change.
use operational_inbox.Common.{
  ◌⊎◌, zero, suc, refl, ℕ, Bool, true, false, none, List, [], ◌∷◌, ◌==◌, ◌&&◌, ◌+◌, ◌≤◌, ◌<◌, ◌≡◌,
  arith, count, leb, ltb, minutes, hours, count_mono, Bool-cases, inl, inr, subst, ap, ◌∙◌,
  if◌then◌else◌,
}
use operational_inbox.Accounts.{Domain}
use operational_inbox.Outbound.Message.{OutboundMessage, OutboundControl}
use operational_inbox.Outbound.Quota.{Limits, capacity_error, is_owned}
use operational_inbox.Outbound.Quota.Month.{
  Calendar, IsGregorian, month_window, month_window-within,
}
use operational_inbox.Outbound.Quota.Admission.{
  IsUnder, recent_of, domain_recent_of, between_of, capacity_error-none_iff,
}

-- A limit in force, positive and not above a ceiling; a ceiling of zero asks nothing.
abbrev pub IsUpTo : (ceiling limit : ℕ) → Type 0
IsUpTo ceiling limit = (ceiling ≡ 0) ⊎ ((0 < limit) × (limit ≤ ceiling))

-- Limits under common ceilings.
pub record AreUpTo (ceilings limits : Limits) : Type 0 where
  pub minute : IsUpTo ceilings.minute limits.minute
  pub day : IsUpTo ceilings.day limits.day
  pub domain_day : IsUpTo ceilings.domain_day limits.domain_day
  pub month : IsUpTo ceilings.month limits.month

-- `domains` lists every domain of the history: one that has no rows yet changes no count.
module _ (cal : Calendar) (ceilings : Limits) (domains : List Domain) (owner : ℕ) where
  -- The rows that an account and all others may have queued, newest first. Each row of the account
  -- passed the check, with the limits of the plan that held then, at a moment not after its creation:
  -- the check reads the clock before it waits for the lock.
  pub data Sends : List OutboundMessage → Type 0 where
    start : Sends []
    sent :
        (m : OutboundMessage) (limits : Limits) (control : OutboundControl) (domain : Domain)
        (now : ℕ) {rows : List OutboundMessage}
        → Sends rows
        → AreUpTo ceilings limits
        → domain.owner_id ≡ owner
        → m.domain_id ≡ domain.id
        → now ≤ m.created_at
        → capacity_error cal limits domains rows control domain now ≡ none
        → Sends (m ∷ rows)
    elsewhere :
        (m : OutboundMessage) {rows : List OutboundMessage}
        → Sends rows
        → is_owned domains owner m ≡ false
        → Sends (m ∷ rows)

  -- Both moments lie in the same calendar month.
  abbrev pub is_same_month : (now created : ℕ) → Bool
  is_same_month now created =
      (month_window cal now).0 == (month_window cal created).0
      && (month_window cal now).1 == (month_window cal created).1

  -- The sends whose check and whose creation lie in two calendar months.
  unfoldable pub crossings : {rows : List OutboundMessage} → Sends rows → ℕ
  crossings start = 0
  crossings (sent m limits control domain now s ceil own at late ok) =
      crossings s + (if is_same_month now m.created_at then 0 else 1)
  crossings (elsewhere m s out) = crossings s

-- A limit of zero is no limit.
abbrev pub IsAtMost : (used limit : ℕ) → Type 0
IsAtMost used limit = (limit ≡ 0) ⊎ (used ≤ limit)

unless_zero : (used limit : ℕ) → (0 < limit → used ≤ limit) → IsAtMost used limit
unless_zero used zero h = inl refl
unless_zero used (suc n) h = inr (h (omega arith))

within_ceiling :
    (used ceiling more : ℕ)
    → (0 < ceiling → used ≤ ceiling + more)
    → (ceiling ≡ 0) ⊎ (used ≤ ceiling + more)
within_ceiling used zero more h = inl refl
within_ceiling used (suc n) more h = inr (h (omega arith))

-- Rows created within the window that ends at a moment.
abbrev pub within : (window t : ℕ) → OutboundMessage → Bool
within window t m = leb m.created_at t && ltb t (m.created_at + window)

-- One more row of `p` stays in the limit if what the check counts, `q`, covers `p`.
bounded_step :
    (p q : OutboundMessage → Bool) (m : OutboundMessage) (rows : List OutboundMessage) (limit : ℕ)
    → 0 < limit
    → (p m ≡ true → (x : OutboundMessage) → p x ≡ true → q x ≡ true)
    → IsUnder (count q rows) limit
    → count p rows ≤ limit
    → count p (m ∷ rows) ≤ limit
bounded_step p q m rows limit pos covers under ih = elim (Bool-cases (p m)) [
  | inl hit ↦ rw hit (ground (arith, count_mono p q rows (covers hit)))
  | inr miss ↦ rw miss ih
]

module _ (cal : Calendar) (ceilings : Limits) (domains : List Domain) (owner : ℕ) where
  -- Sends of the account within the window that ends at `t`.
  abbrev pub owned_within : (window t : ℕ) → OutboundMessage → Bool
  owned_within window t m = is_owned domains owner m && within window t m

  -- The same, from one domain.
  abbrev pub domain_within : (domain window t : ℕ) → OutboundMessage → Bool
  domain_within domain window t m = owned_within window t m && m.domain_id == domain

  -- Sends of the account in the calendar month of `t`.
  abbrev pub in_month_of : ℕ → OutboundMessage → Bool
  in_month_of t = between_of domains owner (month_window cal t).0 (month_window cal t).1

  owned_within_covers :
      (window t now : ℕ) (m : OutboundMessage)
      → now ≤ t
      → owned_within window t m ≡ true
      → recent_of domains owner window now m ≡ true
  owned_within_covers window t now m h e = ground arith

  capacity :
      (limits : Limits) (rows : List OutboundMessage) (control : OutboundControl) (domain : Domain)
      (now : ℕ)
      → domain.owner_id ≡ owner
      → capacity_error cal limits domains rows control domain now ≡ none
      → IsUnder (count (recent_of domains owner (minutes 1) now) rows) limits.minute
        × IsUnder (count (recent_of domains owner (hours 24) now) rows) limits.day
        × IsUnder
            (count (domain_recent_of domains owner domain.id (hours 24) now) rows)
            limits.domain_day
        × IsUnder
            (count
              (between_of domains owner (month_window cal now).0 (month_window cal now).1)
              rows)
            limits.month
  capacity limits rows control domain now own ok =
      let h = (capacity_error-none_iff cal limits domains rows control domain now).0 ok in
      subst
        (λ o.
          IsUnder (count (recent_of domains o (minutes 1) now) rows) limits.minute
          × IsUnder (count (recent_of domains o (hours 24) now) rows) limits.day
          × IsUnder (count (domain_recent_of domains o domain.id (hours 24) now) rows)
              limits.domain_day
          × IsUnder
              (count (between_of domains o (month_window cal now).0 (month_window cal now).1) rows)
              limits.month)
        own (h.minute, h.day, h.domain_day, h.month)

  -- Where the limit in force leaves room, so does the ceiling.
  under :
      (used ceiling limit : ℕ)
      → 0 < ceiling
      → IsUpTo ceiling limit
      → IsUnder used limit
      → IsUnder used ceiling
  under used ceiling limit pos up room = ground arith

  minute_bound :
      (t : ℕ) {rows : List OutboundMessage}
      → 0 < ceilings.minute
      → Sends cal ceilings domains owner rows
      → count (owned_within (minutes 1) t) rows ≤ ceilings.minute
  minute_bound t pos start = omega arith
  minute_bound t pos (elsewhere m s out) = rw out (minute_bound t pos s)
  minute_bound t pos (sent m limits control domain now {rows = rows} s up own at late ok) =
      bounded_step (owned_within (minutes 1) t) (recent_of domains owner (minutes 1) now) m rows
        ceilings.minute pos (λ hit x e. owned_within_covers (minutes 1) t now x (ground arith) e)
        (under _ ceilings.minute limits.minute pos up.minute
          (capacity limits rows control domain now own ok).0)
        (minute_bound t pos s)

  day_bound :
      (t : ℕ) {rows : List OutboundMessage}
      → 0 < ceilings.day
      → Sends cal ceilings domains owner rows
      → count (owned_within (hours 24) t) rows ≤ ceilings.day
  day_bound t pos start = omega arith
  day_bound t pos (elsewhere m s out) = rw out (day_bound t pos s)
  day_bound t pos (sent m limits control domain now {rows = rows} s up own at late ok) =
      bounded_step (owned_within (hours 24) t) (recent_of domains owner (hours 24) now) m rows
        ceilings.day pos (λ hit x e. owned_within_covers (hours 24) t now x (ground arith) e)
        (under _ ceilings.day limits.day pos up.day
          (capacity limits rows control domain now own ok).1)
        (day_bound t pos s)

  domain_bound :
      (d t : ℕ) {rows : List OutboundMessage}
      → 0 < ceilings.domain_day
      → Sends cal ceilings domains owner rows
      → count (domain_within d (hours 24) t) rows ≤ ceilings.domain_day
  domain_bound d t pos start = omega arith
  domain_bound d t pos (elsewhere m s out) = rw out (domain_bound d t pos s)
  domain_bound d t pos (sent m limits control domain now {rows = rows} s up own from late ok) =
      bounded_step (domain_within d (hours 24) t)
        (domain_recent_of domains owner domain.id (hours 24) now) m rows ceilings.domain_day pos
        (λ hit x e. ground arith)
        (under _ ceilings.domain_day limits.domain_day pos up.domain_day
          (capacity limits rows control domain now own ok).2)
        (domain_bound d t pos s)

  same_month :
      (t now : ℕ)
      → IsGregorian cal
      → (m : OutboundMessage) → in_month_of t m ≡ true
      → is_same_month cal ceilings domains owner now m.created_at ≡ true
      → month_window cal now ≡ month_window cal t
  same_month t now g m hit same =
      let from : (month_window cal now).0 ≡ (month_window cal m.created_at).0 = ground arith in
      let to : (month_window cal now).1 ≡ (month_window cal m.created_at).1 = ground arith in
      ap (λ a. (a, (month_window cal now).1)) from
      ∙ ap (λ z. ((month_window cal m.created_at).0, z)) to
      ∙ month_window-within cal g t m.created_at (ground arith) (ground arith)

  month_bound :
      (t : ℕ) {rows : List OutboundMessage}
      → IsGregorian cal
      → 0 < ceilings.month
      → (s : Sends cal ceilings domains owner rows)
      → count (in_month_of t) rows ≤ ceilings.month + crossings cal ceilings domains owner s
  unfolding crossings
  month_bound t g pos start = omega arith
  month_bound t g pos (elsewhere m s out) = rw out (month_bound t g pos s)
  month_bound t g pos (sent m limits control domain now {rows = rows} s up own from late ok) =
      let ih = month_bound t g pos s in
      elim (Bool-cases (is_same_month cal ceilings domains owner now m.created_at)) [
        | inl same ↦
            let room =
              under _ ceilings.month limits.month pos up.month
                (capacity limits rows control domain now own ok).3 in
            elim (Bool-cases (in_month_of t m)) [
              | inl hit ↦
                  let covered =
                    count_mono (in_month_of t) (in_month_of now) rows
                      (λ x e. rw (same_month t now g m hit same) e) in
                  rw (hit, same) (ground arith)
              | inr miss ↦ rw (miss, same) (omega (arith, ih))
            ]
        | inr other ↦ rw other (ground (arith, ih))
      ]

  -- With a calendar as `datetime` documents it, whatever the sequence of sends that each passed the
  -- check, at a moment not after the creation of its row and with positive limits that may change
  -- with the plan but stay under common ceilings: at every moment the account's sends of the last
  -- minute, of the last 24 hours and of the last 24 hours from any one domain are at most the
  -- ceiling, and those of the calendar month (UTC) at most the ceiling and one more for each send
  -- whose check and whose creation lie in two calendar months. A ceiling of zero asks nothing of the
  -- limits and bounds nothing.
  pub sends_within_limits :
      (t d : ℕ) {rows : List OutboundMessage}
      → IsGregorian cal
      → (s : Sends cal ceilings domains owner rows)
      → IsAtMost (count (owned_within (minutes 1) t) rows) ceilings.minute
        × IsAtMost (count (owned_within (hours 24) t) rows) ceilings.day
        × IsAtMost (count (domain_within d (hours 24) t) rows) ceilings.domain_day
        × ((ceilings.month ≡ 0)
            ⊎ (count (in_month_of t) rows
                ≤ ceilings.month + crossings cal ceilings domains owner s))
  sends_within_limits t d g s = (
    unless_zero _ _ (λ pos. minute_bound t pos s),
    unless_zero _ _ (λ pos. day_bound t pos s),
    unless_zero _ _ (λ pos. domain_bound d t pos s),
    within_ceiling _ _ _ (λ pos. month_bound t g pos s),
  )
