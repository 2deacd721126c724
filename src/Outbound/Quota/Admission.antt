-- ===== src/Outbound/Quota/Admission.antt =====
-- When the capacity check lets a send through, in terms of plain counts.
use operational_inbox.Common.{
  ℕ, Bool, false, none, List, ◌==◌, ◌&&◌, ◌<◌, ◌≡◌, ◌↔◌, ◌⊎◌, arith, count, filter, length, minutes,
  hours, count-filter, length-filter, count_const, ◌∙◌,
}
use operational_inbox.Accounts.{Domain}
use operational_inbox.Outbound.Message.{OutboundMessage, OutboundControl}
use operational_inbox.Outbound.Quota.{
  Limits, capacity_error, is_owned, is_recent, is_between, is_exhausted,
}
use operational_inbox.Outbound.Quota.Month.{Calendar, month_window}

and_assoc : (a b c : Bool) → (a && (b && c)) ≡ (a && b && c)
and_assoc a b c = ground arith

-- A limit of zero is no limit.
abbrev pub IsUnder : (used limit : ℕ) → Type 0
IsUnder used limit = (limit ≡ 0) ⊎ (used < limit)

is_exhausted_iff : (used limit : ℕ) → (is_exhausted used limit ≡ false) ↔ IsUnder used limit
is_exhausted_iff used limit = (λ h. ground arith, λ h. ground arith)

module _ (domains : List Domain) (owner : ℕ) where
  -- Sends of the account that are younger than the window.
  abbrev pub recent_of : (window now : ℕ) → OutboundMessage → Bool
  recent_of window now m = is_owned domains owner m && is_recent window now m

  -- The same, from one domain.
  abbrev pub domain_recent_of : (domain window now : ℕ) → OutboundMessage → Bool
  domain_recent_of domain window now m = recent_of window now m && m.domain_id == domain

  -- Sends of the account within a span of time.
  abbrev pub between_of : (start end : ℕ) → OutboundMessage → Bool
  between_of start end m = is_owned domains owner m && is_between start end m

-- What an account may still do at a moment, for one domain.
pub record HasCapacity (cal : Calendar) (limits : Limits) (domains : List Domain)
    (rows : List OutboundMessage) (control : OutboundControl) (domain : Domain) (now : ℕ)
    : Type 0 where
  pub running : control.is_paused ≡ false
  pub minute :
      IsUnder (count (recent_of domains domain.owner_id (minutes 1) now) rows) limits.minute
  pub day : IsUnder (count (recent_of domains domain.owner_id (hours 24) now) rows) limits.day
  pub domain_day :
      IsUnder
        (count (domain_recent_of domains domain.owner_id domain.id (hours 24) now) rows)
        limits.domain_day
  pub month :
      IsUnder
        (count
          (between_of domains domain.owner_id (month_window cal now).0 (month_window cal now).1)
          rows)
        limits.month

module _ (cal : Calendar) (limits : Limits) (domains : List Domain) (rows : List OutboundMessage)
    (control : OutboundControl) (domain : Domain) (now : ℕ) where
  abbrev base : List OutboundMessage
  base = filter (is_owned domains domain.owner_id) rows

  recent_count :
      (window : ℕ)
      → length (filter (is_recent window now) base)
        ≡ count (recent_of domains domain.owner_id window now) rows
  recent_count window =
      length-filter (is_recent window now) base
      ∙ count-filter (is_owned domains domain.owner_id) (is_recent window now) rows

  domain_count :
      length (
        filter
          (λ (m : OutboundMessage). m.domain_id == domain.id)
          (filter (is_recent (hours 24) now) base))
      ≡ count (domain_recent_of domains domain.owner_id domain.id (hours 24) now) rows
  domain_count =
      length-filter (λ (m : OutboundMessage). m.domain_id == domain.id)
        (filter (is_recent (hours 24) now) base)
      ∙ count-filter (is_recent (hours 24) now) (λ (m : OutboundMessage). m.domain_id == domain.id)
          base
      ∙ count-filter (is_owned domains domain.owner_id)
          (λ (m : OutboundMessage). is_recent (hours 24) now m && m.domain_id == domain.id) rows
      ∙ count_const _ _ rows (λ m.
        and_assoc (is_owned domains domain.owner_id m) (is_recent (hours 24) now m)
          (m.domain_id == domain.id))

  between_count :
      (start end : ℕ)
      → length (filter (is_between start end) base)
        ≡ count (between_of domains domain.owner_id start end) rows
  between_count start end =
      length-filter (is_between start end) base
      ∙ count-filter (is_owned domains domain.owner_id) (is_between start end) rows

  -- The check lets a send through exactly when the account is not paused and its sends of the last
  -- minute, of the last 24 hours, of the last 24 hours from the domain and of the calendar month are
  -- each below the limit, where the limit is not zero.
  pub capacity_error-none_iff :
      (capacity_error cal limits domains rows control domain now ≡ none)
      ↔ HasCapacity cal limits domains rows control domain now
  unfolding capacity_error
  capacity_error-none_iff =
      let m = recent_count (minutes 1) in
      let d = recent_count (hours 24) in
      let e = domain_count in
      let f = between_count (month_window cal now).0 (month_window cal now).1 in
      (
        λ h. record {
          running = ground arith;
          minute = ground arith;
          day = ground arith;
          domain_day = ground arith;
          month = ground arith;
        },
        λ h. ground arith,
      )
