-- ===== src/Outbound/Quota.antt =====
-- The sending quotas: `require_outbound_capacity` of inbox/services/outbound.py and its helpers.
-- The counts run over the rolling minute, the rolling day and the calendar month. `now - w < t`
-- is written `now < t + w`, which is the same over the integers.
pub mod Month
pub mod Window
pub mod Admission
pub mod Reset
mod Tests
use operational_inbox.Common.{
  ℕ, Bool, true, false, Option, none, some, List, [], ◌∷◌, ◌++◌, ◌==◌, ◌&&◌, ◌+◌, ◌-◌, ◌/◌, max,
  ltb, leb, any, find, filter, length, get_elem?, order_by, if◌then◌else◌, minutes, hours,
}
use operational_inbox.Settings.{Settings}
use operational_inbox.Accounts.{Domain, User, BillingProfile}
use operational_inbox.Accounts.Entitlements.{for_user}
use operational_inbox.Outbound.Message.{OutboundMessage, OutboundControl}
use Month.{Calendar, month_window}

pub record Limits : Type 0 where
  pub minute : ℕ
  pub day : ℕ
  pub domain_day : ℕ
  pub month : ℕ

-- The errors that the check raises, with the parameters of `_quota_error`.
pub data QuotaError : Type 0 where
  outbound_paused : QuotaError
  outbound_rate_limited : (used limit retry_after : ℕ) → QuotaError
  outbound_account_limit : (used limit reset_at : ℕ) → QuotaError
  outbound_domain_limit : (used limit reset_at : ℕ) → QuotaError
  outbound_monthly_limit : (used limit reset_at : ℕ) → QuotaError

unfoldable pub outbound_limits : Settings → List BillingProfile → User → Limits
unfolding for_user
outbound_limits s profiles user =
    if (for_user s profiles user).is_pro
    then record {
      minute = s.outbound_rate_limit_per_minute;
      day = s.outbound_daily_account_limit;
      domain_day = s.outbound_daily_domain_limit;
      month = s.outbound_monthly_account_limit;
    }
    else record {
      minute = s.free_outbound_rate_limit_per_minute;
      day = s.free_outbound_daily_account_limit;
      domain_day = s.free_outbound_daily_domain_limit;
      month = s.free_outbound_monthly_account_limit;
    }

-- `order_by("created_at")`
abbrev pub created_first : OutboundMessage → OutboundMessage → Bool
created_first a b = leb a.created_at b.created_at

-- When enough of the counted rows have left the window. `max(0, used - limit)` is `-` on ℕ.
unfoldable pub capacity_reset_at : List OutboundMessage → (used limit window now : ℕ) → ℕ
capacity_reset_at rows used limit window now =
    elim (get_elem? (order_by created_first rows) (used - limit)) [
      | none ↦ now + window
      | some blocking ↦ blocking.created_at + window
    ]

-- The row that is locked, and the table, to which a missing row is added.
unfoldable pub get_outbound_control :
    ℕ → List OutboundControl → List OutboundControl × OutboundControl
get_outbound_control user controls =
    elim (find (λ (c : OutboundControl). c.user_id == user) controls) [
      | some c ↦ (controls, c)
      | none ↦
          let c : OutboundControl = record {
            user_id = user;
            is_paused = false;
            paused_at = none;
          } in
          (controls ++ c ∷ [], c)
    ]

-- `OutboundMessage.objects.filter(domain__owner=user)`
abbrev pub is_owned : List Domain → ℕ → OutboundMessage → Bool
is_owned domains owner m = any (λ (d : Domain). d.id == m.domain_id && d.owner_id == owner) domains

-- `filter(created_at__gt=now - window)`
abbrev pub is_recent : (window now : ℕ) → OutboundMessage → Bool
is_recent window now m = ltb now (m.created_at + window)

-- `filter(created_at__gte=start, created_at__lt=end)`
abbrev pub is_between : (start end : ℕ) → OutboundMessage → Bool
is_between start end m = leb start m.created_at && ltb m.created_at end

-- `limits[…] > 0 and used >= limits[…]`
abbrev pub is_exhausted : (used limit : ℕ) → Bool
is_exhausted used limit = ltb 0 limit && leb limit used

-- `max(1, ceil((reset_at - now).total_seconds()))`
abbrev pub retry_seconds : (reset_at now : ℕ) → ℕ
retry_seconds reset_at now = max 1 ((reset_at - now + 999_999) / 1_000_000)

-- The checks of `require_outbound_capacity` in their order, the control row being locked.
unfoldable pub capacity_error :
    Calendar
    → Limits
    → List Domain
    → List OutboundMessage
    → OutboundControl
    → Domain
    → ℕ
    → Option QuotaError
unfolding capacity_reset_at month_window
capacity_error cal limits domains rows control domain now =
    let base = filter (is_owned domains domain.owner_id) rows in
    let minute = filter (is_recent (minutes 1) now) base in
    let day = filter (is_recent (hours 24) now) base in
    let domain_day = filter (λ (m : OutboundMessage). m.domain_id == domain.id) day in
    let (month_start, month_reset_at) = month_window cal now in
    let month = filter (is_between month_start month_reset_at) base in
    if control.is_paused
    then some outbound_paused
    else if is_exhausted (length minute) limits.minute
    then some (
        outbound_rate_limited (length minute) limits.minute (
          retry_seconds (capacity_reset_at minute (length minute) limits.minute (minutes 1) now)
            now))
    else if is_exhausted (length day) limits.day
    then some (
        outbound_account_limit (length day) limits.day
          (capacity_reset_at day (length day) limits.day (hours 24) now))
    else if is_exhausted (length domain_day) limits.domain_day
    then some (
        outbound_domain_limit (length domain_day) limits.domain_day
          (capacity_reset_at domain_day (length domain_day) limits.domain_day (hours 24) now))
    else if is_exhausted (length month) limits.month
    then some (outbound_monthly_limit (length month) limits.month month_reset_at)
    else none

-- One transaction: the control row is created if it is missing, and is there afterwards only if
-- no check raised.
unfoldable pub require_outbound_capacity :
    Calendar
    → Settings
    → List BillingProfile
    → List Domain
    → List OutboundMessage
    → User
    → Domain
    → ℕ
    → List OutboundControl
    → List OutboundControl × Option QuotaError
unfolding get_outbound_control outbound_limits capacity_error
require_outbound_capacity cal s profiles domains rows owner domain now controls =
    let (locked, control) = get_outbound_control owner.id controls in
    elim (capacity_error cal (outbound_limits s profiles owner) domains rows control domain now) [
      | none ↦ (locked, none)
      | some e ↦ (controls, some e)
    ]
