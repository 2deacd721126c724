-- ===== src/Outbound/Quota/Month.antt =====
-- The calendar month in UTC: `_month_window` of inbox/services/outbound.py. Python's `datetime`
-- is a parameter: the year and month of a moment, and the first moment of a month.
use operational_inbox.Common.{ℕ, ◌+◌, ◌≤◌, ◌<◌, ◌≡◌, ◌==◌, if◌then◌else◌, Bool-cases, inl, inr}

pub record Calendar : Type 0 where
  pub year_of : ℕ → ℕ
  pub month_of : ℕ → ℕ
  -- `datetime(year, month, 1, tzinfo=UTC)`
  pub month_start : (year month : ℕ) → ℕ

-- The first moment of the month, and that of the next: a December ends with its year.
unfoldable pub month_window : Calendar → ℕ → ℕ × ℕ
month_window cal now =
    let start = cal.month_start (cal.year_of now) (cal.month_of now) in
    if cal.month_of now == 12
    then (start, cal.month_start (cal.year_of now + 1) 1)
    else (start, cal.month_start (cal.year_of now) (cal.month_of now + 1))

-- What `datetime` documents: a month lasts up to the first of the next one, and a moment within a
-- month has that year and month.
pub record IsGregorian (cal : Calendar) : Type 0 where
  pub begun : (t : ℕ) → cal.month_start (cal.year_of t) (cal.month_of t) ≤ t
  pub ends :
      (t : ℕ)
      → t < (
          if cal.month_of t == 12
          then cal.month_start (cal.year_of t + 1) 1
          else cal.month_start (cal.year_of t) (cal.month_of t + 1))
  pub year_within :
      (t u : ℕ)
      → cal.month_start (cal.year_of t) (cal.month_of t) ≤ u
      → u < (
          if cal.month_of t == 12
          then cal.month_start (cal.year_of t + 1) 1
          else cal.month_start (cal.year_of t) (cal.month_of t + 1))
      → cal.year_of u ≡ cal.year_of t
  pub month_within :
      (t u : ℕ)
      → cal.month_start (cal.year_of t) (cal.month_of t) ≤ u
      → u < (
          if cal.month_of t == 12
          then cal.month_start (cal.year_of t + 1) 1
          else cal.month_start (cal.year_of t) (cal.month_of t + 1))
      → cal.month_of u ≡ cal.month_of t

module _ (cal : Calendar) (g : IsGregorian cal) where
  -- A moment lies in its own month.
  pub month_window_bounds : (t : ℕ) → ((month_window cal t).0 ≤ t) × (t < (month_window cal t).1)
  unfolding month_window
  month_window_bounds t = elim (Bool-cases (cal.month_of t == 12)) [
    | inl e ↦ (rw e (g.begun t), rw e (rw e at (g.ends t)))
    | inr e ↦ (rw e (g.begun t), rw e (rw e at (g.ends t)))
  ]

  -- With a calendar as `datetime` documents it, a moment within the month window of another moment
  -- has that same window.
  pub month_window-within :
      (t u : ℕ)
      → (month_window cal t).0 ≤ u
      → u < (month_window cal t).1
      → month_window cal u ≡ month_window cal t
  unfolding month_window
  month_window-within t u h k = elim (Bool-cases (cal.month_of t == 12)) [
    | inl e ↦
        let y = g.year_within t u (rw e at h) (rw e (rw e at k)) in
        let m = g.month_within t u (rw e at h) (rw e (rw e at k)) in rw (m, y)
    | inr e ↦
        let y = g.year_within t u (rw e at h) (rw e (rw e at k)) in
        let m = g.month_within t u (rw e at h) (rw e (rw e at k)) in rw (m, y)
  ]
