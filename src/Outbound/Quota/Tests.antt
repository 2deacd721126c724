-- ===== src/Outbound/Quota/Tests.antt =====
-- The theorems on the quotas at concrete rows, with a calendar of twelve months of thirty days.
use operational_inbox.Common.{
  seconds, ◌⊎◌, inr, none, some, [], ◌∷◌, ◌≡◌, ◌≤◌, ◌<◌, ◌+◌, ◌*◌, ◌/◌, ◌%◌, ◌-◌, ◌↔◌, refl, arith,
  minutes, hours, days, count,
}
use operational_inbox.Samples.{sample_domain, sample_message, sample_control}
use operational_inbox.Outbound.Message.{OutboundMessage}
use operational_inbox.Outbound.Quota.{
  outbound_rate_limited, Limits, capacity_error, capacity_reset_at, is_recent,
}
use operational_inbox.Outbound.Quota.Month.{Calendar, IsGregorian, month_window}
use operational_inbox.Outbound.Quota.Admission.{HasCapacity, capacity_error-none_iff}
use operational_inbox.Outbound.Quota.Window.{
  AreUpTo, crossings, IsAtMost, in_month_of, Sends, start, sent, sends_within_limits, owned_within,
  domain_within,
}
use operational_inbox.Outbound.Quota.Reset.{reset_iff_room}

abbrev toy : Calendar
toy = record {
  year_of = λ t. t / days 360;
  month_of = λ t. t / days 30 % 12 + 1;
  month_start = λ y m. days 360 * y + days 30 * (m - 1);
}

toy-IsGregorian : IsGregorian toy
toy-IsGregorian = record {
  begun = λ t. omega arith;
  ends = λ t. ground arith;
  year_within = λ t u a b. ground arith;
  month_within = λ t u a b. ground arith;
}

abbrev limits : Limits
limits = record { minute = 2; day = 10; domain_day = 10; month = 30 }

abbrev first_row : OutboundMessage
first_row = sample_message 7 (seconds 10)

abbrev second_row : OutboundMessage
second_row = sample_message 9 (seconds 20)

-- The limits of a smaller plan.
abbrev free_limits : Limits
free_limits = record { minute = 1; day = 5; domain_day = 5; month = 10 }

free-AreUpTo : AreUpTo limits free_limits
free-AreUpTo = record {
  minute = inr (omega arith, omega arith);
  day = inr (omega arith, omega arith);
  domain_day = inr (omega arith, omega arith);
  month = inr (omega arith, omega arith);
}

full-AreUpTo : AreUpTo limits limits
full-AreUpTo = record {
  minute = inr (omega arith, omega arith);
  day = inr (omega arith, omega arith);
  domain_day = inr (omega arith, omega arith);
  month = inr (omega arith, omega arith);
}

-- Both rows passed the check a moment before they were made, the second one on a larger plan.
abbrev two_sends : Sends toy limits (sample_domain 3 10 ∷ []) 1 (second_row ∷ first_row ∷ [])
unfolding capacity_error month_window
two_sends =
    sent second_row limits sample_control (sample_domain 3 10) (seconds 19)
      (sent first_row free_limits sample_control (sample_domain 3 10) (seconds 9) start free-AreUpTo
        refl refl (omega arith) refl)
      full-AreUpTo refl refl (omega arith) refl

sends_within_limits_example :
    IsAtMost
      (count
        (owned_within toy limits (sample_domain 3 10 ∷ []) 1 (minutes 1) (seconds 30))
        (second_row ∷ first_row ∷ []))
      2
    × IsAtMost
        (count
          (owned_within toy limits (sample_domain 3 10 ∷ []) 1 (hours 24) (seconds 30))
          (second_row ∷ first_row ∷ []))
        10
    × IsAtMost
        (count
          (domain_within toy limits (sample_domain 3 10 ∷ []) 1 3 (hours 24) (seconds 30))
          (second_row ∷ first_row ∷ []))
        10
    × ((limits.month ≡ 0)
        ⊎ (count
              (in_month_of toy limits (sample_domain 3 10 ∷ []) 1 (seconds 30))
              (second_row ∷ first_row ∷ [])
            ≤ limits.month + crossings toy limits (sample_domain 3 10 ∷ []) 1 two_sends))
sends_within_limits_example =
    sends_within_limits toy limits (sample_domain 3 10 ∷ []) 1 (seconds 30) 3 toy-IsGregorian
      two_sends

-- A third send within the minute is refused.
third_refused :
    capacity_error toy limits
      (sample_domain 3 10 ∷ [])
      (second_row ∷ first_row ∷ [])
      sample_control
      (sample_domain 3 10)
      (seconds 30)
    ≡ some (outbound_rate_limited 2 2 40)
unfolding capacity_error month_window capacity_reset_at
third_refused = refl

capacity_error-none_iff_example :
    (capacity_error toy limits
        (sample_domain 3 10 ∷ [])
        (first_row ∷ [])
        sample_control
        (sample_domain 3 10)
        (seconds 20)
      ≡ none)
    ↔ HasCapacity toy limits
        (sample_domain 3 10 ∷ [])
        (first_row ∷ [])
        sample_control
        (sample_domain 3 10)
        (seconds 20)
capacity_error-none_iff_example =
    capacity_error-none_iff toy limits (sample_domain 3 10 ∷ []) (first_row ∷ []) sample_control
      (sample_domain 3 10) (seconds 20)

reset_iff_room_example :
    (count (is_recent (minutes 1) (seconds 70)) (second_row ∷ first_row ∷ []) < 2)
    ↔ (capacity_reset_at (second_row ∷ first_row ∷ []) 2 2 (minutes 1) (seconds 30) ≤ seconds 70)
reset_iff_room_example =
    reset_iff_room (second_row ∷ first_row ∷ []) 2 (minutes 1) (seconds 30) (seconds 70)
      (omega arith) (omega arith)
