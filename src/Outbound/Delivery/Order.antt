-- ===== src/Outbound/Delivery/Order.antt =====
-- What a sequence of delivery events leaves as the state of a message.
use operational_inbox.Common.{
  Bool, true, false, List, [], ◌∷◌, ◌≡◌, refl, arith, any, if◌then◌else◌,
}
use operational_inbox.Outbound.Message.{
  OutboundState, queued, submitting, accepted, delivered, failed, unknown, bounced, complained,
}
use operational_inbox.Outbound.Delivery.{
  EventType, delivery, bounce, complaint, reject, rendering_failure, next_state, state_after,
}

-- The states that the events lead to, each read after the one before was applied.
pub after_events : List EventType → OutboundState → OutboundState
after_events [] s = s
after_events (e ∷ es) s = after_events es (state_after (next_state e s) s)

abbrev pub is_complaint : EventType → Bool
is_complaint complaint = true
is_complaint _ = false

abbrev pub is_bounce : EventType → Bool
is_bounce bounce = true
is_bounce _ = false

-- The first event that says delivered or rejected.
abbrev pub first_verdict : List EventType → OutboundState → OutboundState
first_verdict [] s = s
first_verdict (delivery ∷ es) s = delivered
first_verdict (reject ∷ es) s = failed
first_verdict (rendering_failure ∷ es) s = failed
first_verdict (_ ∷ es) s = first_verdict es s

-- A message of which nothing is known from events.
abbrev pub is_open : OutboundState → Bool
is_open queued = true
is_open submitting = true
is_open accepted = true
is_open unknown = true
is_open _ = false

-- The gravest report, whatever the order: a complaint, else a bounce, else the first verdict.
abbrev pub gravest : List EventType → OutboundState → OutboundState
gravest es s =
    if any is_complaint es
    then complained
    else if any is_bounce es
    then bounced
    else first_verdict es s

after_complained : (es : List EventType) → after_events es complained ≡ complained
unfolding after_events next_state
after_complained [] = refl
after_complained (e ∷ es) = ground (arith, after_complained es)

after_bounced :
    (es : List EventType)
    → after_events es bounced ≡ (if any is_complaint es then complained else bounced)
unfolding after_events next_state
after_bounced [] = refl
after_bounced (e ∷ es) = ground (arith, after_complained es, after_bounced es)

after_delivered :
    (es : List EventType)
    → after_events es delivered ≡ (
        if any is_complaint es then complained else if any is_bounce es then bounced else delivered)
unfolding after_events next_state
after_delivered [] = refl
after_delivered (e ∷ es) = ground (arith, after_complained es, after_bounced es, after_delivered es)

after_failed :
    (es : List EventType)
    → after_events es failed
      ≡ (if any is_complaint es then complained else if any is_bounce es then bounced else failed)
unfolding after_events next_state
after_failed [] = refl
after_failed (e ∷ es) = ground (arith, after_complained es, after_bounced es, after_failed es)

-- For a message without a verdict, any sequence of delivery events ends in `complained` if it has a
-- complaint, else in `bounced` if it has a bounce, else in the first of delivered and failed that
-- is reported, else in the state that it had.
pub after_events-gravest :
    (es : List EventType) (s : OutboundState) → is_open s ≡ true → after_events es s ≡ gravest es s
unfolding after_events next_state
after_events-gravest [] s h = refl
after_events-gravest (e ∷ es) s h = ground (
  arith,
  after_complained es,
  after_bounced es,
  after_delivered es,
  after_failed es,
  after_events-gravest es s h,
)
