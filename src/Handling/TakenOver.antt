-- ===== src/Handling/TakenOver.antt =====
-- What the agent does with a conversation that a person has taken over (inbox/services/handling.py).
use operational_inbox.Common.{Bool, true, false, none, some, ◌≡◌}
use operational_inbox.Handling.Runs.{Thread}
use operational_inbox.Handling.Moves.{Move, control_move}

abbrev pub is_taken : Thread → Bool
is_taken t = elim t.state [ none ↦ false | some s ↦ s.taken_over ]

abbrev Quiet : Thread → Thread → Type 0
Quiet t t' = (is_taken t' ≡ true) × (t'.replies ≡ t.replies)

abbrev pub is_handoff : Move → Bool
is_handoff (control_move conversation run handoff v) = handoff
is_handoff _ = false
