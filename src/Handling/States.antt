-- ===== src/Handling/States.antt =====
-- `class ConversationHandling` and `class HandlingRun` of inbox/models.py, and `interrupt_handling` of
-- inbox/services/handling.py. Classifications and reasons are left out.
use operational_inbox.Common.{
  ℕ, Bool, Option, none, List, ◌==◌, ◌&&◌, ◌+◌, not, update_where, if◌then◌else◌,
}

pub data HandlingStatus : Type 0 where
  pending running waiting review done manual : HandlingStatus

pub record HandlingState : Type 0 where
  pub conversation_id : ℕ
  pub status : HandlingStatus
  pub generation : ℕ
  pub taken_over : Bool
  pub explicit_handoff : Bool
  pub context_message : ℕ
  pub followup_at : Option ℕ
  pub lease_until : Option ℕ
  pub lease_token : Option ℕ

-- `states.update(…)`, on a row that is not taken over.
unfoldable pub interrupt_row : (takeover : Bool) → HandlingState → HandlingState
interrupt_row takeover s = record s {
  generation = s.generation + 1;
  taken_over = takeover;
  status = if takeover then manual else review;
  followup_at = none;
}

unfoldable pub interrupt_handling :
    (conversation : ℕ) (takeover : Bool) → List HandlingState → List HandlingState
interrupt_handling conversation takeover =
    update_where (λ s. s.conversation_id == conversation && not s.taken_over)
      (interrupt_row takeover)
