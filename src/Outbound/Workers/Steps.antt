-- ===== src/Outbound/Workers/Steps.antt =====
-- The steps. A worker that has claimed a message calls SES for it and then records the answer; it
-- may die before or after the call. `sends` has the ID of a message for every call of SES.
use operational_inbox.Common.{
  ℕ, zero, suc, Bool, true, Option, none, some, String, List, [], ◌∷◌, ◌++◌, ◌==◌, ◌&&◌, ◌≡◌, leb,
  count, get_elem?, update_where, if◌then◌else◌,
}
use operational_inbox.Outbound.Message.{
  OutboundMessage, OutboundControl, AuthorizationMode, agent_policy, failed, is_queued,
  is_submitting,
}
use operational_inbox.Outbound.Submission.{
  SesOutcome, claim, finish, is_stale_submission, recover_submission,
}
use operational_inbox.Outbound.Delivery.{Notice, apply_event}
use operational_inbox.Database.{Database, has_id, change_outbound}

pub record World : Type 0 where
  pub db : Database
  -- Workers that have claimed a message and not called SES yet.
  pub claimed : List OutboundMessage
  -- Workers that wait for the answer of SES, or have it.
  pub called : List OutboundMessage
  pub sends : List ℕ

abbrev pub remove_at {ℓ} : {A : Type ℓ} → ℕ → List A → List A
remove_at k [] = []
remove_at zero (x ∷ xs) = xs
remove_at (suc k) (x ∷ xs) = x ∷ remove_at k xs

-- A worker with what its claim gave it.
abbrev pub with_claim : Option OutboundMessage → List OutboundMessage → List OutboundMessage
with_claim none ms = ms
with_claim (some m) ms = m ∷ ms

-- `_adopt_agent_send` of inbox/services/drafts.py, on the row.
abbrev pub adopt : AuthorizationMode → (now : ℕ) → OutboundMessage → OutboundMessage
adopt mode now m = elim m.authorization_mode [
  | agent_policy ↦
      if is_queued m.status then record m { authorization_mode = mode; updated_at = now } else m
  | _ ↦ m
]

-- A message that `purge_retention` of inbox/services/retention.py expires.
abbrev pub is_expired : (domain cutoff : ℕ) → OutboundMessage → Bool
is_expired domain cutoff m =
    m.domain_id == domain
    && leb m.created_at cutoff
    && (if is_queued m.status then true else is_submitting m.status)

abbrev pub expire : (now : ℕ) → OutboundMessage → OutboundMessage
expire now m = record m {
  status = failed;
  failed_at = some now;
  error_code = "retention_expired";
  error_message = "The approved content expired before submission.";
}

-- The ID is in no row, with no worker and in no call: a newly drawn UUID.
pub record IsNew (k : ℕ) (w : World) : Type 0 where
  pub no_row : count (has_id k) w.db.outbound ≡ 0
  pub no_claim : count (has_id k) w.claimed ≡ 0
  pub no_send : count (λ s. s == k) w.sends ≡ 0

pub data Step (w : World) : World → Type 0 where
  claim_step :
      (authorize : Database → OutboundMessage → Option String) (k now : ℕ)
      → Step w (record w {
        db = (claim authorize k now w.db).0;
        claimed = with_claim (claim authorize k now w.db).1 w.claimed;
      })
  call_step :
      (k : ℕ) (m : OutboundMessage)
      → get_elem? w.claimed k ≡ some m
      → Step w (record w {
        claimed = remove_at k w.claimed;
        called = m ∷ w.called;
        sends = m.id ∷ w.sends;
      })
  answer_step :
      (k now : ℕ) (m : OutboundMessage) (outcome : SesOutcome)
      → get_elem? w.called k ≡ some m
      → Step w (record w { db = (finish now outcome m w.db).0; called = remove_at k w.called })
  die_before_call : (k : ℕ) → Step w (record w { claimed = remove_at k w.claimed })
  die_after_call : (k : ℕ) → Step w (record w { called = remove_at k w.called })
  event_step :
      (n : Notice) (now : ℕ) (snapshot : OutboundMessage)
      → Step w (record w { db = (apply_event n now snapshot w.db).0 })
  -- One round of `recover_stale_submissions`; the row was read before, at any earlier time.
  recover_step :
      (now stale_after_minutes : ℕ) (read : OutboundMessage)
      → is_stale_submission now stale_after_minutes read ≡ true
      → Step w (record w { db = recover_submission now read w.db })
  control_step :
      (controls : List OutboundControl)
      → Step w (record w { db = record w.db { controls = controls } })
  adopt_step :
      (k now : ℕ) (mode : AuthorizationMode)
      → Step w (record w { db = change_outbound k (adopt mode now) w.db })
  expire_step :
      (domain cutoff now : ℕ)
      → Step w (record w {
        db = record w.db {
          outbound = update_where (is_expired domain cutoff) (expire now) w.db.outbound;
        };
      })
  queue_step :
      (m : OutboundMessage)
      → IsNew m.id w
      → Step w (record w { db = record w.db { outbound = w.db.outbound ++ m ∷ [] } })

pub data Reach (w : World) : World → Type 0 where
  here : Reach w w
  next : {u v : World} → Reach w u → Step u v → Reach w v
