-- ===== src/Outbound/Workers/AtMostOnce.antt =====
-- However the workers, the events and the owner interleave, SES is called at most once for an
-- outbound message: a queued row, a claim and a call share one unit of permission to send.
use operational_inbox.Common.{
  ◌⊎◌, zero, suc, refl, subst, ==_iff, ℕ, List, [], ◌∷◌, ◌++◌, ◌==◌, ◌≡◌, ◌+◌, ◌≤◌, arith, count,
  inl, inr, Bool-cases, count_mono,
}
use operational_inbox.Outbound.Message.{OutboundMessage}
use operational_inbox.Database.{has_id}
use operational_inbox.Outbound.Workers.Steps.{
  World, adopt, expire, is_expired, IsNew, Step, claim_step, call_step, answer_step,
  die_before_call, die_after_call, event_step, recover_step, control_step, adopt_step, expire_step,
  queue_step, Reach, here, next,
}
use operational_inbox.Outbound.Workers.Claims.{
  queued_of, permission, count-update_le, count-remove_at, count-remove_found, count-append,
  claim_permission,
}
use operational_inbox.Outbound.Workers.Unqueues.{
  finish_permission, recover_permission, event_permission, adopt-Unqueues, expire-Unqueues,
}

queued-le-id :
    (k : ℕ) (rows : List OutboundMessage) → count (queued_of k) rows ≤ count (has_id k) rows
queued-le-id k rows = count_mono (queued_of k) (has_id k) rows (λ x h. ground arith)

queue_permission :
    (k : ℕ) (m : OutboundMessage) (w : World)
    → IsNew m.id w
    → permission k w ≤ 1
    → count (queued_of k) (w.db.outbound ++ m ∷ [])
        + count (has_id k) w.claimed
        + count (λ s. s == k) w.sends
      ≤ 1
queue_permission k m w new h = elim (Bool-cases (m.id == k)) [
  | inl same ↦
      subst
        (λ j.
          count (queued_of j) (w.db.outbound ++ m ∷ [])
            + count (has_id j) w.claimed
            + count (λ s. s == j) w.sends
          ≤ 1)
        ((==_iff m.id k).0 same)
        (ground (
          arith,
          count-append (queued_of m.id) w.db.outbound (m ∷ []),
          queued-le-id m.id w.db.outbound,
        ))
  | inr other ↦ ground (arith, count-append (queued_of k) w.db.outbound (m ∷ []))
]

pub Step-permission : {w v : World} (k : ℕ) → Step w v → permission k w ≤ 1 → permission k v ≤ 1
Step-permission {w} k (claim_step authorize id now) h =
    omega (arith, claim_permission authorize id now k w.db w.claimed)
Step-permission {w} k (call_step i m e) h =
    ground (arith, count-remove_found (has_id k) i w.claimed m e)
Step-permission {w} k (answer_step i now m o e) h = omega (arith, finish_permission now k o m w.db)
Step-permission {w} k (die_before_call i) h = omega (arith, count-remove_at (has_id k) i w.claimed)
Step-permission k (die_after_call i) h = h
Step-permission {w} k (event_step n now m) h = omega (arith, event_permission n now k m w.db)
Step-permission {w} k (recover_step now stale m old) h =
    omega (arith, recover_permission now k m w.db)
Step-permission k (control_step controls) h = h
Step-permission {w} k (adopt_step id now mode) h = omega (
  arith,
  count-update_le (queued_of k) (has_id id) (adopt mode now) w.db.outbound
      (adopt-Unqueues mode now k),
)
Step-permission {w} k (expire_step d c now) h = omega (
  arith,
  count-update_le (queued_of k) (is_expired d c) (expire now) w.db.outbound (expire-Unqueues now k),
)
Step-permission {w} k (queue_step m new) h = queue_permission k m w new h

Reach-permission : {w v : World} (k : ℕ) → permission k w ≤ 1 → Reach w v → permission k v ≤ 1
Reach-permission k h here = h
Reach-permission k h (next r st) = Step-permission k st (Reach-permission k h r)

never_or_gone : (a b : ℕ) → (1 ≤ a → b ≡ 0) → (a ≡ 0) ⊎ (b ≡ 0)
never_or_gone zero b h = inl refl
never_or_gone (suc a) b h = inr (h (omega arith))

-- From a state in which an ID has one row at most and no worker is active, every interleaving of
-- claims, calls, answers, deaths of workers, delivery events, recoveries, pauses, adoptions,
-- expiries and new messages calls SES at most once for the ID; and once it has been called, no row
-- of the ID is queued any more.
pub sent_at_most_once :
    {w v : World} (k : ℕ)
    → count (has_id k) w.db.outbound ≤ 1
    → w.claimed ≡ []
    → w.sends ≡ []
    → Reach w v
    → (count (λ s. s == k) v.sends ≤ 1)
      × ((count (λ s. s == k) v.sends ≡ 0) ⊎ (count (queued_of k) v.db.outbound ≡ 0))
sent_at_most_once {w} {v} k one idle unsent r =
    let start : permission k w ≤ 1 =
      rw (idle, unsent) (omega (arith, queued-le-id k w.db.outbound)) in
    let now = Reach-permission k start r in
    (omega arith, never_or_gone (count (λ s. s == k) v.sends) _ (λ called. omega arith))
