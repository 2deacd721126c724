-- ===== src/Outbound/Quota/Reset.antt =====
-- `_capacity_reset_at`: the moment that an exhausted quota reports is the first at which the rows
-- counted leave room again.
use operational_inbox.Common.{
  ℕ, suc, some, List, ◌+◌, ◌-◌, ◌≤◌, ◌<◌, ◌≡◌, refl, ◌↔◌, arith, count, length, get_elem?, order_by,
  inl, inr, order_by-IsOrdered, count_behind, count_from, count-order_by, length-order_by,
  Bool-cases, leb, [], ◌∷◌, zero,
}
use operational_inbox.Outbound.Message.{OutboundMessage}
use operational_inbox.Outbound.Quota.{capacity_reset_at, is_recent, created_first}

abbrev created : OutboundMessage → ℕ
created m = m.created_at

get_elem?-some :
    (k : ℕ) (xs : List OutboundMessage)
    → k < length xs
    → (m : OutboundMessage) × (get_elem? xs k ≡ some m)
get_elem?-some k [] h = elim h [ ]
get_elem?-some zero (x ∷ xs) h = (x, refl)
get_elem?-some (suc k) (x ∷ xs) h = get_elem?-some k xs (omega arith)

-- At a moment `t` fewer than `limit` of the counted rows are within the window exactly when the
-- reported reset time has come, if the limit is positive and reached.
pub reset_iff_room :
    (rows : List OutboundMessage) (limit window now t : ℕ)
    → 0 < limit
    → limit ≤ length rows
    → (count (is_recent window t) rows < limit)
      ↔ (capacity_reset_at rows (length rows) limit window now ≤ t)
unfolding capacity_reset_at
reset_iff_room rows limit window now t pos full =
    let sorted = order_by created_first rows in
    let k = length rows - limit in
    let size = length-order_by created_first rows in
    let same = count-order_by created_first (is_recent window t) rows in
    let ordered = order_by-IsOrdered created rows in
    let (m, at_k) = get_elem?-some k sorted (omega arith) in
    rw (at_k, capacity_reset_at)
      (
        λ room. elim (Bool-cases (leb (m.created_at + window) t)) [
          | inl come ↦ ground arith
          | inr early ↦ absurd (
              omega (
                arith,
                size,
                same,
                count_from created (is_recent window t) k sorted ordered at_k
                    (λ x later. ground arith),
              ))
        ],
        λ passed. omega (
          arith,
          size,
          same,
          count_behind created (is_recent window t) k sorted ordered at_k
              (λ x sooner. ground arith),
        ),
      )
