-- ===== src/Common/Sorting.antt =====
-- What holds of a table that is ordered by a number.
use Prim.Native.Nat.{ℕ, zero, suc, ◌+◌, ◌≤◌}
use mathlib.Core.Path.{◌≡◌, refl}
use mathlib.Core.Bool.{Bool, true, false}
use mathlib.Core.Option.{some}
use mathlib.Core.List.{List, [], ◌∷◌}
use native.Mathlib.Omega.{arith}
use operational_inbox.Common.Tests.{leb}
use operational_inbox.Common.Rows.{length, count, get_elem?, insert_by, order_by}
use operational_inbox.Common.Counting.{count-le_length}

module _ {ℓ} {A : Type ℓ} (key : A → ℕ) where
  abbrev pub by_key : A → A → Bool
  by_key a b = leb (key a) (key b)

  abbrev pub AllAbove : ℕ → List A → Type 0
  AllAbove n [] = Unit
  AllAbove n (x ∷ xs) = (n ≤ key x) × AllAbove n xs

  abbrev pub IsOrdered : List A → Type 0
  IsOrdered [] = Unit
  IsOrdered (x ∷ xs) = AllAbove (key x) xs × IsOrdered xs

  above_trans : (m n : ℕ) (xs : List A) → m ≤ n → AllAbove n xs → AllAbove m xs
  above_trans m n [] h a = tt
  above_trans m n (x ∷ xs) h (a, rest) = (omega arith, above_trans m n xs h rest)

  above-insert :
      (n : ℕ) (x : A) (ys : List A) → n ≤ key x → AllAbove n ys → AllAbove n (insert_by by_key x ys)
  above-insert n x [] h a = (h, tt)
  above-insert n x (y ∷ ys) h a = ground (arith, above-insert n x ys h a.1)

  insert-IsOrdered : (x : A) (ys : List A) → IsOrdered ys → IsOrdered (insert_by by_key x ys)
  insert-IsOrdered x [] o = (tt, tt)
  insert-IsOrdered x (y ∷ ys) (a, o) =
      ground
        (arith, insert-IsOrdered x ys o, above-insert (key y) x ys, above_trans (key x) (key y) ys)

  pub order_by-IsOrdered : (xs : List A) → IsOrdered (order_by by_key xs)
  order_by-IsOrdered [] = tt
  order_by-IsOrdered (x ∷ xs) = insert-IsOrdered x (order_by by_key xs) (order_by-IsOrdered xs)

  get_above : (n k : ℕ) (xs : List A) {b : A} → AllAbove n xs → get_elem? xs k ≡ some b → n ≤ key b
  get_above n k [] a e = cc
  get_above n zero (x ∷ xs) a e = ground arith
  get_above n (suc k) (x ∷ xs) a e = get_above n k xs a.1 e

  some_key : (x b : A) → some x ≡ some b → key x ≡ key b
  some_key x b e = cc

  -- A test that fails up to the key of the row at `k` passes on the rows behind it at most.
  pub count_behind :
      (test : A → Bool) (k : ℕ) (xs : List A) {b : A}
      → IsOrdered xs
      → get_elem? xs k ≡ some b
      → ((x : A) → key x ≤ key b → test x ≡ false)
      → count test xs + suc k ≤ length xs
  count_behind test k [] o e fails = cc
  count_behind test zero (x ∷ xs) {b} o e fails =
      ground (arith, fails x, some_key x b e, count-le_length test xs)
  count_behind test (suc k) (x ∷ xs) o e fails =
      ground (arith, fails x (get_above (key x) k xs o.0 e), count_behind test k xs o.1 e fails)

  count_all :
      (test : A → Bool) (n : ℕ) (xs : List A)
      → AllAbove n xs
      → ((x : A) → n ≤ key x → test x ≡ true)
      → count test xs ≡ length xs
  count_all test n [] a h = refl
  count_all test n (x ∷ xs) a h = ground (arith, h x, count_all test n xs a.1 h)

  -- A test that passes from the key of the row at `k` on passes at it and behind it at least.
  pub count_from :
      (test : A → Bool) (k : ℕ) (xs : List A) {b : A}
      → IsOrdered xs
      → get_elem? xs k ≡ some b
      → ((x : A) → key b ≤ key x → test x ≡ true)
      → length xs ≤ count test xs + k
  count_from test k [] o e passes = cc
  count_from test zero (x ∷ xs) {b} o e passes =
      ground (arith, passes x, some_key x b e, count_all test (key x) xs o.0)
  count_from test (suc k) (x ∷ xs) o e passes = ground (arith, count_from test k xs o.1 e passes)
