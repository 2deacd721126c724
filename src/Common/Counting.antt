-- ===== src/Common/Counting.antt =====
-- Lemmas on filters, counts and updates of tables.
use Prim.Native.Nat.{suc, ◌≤◌}
use mathlib.Core.Path.{◌≡◌, refl, ◌∙◌}
use mathlib.Core.Bool.{Bool, true, ◌&&◌}
use mathlib.Core.List.{List, [], ◌∷◌}
use native.Mathlib.Omega.{arith}
use operational_inbox.Common.Rows.{filter, length, count, insert_by, order_by}

module _ {ℓ} {A : Type ℓ} where
  pub count-le_length : (test : A → Bool) (xs : List A) → count test xs ≤ length xs
  count-le_length test [] = omega arith
  count-le_length test (x ∷ xs) = ground (arith, count-le_length test xs)

  -- A weaker test counts at least as many.
  pub count_mono :
      (p q : A → Bool) (xs : List A) → ((x : A) → p x ≡ true → q x ≡ true) → count p xs ≤ count q xs
  count_mono p q [] h = omega arith
  count_mono p q (x ∷ xs) h = ground (arith, h x, count_mono p q xs h)

  pub length-insert_by :
      (before : A → A → Bool) (x : A) (ys : List A)
      → length (insert_by before x ys) ≡ suc (length ys)
  length-insert_by before x [] = refl
  length-insert_by before x (y ∷ ys) = ground (arith, length-insert_by before x ys)

  pub count-insert_by :
      (before : A → A → Bool) (test : A → Bool) (x : A) (ys : List A)
      → count test (insert_by before x ys) ≡ count test (x ∷ ys)
  count-insert_by before test x [] = refl
  count-insert_by before test x (y ∷ ys) = ground (arith, count-insert_by before test x ys)

  pub count-order_by :
      (before : A → A → Bool) (test : A → Bool) (xs : List A)
      → count test (order_by before xs) ≡ count test xs
  count-order_by before test [] = refl
  count-order_by before test (x ∷ xs) =
      count-insert_by before test x (order_by before xs) ∙ counted (count-order_by before test xs)
    where
      counted :
          count test (order_by before xs) ≡ count test xs
          → count test (x ∷ order_by before xs) ≡ count test (x ∷ xs)
      counted h = ground arith

  pub count_const : (p q : A → Bool) (xs : List A) → ((x : A) → p x ≡ q x) → count p xs ≡ count q xs
  count_const p q [] h = refl
  count_const p q (x ∷ xs) h = rw (h x) (ground (arith, count_const p q xs h))

  pub count-filter :
      (p q : A → Bool) (xs : List A) → count q (filter p xs) ≡ count (λ x. p x && q x) xs
  count-filter p q [] = refl
  count-filter p q (x ∷ xs) = ground (arith, count-filter p q xs)

  pub length-filter : (p : A → Bool) (xs : List A) → length (filter p xs) ≡ count p xs
  length-filter p [] = refl
  length-filter p (x ∷ xs) = ground (arith, length-filter p xs)

  pub length-order_by :
      (before : A → A → Bool) (xs : List A) → length (order_by before xs) ≡ length xs
  length-order_by before [] = refl
  length-order_by before (x ∷ xs) =
      omega (arith, length-order_by before xs, length-insert_by before x (order_by before xs))
