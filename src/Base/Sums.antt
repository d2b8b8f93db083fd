-- ===== src/Base/Sums.antt =====
-- Python's `sum` of integers, and the plain sum that proofs follow.
use mathlib.Core.Path.{◌≡◌, ap, ◌∙◌}
use mathlib.Core.List.{List, [], ◌∷◌, ◌++◌}
use trutina.Base.Int.{ℤ, pos, ◌+ℤ◌, int_laws}

module _ {A : Type 0} (f : A → ℤ) where
  unfoldable pub sum_from : ℤ → List A → ℤ
  sum_from acc [] = acc
  sum_from acc (x ∷ xs) = sum_from (acc +ℤ f x) xs

  -- `sum((f(x) for x in xs), Decimal("0"))`
  unfoldable pub total : List A → ℤ
  unfolding sum_from
  total xs = sum_from (pos 0) xs

  unfoldable pub sum : List A → ℤ
  sum [] = pos 0
  sum (x ∷ xs) = f x +ℤ sum xs

  sum_from-sum : (acc : ℤ) (xs : List A) → sum_from acc xs ≡ acc +ℤ sum xs
  unfolding sum_from sum
  sum_from-sum acc [] = omega int_laws
  sum_from-sum acc (x ∷ xs) = sum_from-sum (acc +ℤ f x) xs ∙ omega int_laws

  pub total-sum : (xs : List A) → total xs ≡ sum xs
  unfolding total
  total-sum xs = sum_from-sum (pos 0) xs ∙ omega int_laws

  pub sum-append : (xs ys : List A) → sum (xs ++ ys) ≡ sum xs +ℤ sum ys
  unfolding sum
  sum-append [] ys = omega int_laws
  sum-append (x ∷ xs) ys = ap (◌+ℤ◌ (f x)) (sum-append xs ys) ∙ omega int_laws
