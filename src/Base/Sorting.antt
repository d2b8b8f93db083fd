-- ===== src/Base/Sorting.antt =====
-- ORDER BY: a stable insertion sort by a Boolean order.
use mathlib.Core.Path.{◌≡◌, refl, ap, ◌∙◌}
use mathlib.Core.Bool.{Bool, true}
use mathlib.Core.Logic.{inl, inr}
use mathlib.Core.List.{List, [], ◌∷◌}
use trutina.Base.Tests.{if◌then◌else◌, Bool-cases}
use trutina.Base.Int.{ℤ, ◌+ℤ◌, int_laws}
use trutina.Base.Sums.{sum}

module _ {A : Type 0} (before : A → A → Bool) where
  unfoldable pub insert_by : A → List A → List A
  insert_by x [] = x ∷ []
  insert_by x (y ∷ ys) = if before x y then x ∷ y ∷ ys else y ∷ insert_by x ys

  unfoldable pub sort_by : List A → List A
  unfolding insert_by
  sort_by [] = []
  sort_by (x ∷ xs) = insert_by x (sort_by xs)

  -- Each element stands before the next.
  abbrev pub Ascending : List A → Type 0
  Ascending [] = Unit
  Ascending (x ∷ []) = Unit
  Ascending (x ∷ y ∷ ys) = (before x y ≡ true) × Ascending (y ∷ ys)

  pub sort_by-Ascending : (xs : List A) → Ascending xs → sort_by xs ≡ xs
  unfolding sort_by
  sort_by-Ascending [] h = refl
  sort_by-Ascending (x ∷ []) h = refl
  sort_by-Ascending (x ∷ y ∷ ys) h = ap (insert_by x) (sort_by-Ascending (y ∷ ys) h.1) ∙ rw h.0

  sum-insert_by : (f : A → ℤ) (x : A) (xs : List A) → sum f (insert_by x xs) ≡ f x +ℤ sum f xs
  unfolding insert_by sum
  sum-insert_by f x [] = refl
  sum-insert_by f x (y ∷ ys) = elim (Bool-cases (before x y)) [
    | inl first ↦ rw first
    | inr later ↦ rw (later, sum-insert_by f x ys) (omega int_laws)
  ]

  pub sum-sort_by : (f : A → ℤ) (xs : List A) → sum f (sort_by xs) ≡ sum f xs
  unfolding sort_by sum
  sum-sort_by f [] = refl
  sum-sort_by f (x ∷ xs) = sum-insert_by f x (sort_by xs) ∙ ap (◌+ℤ◌ (f x)) (sum-sort_by f xs)
