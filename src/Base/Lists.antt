-- ===== src/Base/Lists.antt =====
-- Lists measured by native numbers, and predicates on them by recursion.
use Prim.Native.Nat.{ℕ, suc, ◌+◌}
use mathlib.Core.Path.{◌≡◌, refl}
use mathlib.Core.Bool.{Bool, true, false}
use mathlib.Core.Option.{Option, none, some}
use mathlib.Core.List.{List, [], ◌∷◌, ◌++◌}
use native.Mathlib.Omega.{arith}
use mathlib.Core.Logic.{inl, inr}
use trutina.Base.Tests.{if◌then◌else◌, Bool-cases}

module _ {ℓ} {A : Type ℓ} where
  abbrev pub length : List A → ℕ
  length [] = 0
  length (x ∷ xs) = suc (length xs)

  -- The elements that pass a Boolean test.
  abbrev pub select : (A → Bool) → List A → List A
  select p [] = []
  select p (x ∷ xs) = if p x then x ∷ select p xs else select p xs

  abbrev pub any : (A → Bool) → List A → Bool
  any p [] = false
  any p (x ∷ xs) = if p x then true else any p xs

  pub length-append : (xs ys : List A) → length (xs ++ ys) ≡ length xs + length ys
  length-append [] ys = omega arith
  length-append (x ∷ xs) ys = omega (arith, length-append xs ys)

  pub select-append :
      (p : A → Bool) (xs ys : List A) → select p (xs ++ ys) ≡ select p xs ++ select p ys
  select-append p [] ys = refl
  select-append p (x ∷ xs) ys = ground (arith, select-append p xs ys)

  pub any-append-false :
      (p : A → Bool) (xs ys : List A)
      → any p xs ≡ false
      → any p ys ≡ false
      → any p (xs ++ ys) ≡ false
  any-append-false p [] ys h k = k
  any-append-false p (x ∷ xs) ys h k = ground (arith, any-append-false p xs ys)

module _ {ℓ κ} {A : Type ℓ} where
  abbrev pub All : (A → Type κ) → List A → Type κ
  All P [] = Unit
  All P (x ∷ xs) = P x × All P xs

  pub All-append : (P : A → Type κ) (xs ys : List A) → All P xs → All P ys → All P (xs ++ ys)
  All-append P [] ys hx hy = hy
  All-append P (x ∷ xs) ys hx hy = (hx.0, All-append P xs ys hx.1 hy)

module _ {ℓ} {A : Type ℓ} where
  -- The first element that passes a test.
  abbrev pub find : (A → Bool) → List A → Option A
  find p [] = none
  find p (x ∷ xs) = if p x then some x else find p xs

  -- No element clashes with one before it.
  abbrev pub Distinct : (A → A → Bool) → List A → Type 0
  Distinct clash [] = Unit
  Distinct clash (x ∷ xs) = (any (λ y. clash y x) xs ≡ false) × Distinct clash xs

  pub select-none : (p : A → Bool) (xs : List A) → any p xs ≡ false → select p xs ≡ []
  select-none p [] h = refl
  select-none p (x ∷ xs) h = ground (arith, select-none p xs)

  pub find-none : (p : A → Bool) (xs : List A) → any p xs ≡ false → find p xs ≡ none
  find-none p [] h = refl
  find-none p (x ∷ xs) h = ground (arith, find-none p xs)

  pub find-any :
      (p : A → Bool) (xs : List A) → any p xs ≡ true → (x : A) × (find p xs ≡ some x) × (p x ≡ true)
  find-any p [] h = cc
  find-any p (x ∷ xs) h = elim (Bool-cases (p x)) [
    | inl here ↦ (x, rw here, here)
    | inr there ↦
        let (y, found, passes) = find-any p xs (rw there at h) in (y, rw there found, passes)
  ]

  pub find-some : (p : A → Bool) (xs : List A) (y : A) → find p xs ≡ some y → p y ≡ true
  find-some p [] y h = cc
  find-some p (x ∷ xs) y h = ground (arith, find-some p xs y)

  pub find-append-none :
      (p : A → Bool) (xs ys : List A) → find p xs ≡ none → find p (xs ++ ys) ≡ find p ys
  find-append-none p [] ys h = refl
  find-append-none p (x ∷ xs) ys h = ground (arith, find-append-none p xs ys)

  pub find-append-some :
      (p : A → Bool) (xs ys : List A) (y : A) → find p xs ≡ some y → find p (xs ++ ys) ≡ some y
  find-append-some p [] ys y h = cc
  find-append-some p (x ∷ xs) ys y h = ground (arith, find-append-some p xs ys y)

  pub any-append :
      (p : A → Bool) (xs ys : List A) → any p (xs ++ ys) ≡ (if any p xs then true else any p ys)
  any-append p [] ys = refl
  any-append p (x ∷ xs) ys = ground (arith, any-append p xs ys)

  -- To add an element at the end that clashes with none, in the way round that `Distinct` reads.
  pub Distinct-append :
      (clash : A → A → Bool) (xs : List A) (y : A)
      → Distinct clash xs
      → All (λ x. clash y x ≡ false) xs
      → Distinct clash (xs ++ y ∷ [])
  Distinct-append clash [] y d h = (refl, tt)
  Distinct-append clash (x ∷ xs) y d h = (
    any-append-false (λ z. clash z x) xs (y ∷ []) d.0 (ground arith),
    Distinct-append clash xs y d.1 h.1,
  )

  pub All-any : (p : A → Bool) (xs : List A) → any p xs ≡ false → All (λ x. p x ≡ false) xs
  All-any p [] h = tt
  All-any p (x ∷ xs) h = ground (arith, All-any p xs)
