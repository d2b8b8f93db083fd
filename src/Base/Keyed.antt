-- ===== src/Base/Keyed.antt =====
-- Lists whose elements have a text for a key: the rows under a unique constraint.
use mathlib.Core.Path.{◌≡◌, refl}
use mathlib.Core.Logic.{inl, inr}
use mathlib.Core.Bool.{Bool, true, false}
use mathlib.Core.Option.{Option, none, some}
use mathlib.Core.List.{List, [], ◌∷◌, ◌++◌}
use native.Mathlib.Omega.{arith}
use trutina.Base.Tests.{Bool-cases}
use trutina.Base.Lists.{select, any, find, All-any, Distinct, Distinct-append, select-none}
use trutina.Base.Strings.{Text, same}

pub same_refl : (a : Text) → same a a ≡ true
same_refl a = ground arith

pub same→eq : (a b : Text) → same a b ≡ true → a ≡ b
same→eq a b h = ground arith

pub same_sym : (a b : Text) → same a b ≡ same b a
same_sym a b = ground arith

abbrev pub to_list : {A : Type 0} → Option A → List A
to_list none = []
to_list (some a) = a ∷ []

module _ {A : Type 0} where
  pub any-select-false :
      (p q : A → Bool) (xs : List A) → any p xs ≡ false → any p (select q xs) ≡ false
  any-select-false p q [] h = refl
  any-select-false p q (x ∷ xs) h = ground (arith, any-select-false p q xs)

module _ {A : Type 0} (key : A → Text) where
  abbrev pub Unique : List A → Type 0
  Unique = Distinct (λ y x. same (key y) (key x))

  -- Under a unique constraint a lookup by key selects the one row that it finds.
  pub select-find :
      (k : Text) (xs : List A)
      → Unique xs
      → select (λ x. same (key x) k) xs ≡ to_list (find (λ x. same (key x) k) xs)
  select-find k [] d = refl
  select-find k (x ∷ xs) d = elim (Bool-cases (same (key x) k)) [
    | inl here ↦
        let e = same→eq (key x) k here in
        rw here (rw (select-none (λ y. same (key y) k) xs (rw e at d.0)))
    | inr other ↦ rw other (select-find k xs d.1)
  ]

  pub Unique-append :
      (xs : List A) (y : A)
      → Unique xs
      → any (λ x. same (key x) (key y)) xs ≡ false
      → Unique (xs ++ y ∷ [])
  Unique-append xs y d h =
      Distinct-append (λ a b. same (key a) (key b)) xs y d
        (All-any (λ x. same (key y) (key x)) xs (any-sym xs h))
    where
      any-sym :
          (xs : List A)
          → any (λ x. same (key x) (key y)) xs ≡ false
          → any (λ x. same (key y) (key x)) xs ≡ false
      any-sym [] h = refl
      any-sym (x ∷ xs) h = ground (arith, same_sym (key x) (key y), any-sym xs)

  pub Unique-select : (q : A → Bool) (xs : List A) → Unique xs → Unique (select q xs)
  Unique-select q [] d = tt
  Unique-select q (x ∷ xs) d = elim (Bool-cases (q x)) [
    | inl kept ↦
        rw kept (any-select-false (λ y. same (key y) (key x)) q xs d.0, Unique-select q xs d.1)
    | inr dropped ↦ rw dropped (Unique-select q xs d.1)
  ]
