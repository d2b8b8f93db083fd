-- ===== src/Base/Decimal.antt =====
-- `str` of a natural number, and `int` of a text of digits. The digits are made with fuel, which
-- the number itself is enough of.
use Prim.Native.Nat.{ℕ, zero, suc, ◌+◌, ◌-◌, ◌*◌, ◌/◌, ◌%◌, ◌≤◌}
use mathlib.Core.Path.{◌≡◌, refl, ap}
use mathlib.Core.Logic.{◌≢◌}
use mathlib.Core.Bool.{Bool, true, false, ◌&&◌}
use mathlib.Core.List.{[], ◌∷◌, cons≢nil}
use native.Mathlib.Omega.{arith}
use trutina.Base.Tests.{leb, ltb}
use trutina.Base.Strings.{Text}

-- `0` … `9`
abbrev pub is_ascii_digit : ℕ → Bool
is_ascii_digit c = leb 48 c && leb c 57

unfoldable pub are_digits : Text → Bool
are_digits [] = true
are_digits (c ∷ s) = is_ascii_digit c && are_digits s

-- `int(s)` of a text of digits, behind the value of the digits before it.
unfoldable pub read_digits : ℕ → Text → ℕ
read_digits n [] = n
read_digits n (c ∷ s) = read_digits (n * 10 + (c - 48)) s

unfoldable pub int_of : Text → ℕ
unfolding read_digits
int_of s = read_digits 0 s

-- The digits of a number, in front of those of its lower places.
unfoldable pub digits : ℕ → ℕ → Text → Text
digits zero n out = (48 + n % 10) ∷ out
digits (suc fuel) n out = elim (ltb n 10) [
  | true ↦ (48 + n % 10) ∷ out
  | false ↦ digits fuel (n / 10) ((48 + n % 10) ∷ out)
]

-- `str(n)`
unfoldable pub str_of : ℕ → Text
unfolding digits
str_of n = digits n n []

-- Reading the digits of a number behind zero is reading what follows them behind the number.
read_digits-digits :
    (fuel n : ℕ) (out : Text) → n ≤ fuel → read_digits 0 (digits fuel n out) ≡ read_digits n out
unfolding digits read_digits
read_digits-digits zero n out h = ap (λ k. read_digits k out) (omega arith)
read_digits-digits (suc fuel) n out h =
    grind (arith, read_digits-digits fuel (n / 10) ((48 + n % 10) ∷ out))

-- Every number is read back from its decimal print.
pub int_of-str_of : (n : ℕ) → int_of (str_of n) ≡ n
unfolding str_of int_of read_digits
int_of-str_of n = read_digits-digits n n [] (omega arith)

are_digits-digits :
    (fuel n : ℕ) (out : Text) → are_digits out ≡ true → are_digits (digits fuel n out) ≡ true
unfolding digits are_digits
are_digits-digits zero n out h = ground arith
are_digits-digits (suc fuel) n out h =
    ground (arith, are_digits-digits fuel (n / 10) ((48 + n % 10) ∷ out))

pub are_digits-str_of : (n : ℕ) → are_digits (str_of n) ≡ true
unfolding str_of are_digits
are_digits-str_of n = are_digits-digits n n [] refl

digits-filled : (fuel n : ℕ) (out : Text) → digits fuel n out ≢ []
unfolding digits
digits-filled zero n out = λ e. cons≢nil e
digits-filled (suc fuel) n out = ground (arith, digits-filled fuel (n / 10) ((48 + n % 10) ∷ out))

pub str_of-filled : (n : ℕ) → str_of n ≢ []
unfolding str_of
str_of-filled n = digits-filled n n []

-- More fuel than the number changes no digit.
pub digits-fuel : (fuel n : ℕ) (out : Text) → n ≤ fuel → digits (suc fuel) n out ≡ digits fuel n out
unfolding digits
digits-fuel zero n out h = ground arith
digits-fuel (suc fuel) n out h = ground (arith, digits-fuel fuel (n / 10) ((48 + n % 10) ∷ out))
