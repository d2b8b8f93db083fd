-- ===== src/Tests/Numeric.antt =====
-- A column Numeric(18, 2) of PostgreSQL for amounts that count ten-thousandths: an amount is rounded to
-- hundredths, half away from zero, and one of more than sixteen integer digits is refused.
use trutina.Base.{
  ℕ, zero, suc, ◌+◌, ◌*◌, ◌/◌, ◌<◌, ◌≡◌, sym, ◌∙◌, ap, inl, inr, true, Option, none, some, arith,
  Bool-cases, if◌then◌else◌, ltb, lt→ltb, ltb→lt, ℤ, pos, negsuc, sub_ℕ,
}

abbrev cent : ℕ
cent = 100

-- 10 ^ 18 hundredths.
abbrev pub numeric_limit : ℕ
numeric_limit = 1000000000000000000

-- An amount of units in whole hundredths.
unfoldable pub to_hundredths : ℕ → ℕ
to_hundredths n = (n + n + cent) / (cent + cent)

unfoldable pub to_numeric : ℤ → Option ℤ
unfolding to_hundredths
to_numeric (pos n) =
    let h = to_hundredths n in if ltb h numeric_limit then some (pos (h * cent)) else none
to_numeric (negsuc n) =
    let h = to_hundredths (suc n) in if ltb h numeric_limit then some (sub_ℕ 0 (h * cent)) else none

to_hundredths_whole : (h : ℕ) → to_hundredths (h * cent) ≡ h
unfolding to_hundredths
to_hundredths_whole h = grind arith

to_numeric_pos : (h : ℕ) → h < numeric_limit → to_numeric (pos (h * cent)) ≡ some (pos (h * cent))
unfolding to_numeric
to_numeric_pos h low = rw (to_hundredths_whole h, lt→ltb _ _ low)

zero_cents : 0 * cent ≡ 0
zero_cents = omega arith

to_hundredths-zero : to_hundredths 0 ≡ 0
to_hundredths-zero = ap to_hundredths (sym zero_cents) ∙ to_hundredths_whole 0

sub_ℕ-suc : (n : ℕ) → sub_ℕ 0 (suc n) ≡ negsuc n
sub_ℕ-suc n = ground arith

to_numeric-sub_ℕ :
    (k : ℕ)
    → ltb (to_hundredths k) numeric_limit ≡ true
    → to_numeric (sub_ℕ 0 k) ≡ some (sub_ℕ 0 (to_hundredths k * cent))
unfolding to_numeric
to_numeric-sub_ℕ zero low = rw (to_hundredths-zero, zero_cents)
to_numeric-sub_ℕ (suc n) low = rw (sub_ℕ-suc n) (rw low)

to_numeric_neg :
    (h : ℕ) → h < numeric_limit → to_numeric (sub_ℕ 0 (h * cent)) ≡ some (sub_ℕ 0 (h * cent))
to_numeric_neg h low =
    to_numeric-sub_ℕ (h * cent) (rw (to_hundredths_whole h) (lt→ltb _ _ low))
    ∙ rw (to_hundredths_whole h)

stored_amount : (a b : ℤ) → ◌≡◌ {A = Option ℤ} (some a) (some b) → a ≡ b
stored_amount a b h = cc

-- An amount that was stored in the column type is stored again as it is.
pub to_numeric-to_numeric :
    (amount stored : ℤ) → to_numeric amount ≡ some stored → to_numeric stored ≡ some stored
unfolding to_numeric
to_numeric-to_numeric (pos n) stored e = elim (Bool-cases (ltb (to_hundredths n) numeric_limit)) [
  | inl low ↦
      let r : pos (to_hundredths n * cent) ≡ stored = stored_amount _ stored (rw low at e) in
      rw (← r) (to_numeric_pos (to_hundredths n) (ltb→lt _ _ low))
  | inr high ↦ absurd (ground arith)
]
to_numeric-to_numeric (negsuc n) stored e =
    elim (Bool-cases (ltb (to_hundredths (suc n)) numeric_limit)) [
      | inl low ↦
          let r : sub_ℕ 0 (to_hundredths (suc n) * cent) ≡ stored =
            stored_amount _ stored (rw low at e) in
          rw (← r) (to_numeric_neg (to_hundredths (suc n)) (ltb→lt _ _ low))
      | inr high ↦ absurd (ground arith)
    ]
