-- ===== src/Cli/Parsers/Lines.antt =====
-- `parse_line_spec` accepts what two colons divide into an account and two amounts.
use trutina.Base.{
  ℕ, suc, ◌<◌, ◌≡◌, ◌≢◌, ◌⊎◌, inl, inr, refl, sym, ap, ◌∙◌, false, Bool-cases, List, [], ◌∷◌, ◌++◌,
  arith, All, ◌==◌, ==_iff, length, Text, if◌then◌else◌, subst,
}
use trutina.Platform.{Platform}
use trutina.Cli.Parsers.{
  Console, bad_parameter, line_message, cons_first, split, line_of_parts, parse_journal_line,
  parse_line_spec,
}

-- The separators of a text.
unfoldable pub separators : ℕ → Text → ℕ
separators c [] = 0
separators c (d ∷ s) = let rest = separators c s in if d == c then suc rest else rest

length-cons_first :
    (c : ℕ) (parts : List Text) → 0 < length parts → length (cons_first c parts) ≡ length parts
length-cons_first c [] h = absurd (omega arith)
length-cons_first c (p ∷ parts) h = refl

-- One part more than there are separators.
length-split : (c : ℕ) (s : Text) → length (split c s) ≡ suc (separators c s)
unfolding split separators
length-split c [] = refl
length-split c (d ∷ s) = ground (arith, length-split c s, length-cons_first d (split c s))

-- `separator.join(parts)`
unfoldable pub join : ℕ → List Text → Text
join c [] = []
join c (p ∷ []) = p
join c (p ∷ q ∷ parts) = p ++ c ∷ join c (q ∷ parts)

join-cons_first : (c d : ℕ) (parts : List Text) → join c (cons_first d parts) ≡ d ∷ join c parts
unfolding join
join-cons_first c d [] = refl
join-cons_first c d (p ∷ []) = refl
join-cons_first c d (p ∷ q ∷ parts) = refl

join-empty : (c : ℕ) (parts : List Text) → 0 < length parts → join c ([] ∷ parts) ≡ c ∷ join c parts
unfolding join
join-empty c [] h = absurd (omega arith)
join-empty c (p ∷ parts) h = refl

-- There is always a part.
some_part : (c : ℕ) (s : Text) → 0 < length (split c s)
some_part c s = omega (arith, length-split c s)

-- What is split is put together again.
join-split : (c : ℕ) (s : Text) → join c (split c s) ≡ s
unfolding split join
join-split c [] = refl
join-split c (d ∷ s) = elim (Bool-cases (d == c)) [
  | inl here ↦ rw here (
      subst (λ e. join c ([] ∷ split c s) ≡ e ∷ s) (sym ((==_iff d c).0 here))
        (join-empty c (split c s) (some_part c s) ∙ ap (◌∷◌ c) (join-split c s)))
  | inr other ↦ rw other (join-cons_first c d (split c s) ∙ ap (◌∷◌ d) (join-split c s))
]

separators-cons_first :
    (c d : ℕ) (parts : List Text)
    → d == c ≡ false
    → All (λ p. separators c p ≡ 0) parts
    → All (λ p. separators c p ≡ 0) (cons_first d parts)
unfolding separators
separators-cons_first c d [] other free = (rw other, tt)
separators-cons_first c d (p ∷ parts) other free = (rw other free.0, free.1)

-- No part has a separator.
separators-split : (c : ℕ) (s : Text) → All (λ p. separators c p ≡ 0) (split c s)
unfolding split separators
separators-split c [] = (refl, tt)
separators-split c (d ∷ s) = elim (Bool-cases (d == c)) [
  | inl here ↦ rw here (refl, separators-split c s)
  | inr other ↦ rw other (separators-cons_first c d (split c s) other (separators-split c s))
]

-- Three parts, or another number of them.
three_parts :
    (parts : List Text)
    → ((a : Text) × (b : Text) × (c : Text) × parts ≡ a ∷ b ∷ c ∷ []) ⊎ (length parts ≢ 3)
three_parts [] = inr (λ e. omega (arith, e))
three_parts (a ∷ []) = inr (λ e. omega (arith, e))
three_parts (a ∷ b ∷ []) = inr (λ e. omega (arith, e))
three_parts (a ∷ b ∷ c ∷ []) = inl (a, b, c, refl)
three_parts (a ∷ b ∷ c ∷ d ∷ parts) = inr (λ e. omega (arith, e))

module _ ⦃u : Platform⦄ ⦃k : Console⦄ where
  line_of_parts-other :
      (raw : Text) (parts : List Text)
      → length parts ≢ 3
      → line_of_parts raw parts ≡ bad_parameter (line_message raw)
  line_of_parts-other raw [] h = refl
  line_of_parts-other raw (a ∷ []) h = refl
  line_of_parts-other raw (a ∷ b ∷ []) h = refl
  line_of_parts-other raw (a ∷ b ∷ c ∷ []) h = absurd (h refl)
  line_of_parts-other raw (a ∷ b ∷ c ∷ d ∷ parts) h = refl

  -- A typed line is either an account, a debit and a credit without a colon, joined by two colons,
  -- and parse_line_spec returns what parse_journal_line makes of these three, or it has not exactly
  -- two colons, and parse_line_spec reports a bad parameter that quotes it.
  pub parse_line_spec_lem :
      (raw : Text)
      → ((account : Text) × (debit : Text) × (credit : Text) × (raw
            ≡ account ++ 58 ∷ (debit ++ 58 ∷ credit))
          × All (λ p. separators 58 p ≡ 0) (account ∷ debit ∷ credit ∷ [])
          × (parse_line_spec raw ≡ parse_journal_line account debit credit))
        ⊎ ((separators 58 raw ≢ 2) × (parse_line_spec raw ≡ bad_parameter (line_message raw)))
  unfolding parse_line_spec join
  parse_line_spec_lem raw = elim (three_parts (split 58 raw)) [
    | inl (account, debit, credit, parts) ↦ inl (
      account,
      debit,
      credit,
      sym (join-split 58 raw) ∙ ap (join 58) parts,
      subst (All (λ p. separators 58 p ≡ 0)) parts (separators-split 58 raw),
      ap (line_of_parts raw) parts,
    )
    | inr other ↦ inr (
      (λ e. other (length-split 58 raw ∙ ap suc e)),
      line_of_parts-other raw (split 58 raw) other,
    )
  ]
