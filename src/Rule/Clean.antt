-- ===== src/Rule/Clean.antt =====
-- `str.strip` and `clean_account_name` over the scanner of names.
use trutina.Base.{
  suc, ◌≤◌, length, ℕ, ◌≡◌, refl, ap, ◌∙◌, sym, inl, inr, true, false, none, some, [], ◌∷◌, arith,
  Text, Bool-cases,
}
use trutina.Platform.{Platform}
use trutina.Rule.{lstrip, cons_unless_blank, rstrip, strip, matches_name, clean_account_name}
use trutina.Rule.Name.{IsAccountName, matches_name-IsAccountName}

module _ ⦃u : Platform⦄ where
  rstrip-cons_unless_blank :
      (c : ℕ) (t : Text) → rstrip t ≡ t → rstrip (cons_unless_blank c t) ≡ cons_unless_blank c t
  unfolding rstrip
  rstrip-cons_unless_blank c [] h = ground arith
  rstrip-cons_unless_blank c (d ∷ t) h = rw h

  rstrip-rstrip : (t : Text) → rstrip (rstrip t) ≡ rstrip t
  unfolding rstrip
  rstrip-rstrip [] = refl
  rstrip-rstrip (c ∷ t) = rstrip-cons_unless_blank c (rstrip t) (rstrip-rstrip t)

  lstrip-lstrip : (t : Text) → lstrip (lstrip t) ≡ lstrip t
  unfolding lstrip
  lstrip-lstrip [] = refl
  lstrip-lstrip (c ∷ t) = ground (arith, lstrip-lstrip t)

  lstrip-cons_unless_blank :
      (c : ℕ) (t : Text)
      → u.is_space c ≡ false
      → lstrip (cons_unless_blank c t) ≡ cons_unless_blank c t
  unfolding lstrip rstrip
  lstrip-cons_unless_blank c [] h = rw (h, lstrip) (rw h)
  lstrip-cons_unless_blank c (d ∷ t) h = rw h

  -- `lstrip` leaves nothing, or a text that begins with a visible character.
  lstrip-lstrip-rstrip : (t : Text) → lstrip (rstrip (lstrip t)) ≡ rstrip (lstrip t)
  unfolding lstrip rstrip
  lstrip-lstrip-rstrip [] = refl
  lstrip-lstrip-rstrip (c ∷ t) = elim (Bool-cases (u.is_space c)) [
    | inl blank ↦ rw blank (lstrip-lstrip-rstrip t)
    | inr visible ↦ rw visible (lstrip-cons_unless_blank c (rstrip t) visible)
  ]

  -- Stripping twice is stripping once.
  pub strip-strip : (t : Text) → strip (strip t) ≡ strip t
  unfolding strip
  strip-strip t = ap rstrip (lstrip-lstrip-rstrip t) ∙ rstrip-rstrip (lstrip t)

  length-lstrip : (t : Text) → length (lstrip t) ≤ length t
  unfolding lstrip
  length-lstrip [] = omega arith
  length-lstrip (c ∷ t) = ground (arith, length-lstrip t)

  length-cons_unless_blank : (c : ℕ) (t : Text) → length (cons_unless_blank c t) ≤ suc (length t)
  unfolding cons_unless_blank
  length-cons_unless_blank c [] = ground arith
  length-cons_unless_blank c (d ∷ t) = omega arith

  length-rstrip : (t : Text) → length (rstrip t) ≤ length t
  unfolding rstrip
  length-rstrip [] = omega arith
  length-rstrip (c ∷ t) = omega (arith, length-rstrip t, length-cons_unless_blank c (rstrip t))

  pub length-strip : (t : Text) → length (strip t) ≤ length t
  unfolding strip
  length-strip t = omega (arith, length-rstrip (lstrip t), length-lstrip t)

  pub clean_account_name-inv :
      (value : Text) {n : Text}
      → clean_account_name value ≡ some n
      → (strip value ≡ n) × (matches_name n ≡ true)
  unfolding clean_account_name
  clean_account_name-inv value h = ground arith

  clean_account_name_of_strip :
      (n : Text) → strip n ≡ n → matches_name n ≡ true → clean_account_name n ≡ some n
  unfolding clean_account_name
  clean_account_name_of_strip n h m = rw (h, m)

  -- A name that clean_account_name returns is the stripped input, an account name of the grammar,
  -- and cleaned again to itself.
  pub clean_account_name-clean :
      (value n : Text)
      → clean_account_name value ≡ some n
      → (n ≡ strip value) × IsAccountName n × (clean_account_name n ≡ some n)
  clean_account_name-clean value n h =
      let (e, m) = clean_account_name-inv value h in
      (
        sym e,
        (matches_name-IsAccountName n).0 m,
        clean_account_name_of_strip n (ap strip (sym e) ∙ strip-strip value ∙ e) m,
      )

  -- clean_account_name returns none if the stripped input is no account name of the grammar.
  pub clean_account_name-none :
      (value : Text) → ¬ IsAccountName (strip value) → clean_account_name value ≡ none
  unfolding clean_account_name
  clean_account_name-none value h = elim (Bool-cases (matches_name (strip value))) [
    | inl m ↦ absurd (h ((matches_name-IsAccountName (strip value)).0 m))
    | inr m ↦ rw m
  ]
