-- ===== src/Rule/Name.antt =====
-- The language of account names: the scanner against the regular expression of rule.py.
use trutina.Base.{
  ℕ, ◌≡◌, refl, sym, ap, ◌∙◌, ◌↔◌, inl, inr, Bool, true, false, not, ◌&&◌, [], ◌∷◌, ◌++◌, arith,
  Text, All, Bool-cases,
}
use trutina.Rule.{is_letter, is_word, is_separator, scan_name, matches_name}

abbrev pub Words : Text → Type 0
Words = All (λ c. is_word c ≡ true)

-- (?:[&\-'./][A-Za-z0-9 ]+)*
pub data Groups : Text → Type 0 where
  end : Groups []
  group :
      (c d : ℕ) (w s : Text) {t : Text}
      → is_separator c ≡ true
      → Words (d ∷ w)
      → Groups s
      → t ≡ c ∷ d ∷ (w ++ s)
      → Groups t

-- [A-Za-z][A-Za-z0-9 ]*(?:[&\-'./][A-Za-z0-9 ]+)*
pub data IsAccountName : Text → Type 0 where
  name :
      (c : ℕ) (w s : Text) {t : Text}
      → is_letter c ≡ true
      → Words w
      → Groups s
      → t ≡ c ∷ (w ++ s)
      → IsAccountName t

-- What is left to read: a run of word characters, then groups.
abbrev Tail : Text → Type 0
Tail t = (w : Text) × (s : Text) × Words w × Groups s × (t ≡ w ++ s)

-- The same after a separator, where the run is not empty.
abbrev PendingTail : Text → Type 0
PendingTail t = (d : ℕ) × (w : Text) × (s : Text) × Words (d ∷ w) × Groups s × (t ≡ d ∷ (w ++ s))

abbrev Rest : Bool → Text → Type 0
Rest true t = PendingTail t
Rest false t = Tail t

and_true : (a b : Bool) → a && b ≡ true → (a ≡ true) × (b ≡ true)
and_true a b h = ground arith

separator-not-word : (c : ℕ) → is_separator c ≡ true → is_word c ≡ false
separator-not-word c h = ground arith

scan_name-word :
    (pending : Bool) (c : ℕ) (t : Text)
    → is_word c ≡ true
    → scan_name pending (c ∷ t) ≡ scan_name false t
unfolding scan_name
scan_name-word pending c t h = rw h

scan_name-other :
    (pending : Bool) (c : ℕ) (t : Text)
    → is_word c ≡ false
    → scan_name pending (c ∷ t) ≡ true
    → (pending ≡ false) × (is_separator c ≡ true) × (scan_name true t ≡ true)
unfolding scan_name
scan_name-other pending c t h e = split (is_separator c) (rw h at e)
  where
    split :
        (b : Bool)
        → (not pending && b) && scan_name true t ≡ true
        → (pending ≡ false) × (b ≡ true) × (scan_name true t ≡ true)
    split b k = ground arith

scan_name-separator :
    (c : ℕ) (t : Text) → is_separator c ≡ true → scan_name false (c ∷ t) ≡ scan_name true t
unfolding scan_name
scan_name-separator c t h = rw (separator-not-word c h, h)

Tail-word : (c : ℕ) {t : Text} → is_word c ≡ true → Tail t → Tail (c ∷ t)
Tail-word c h (w, s, hw, g, e) = (c ∷ w, s, (h, hw), g, ap (◌∷◌ c) e)

PendingTail-word : (c : ℕ) {t : Text} → is_word c ≡ true → Tail t → PendingTail (c ∷ t)
PendingTail-word c h (w, s, hw, g, e) = (c, w, s, (h, hw), g, ap (◌∷◌ c) e)

Tail-separator : (c : ℕ) {t : Text} → is_separator c ≡ true → PendingTail t → Tail (c ∷ t)
Tail-separator c {t} h (d, w, s, hw, g, e) =
    ([], c ∷ t, tt, group c d w s h hw g (ap (◌∷◌ c) e), refl)

scan_name-Rest : (pending : Bool) (t : Text) → scan_name pending t ≡ true → Rest pending t
unfolding scan_name
scan_name-Rest true [] h = cc
scan_name-Rest false [] h = ([], [], tt, end, refl)
scan_name-Rest true (c ∷ t) h = elim (Bool-cases (is_word c)) [
  | inl word ↦
      PendingTail-word c word (scan_name-Rest false t (sym (scan_name-word true c t word) ∙ h))
  | inr other ↦ let (p, _, _) = scan_name-other true c t other h in cc
]
scan_name-Rest false (c ∷ t) h = elim (Bool-cases (is_word c)) [
  | inl word ↦ Tail-word c word (scan_name-Rest false t (sym (scan_name-word false c t word) ∙ h))
  | inr other ↦
      let (_, sep, rest) = scan_name-other false c t other h in
      Tail-separator c sep (scan_name-Rest true t rest)
]

scan_name-Words :
    (w s : Text) → Words w → scan_name false s ≡ true → scan_name false (w ++ s) ≡ true
scan_name-Words [] s h e = e
scan_name-Words (c ∷ w) s h e = scan_name-word false c (w ++ s) h.0 ∙ scan_name-Words w s h.1 e

scan_name-Groups : {t : Text} → Groups t → scan_name false t ≡ true
unfolding scan_name
scan_name-Groups end = refl
scan_name-Groups (group c d w s sep hw g e) = rw e (
    scan_name-separator c (d ∷ (w ++ s)) sep
    ∙ scan_name-word true d (w ++ s) hw.0
    ∙ scan_name-Words w s hw.1 (scan_name-Groups g))

accepts_name : (t : Text) → matches_name t ≡ true → IsAccountName t
unfolding matches_name
accepts_name [] h = cc
accepts_name (c ∷ t) h =
    let both : (is_letter c ≡ true) × (scan_name false t ≡ true) = and_true _ _ h in
    let (w, s, hw, g, e) = scan_name-Rest false t both.1 in name c w s both.0 hw g (ap (◌∷◌ c) e)

name_accepted : {t : Text} → IsAccountName t → matches_name t ≡ true
unfolding matches_name
name_accepted (name c w s letter hw g e) =
    rw (e, letter) (scan_name-Words w s hw (scan_name-Groups g))

-- The scanner accepts a text if and only if it is an account name of the grammar that the regular
-- expression describes: a letter, word characters, and groups of one separator with at least one
-- word character.
pub matches_name-IsAccountName : (t : Text) → (matches_name t ≡ true) ↔ IsAccountName t
matches_name-IsAccountName t = (accepts_name t, name_accepted)
