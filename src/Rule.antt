-- ===== src/Rule.antt =====
-- packages/shared/src/trutina/shared/rule.py: the naming, amount and actor rules. The regular
-- expression of account names is run by a scanner of one pass.
pub mod Name
pub mod Clean
pub mod Key
use trutina.Base.{
  ℕ, Bool, true, false, not, ◌&&◌, ◌||◌, xor, Option, none, some, [], ◌∷◌, ◌++◌, leb, ◌==◌,
  if◌then◌else◌, ℤ, pos, ltb_ℤ, Text,
}
use trutina.Platform.{Platform}

-- [A-Za-z]
abbrev pub is_letter : ℕ → Bool
is_letter c = (leb 65 c && leb c 90) || (leb 97 c && leb c 122)

abbrev pub is_digit : ℕ → Bool
is_digit c = leb 48 c && leb c 57

-- [A-Za-z0-9 ]
abbrev pub is_word : ℕ → Bool
is_word c = is_letter c || (is_digit c || (c == 32))

-- [&\-'./]
abbrev pub is_separator : ℕ → Bool
is_separator c = (c == 38) || ((c == 39) || (leb 45 c && leb c 47))

-- The rest of a name. `pending`: a separator was read, and wants a character of a word.
unfoldable pub scan_name : Bool → Text → Bool
scan_name pending [] = not pending
scan_name pending (c ∷ s) =
    (is_word c || (not pending && is_separator c)) && scan_name (not (is_word c)) s

-- `re.fullmatch(ACCOUNT_NAME_PATTERN, s)`
unfoldable pub matches_name : Text → Bool
unfolding scan_name
matches_name [] = false
matches_name (c ∷ s) = is_letter c && scan_name false s

-- `(debit > 0) ^ (credit > 0)`
unfoldable pub is_valid_line_amounts : ℤ → ℤ → Bool
unfolding xor
is_valid_line_amounts debit credit = xor (ltb_ℤ (pos 0) debit) (ltb_ℤ (pos 0) credit)

module _ ⦃u : Platform⦄ where
  -- `s.lstrip()`
  unfoldable pub lstrip : Text → Text
  lstrip [] = []
  lstrip (c ∷ s) = if u.is_space c then lstrip s else c ∷ s

  unfoldable pub cons_unless_blank : ℕ → Text → Text
  cons_unless_blank c [] = if u.is_space c then [] else c ∷ []
  cons_unless_blank c (d ∷ t) = c ∷ d ∷ t

  -- `s.rstrip()`
  unfoldable pub rstrip : Text → Text
  unfolding cons_unless_blank
  rstrip [] = []
  rstrip (c ∷ s) = cons_unless_blank c (rstrip s)

  -- `s.strip()`
  unfoldable pub strip : Text → Text
  unfolding lstrip rstrip
  strip s = rstrip (lstrip s)

  -- `clean_account_name(value)`
  unfoldable pub clean_account_name : Text → Option Text
  clean_account_name value =
      let cleaned = strip value in if matches_name cleaned then some cleaned else none

  -- `s.casefold()`, character by character
  unfoldable pub casefold : Text → Text
  casefold [] = []
  casefold (c ∷ s) = u.fold c ++ casefold s

  -- `account_lookup_key(name)`
  unfoldable pub account_lookup_key : Text → Text
  account_lookup_key name = casefold name

  -- `is_non_blank_actor(actor)`: `bool(actor.strip())`
  unfoldable pub is_non_blank_actor : Text → Bool
  is_non_blank_actor actor = elim (strip actor) [ [] ↦ false | _ ↦ true ]
