-- ===== src/Rule/Key.antt =====
-- `account_lookup_key` on account names.
use trutina.Base.{ℕ, ◌<◌, ◌≡◌, refl, ap, true, [], ◌∷◌, map, arith, Text, All, All-append}
use trutina.Platform.{Platform, ascii_lower}
use trutina.Rule.{is_letter, is_word, is_separator, casefold, account_lookup_key}
use trutina.Rule.Name.{Words, Groups, end, group, IsAccountName, name}

abbrev pub IsAscii : Text → Type 0
IsAscii = All (λ c. c < 128)

word-ascii : (c : ℕ) → is_word c ≡ true → c < 128
word-ascii c h = ground arith

letter-ascii : (c : ℕ) → is_letter c ≡ true → c < 128
letter-ascii c h = ground arith

separator-ascii : (c : ℕ) → is_separator c ≡ true → c < 128
separator-ascii c h = ground arith

Words-IsAscii : (w : Text) → Words w → IsAscii w
Words-IsAscii [] h = tt
Words-IsAscii (c ∷ w) h = (word-ascii c h.0, Words-IsAscii w h.1)

Groups-IsAscii : {t : Text} → Groups t → IsAscii t
Groups-IsAscii end = tt
Groups-IsAscii (group c d w s sep hw g e) = rw e (
  separator-ascii c sep,
  (word-ascii d hw.0, All-append (λ c. c < 128) w s (Words-IsAscii w hw.1) (Groups-IsAscii g)),
)

pub IsAccountName-IsAscii : {t : Text} → IsAccountName t → IsAscii t
IsAccountName-IsAscii (name c w s letter hw g e) =
    rw e
      (letter-ascii c letter, All-append (λ c. c < 128) w s (Words-IsAscii w hw) (Groups-IsAscii g))

module _ ⦃u : Platform⦄ where
  casefold-ascii : (t : Text) → IsAscii t → casefold t ≡ map ascii_lower t
  unfolding casefold
  casefold-ascii [] h = refl
  casefold-ascii (c ∷ t) h =
      rw (u.fold_ascii c h.0) (ap (◌∷◌ (ascii_lower c)) (casefold-ascii t h.1))

  -- The lookup key of an account name of the grammar is the name in lower case, character by
  -- character.
  pub account_lookup_key-ascii :
      (n : Text) → IsAccountName n → account_lookup_key n ≡ map ascii_lower n
  unfolding account_lookup_key
  account_lookup_key-ascii n h = casefold-ascii n (IsAccountName-IsAscii h)
