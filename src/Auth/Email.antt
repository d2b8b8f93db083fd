-- ===== src/Auth/Email.antt =====
-- authentication/credentials/users/email.py: the form in which an address is stored and looked up,
-- and the shape that registration asks for.
pub mod Normal
pub mod Shape
use trutina.Base.{
  ℕ, Bool, true, false, not, ◌&&◌, ◌||◌, [], ◌∷◌, ltb, ◌==◌, if◌then◌else◌, length, any, Text,
}
use trutina.Platform.{Platform}
use trutina.Rule.{strip, casefold}

-- MAX_EMAIL_LENGTH
abbrev pub max_email_length : ℕ
max_email_length = 254

-- `not s`
unfoldable pub is_empty : Text → Bool
is_empty [] = true
is_empty (c ∷ s) = false

-- What `str.partition` returns: the text before the separator, whether it is there, and the text
-- behind it.
pub record Partition : Type 0 where
  pub before : Text
  pub found : Bool
  pub after : Text

-- `s.partition(chr(separator))`
unfoldable pub partition : ℕ → Text → Partition
partition separator [] = record { before = []; found = false; after = [] }
partition separator (c ∷ s) =
    let rest = partition separator s in
    if c == separator
    then record { before = []; found = true; after = s }
    else record rest { before = c ∷ rest.before }

-- `chr(separator) in s`
unfoldable pub contains : ℕ → Text → Bool
contains separator s = any (λ c. c == separator) s

module _ ⦃u : Platform⦄ where
  -- `normalize_email`
  unfoldable pub normalize_email : Text → Text
  unfolding strip casefold
  normalize_email email = casefold (strip email)

  -- `is_well_formed_email`. `is_other c`: the general category of the character begins with "C".
  unfoldable pub is_well_formed_email : (ℕ → Bool) → Text → Bool
  unfolding is_empty partition contains
  is_well_formed_email is_other email =
      let parts = partition 64 email in
      if is_empty email || ltb max_email_length (length email)
      then false
      else if any (λ c. u.is_space c || is_other c) email
      then false
      else (parts.found && (not (is_empty parts.before) && not (is_empty parts.after)))
        && not (contains 64 parts.after)
