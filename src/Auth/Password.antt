-- ===== src/Auth/Password.antt =====
-- authentication/credentials/passwords/rules.py, and `_check_password` of users/registration.py.
use trutina.Base.{ℕ, Option, none, some, [], ltb, if◌then◌else◌, length, Text, text}
use trutina.Platform.{Platform}
use trutina.Errors.{
  ErrorCode, FieldViolation, string, required_field_code, string_too_short, string_too_long,
}
use trutina.Rule.{strip}
use trutina.Auth.Email.{is_empty}
use trutina.Auth.State.{Runtime}

-- MAX_PASSWORD_LENGTH
abbrev pub max_password_length : ℕ
max_password_length = 128

-- MIN_PASSWORD_LENGTH
abbrev pub min_password_length : ℕ
min_password_length = 8

-- `_password_violation`: the value is REDACTED.
unfoldable pub password_violation : ErrorCode → FieldViolation
password_violation code = record {
  code = code;
  field = "password";
  value = string (text "***REDACTED***");
}

module _ ⦃u : Platform⦄ ⦃r : Runtime⦄ where
  -- `normalize_password`
  unfoldable pub normalize_password : Text → Text
  unfolding strip
  normalize_password password = strip (r.nfkc password)

  -- `_check_password`
  unfoldable pub check_password : Text → Text × Option FieldViolation
  unfolding normalize_password is_empty password_violation
  check_password raw =
      let normalized = normalize_password raw in
      if ltb max_password_length (length raw)
      then ([], some (password_violation string_too_long))
      else if is_empty normalized
      then ([], some (password_violation required_field_code))
      else if ltb (length normalized) min_password_length
      then ([], some (password_violation string_too_short))
      else if ltb max_password_length (length normalized)
      then ([], some (password_violation string_too_long))
      else (normalized, none)
