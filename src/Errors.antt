-- ===== src/Errors.antt =====
-- packages/shared/src/trutina/shared/errors: the error codes, the exceptions that leave a service
-- or a repository, and the translation of a schema's failures (translators.py). A rejected input
-- is kept as the value that the source stringifies.
pub mod Codes
pub use trutina.Errors.Codes.{
  ErrorCode, unknown_error, validation_error, request_validation_error, required_field_code,
  invalid_number, invalid_decimal, string_type, string_too_short, string_too_long, too_short,
  too_long, greater_than, greater_than_equal, less_than_equal, future_date, past_date,
  invalid_account_name, invalid_account_code, unknown_account, duplicate_account_code,
  duplicate_account_name, account_has_postings, invalid_line_amounts, unbalanced_entry,
  unknown_journal_entry, duplicate_journal_number, journal_already_posted, storage_unavailable,
  storage_timeout, duplicate_user_email, unknown_user, invalid_email, auth_invalid_credentials,
  auth_throttled,
}
use trutina.Errors.Codes.{code_text, error_code}
use trutina.Base.{
  ℕ, Bool, true, false, List, [], ◌∷◌, map, if◌then◌else◌, ℤ, Text, String, str_of, Option, none,
  some,
}

-- What the source turns into text by `str()`: an input, or an error's type.
pub data Value : Type 0 where
  string : Text → Value
  decimal : ℤ → Value
  integer : ℕ → Value
  moment : ℕ → Value
  -- a whole object: the list of lines, or the model itself
  object : Value

pub record FieldViolation : Type 0 where
  pub code : ErrorCode
  pub field : String
  pub value : Value

pub record AppError : Type 0 where
  pub code : ErrorCode
  pub context : List (String × Value)

-- One entry of `ValidationError.errors()` of Pydantic.
pub record SchemaError : Type 0 where
  -- the text of the type, which may be none of `ErrorCode`
  pub kind : Text
  pub loc : String
  pub input : Value

-- An exception: `AppError`, its subclass `ValidationAppError`, a `ValidationError` of Pydantic that
-- nothing has translated, or one of Python.
pub data Error : Type 0 where
  app_error : AppError → Error
  validation_app_error : List FieldViolation → Error
  schema_error : List SchemaError → Error
  -- an exception of Python itself, by its class
  builtin_error : String → Error

-- `AppError.not_found`
unfoldable pub not_found : ErrorCode → Text → Value → Error
not_found code resource identifier = app_error (record {
  code = code;
  context = ("resource", string resource) ∷ ("identifier", identifier) ∷ [];
})

-- `AppError.conflict`
unfoldable pub conflict : ErrorCode → Text → Text → Value → Error
conflict code resource field_name value = app_error (record {
  code = code;
  context = ("resource", string resource) ∷ ("field", string field_name) ∷ ("value", value) ∷ [];
})

-- `AppError.unknown`
unfoldable pub unknown : Error
unknown = app_error (record { code = unknown_error; context = [] })

-- `AppError.storage_unavailable`
unfoldable pub storage_unavailable_error : Error
storage_unavailable_error = app_error (record { code = storage_unavailable; context = [] })

-- `AppError.storage_timeout`
unfoldable pub storage_timeout_error : Error
storage_timeout_error = app_error (record { code = storage_timeout; context = [] })

-- `AppError.throttled`. No delay of the run is negative.
unfoldable pub throttled : ℕ → Error
unfolding str_of
throttled retry_after_seconds = app_error (record {
  code = auth_throttled;
  context = ("retry_after_seconds", string (str_of retry_after_seconds)) ∷ [];
})

-- `ValidationAppError.required_field`
unfoldable pub required_field : String → Text → Error
required_field field_name value =
    validation_app_error
      (record { code = required_field_code; field = field_name; value = string value } ∷ [])

-- `code in PYDANTIC_CODES`
unfoldable pub is_pydantic_code : ErrorCode → Bool
is_pydantic_code required_field_code = true
is_pydantic_code invalid_number = true
is_pydantic_code invalid_decimal = true
is_pydantic_code string_type = true
is_pydantic_code string_too_short = true
is_pydantic_code string_too_long = true
is_pydantic_code too_short = true
is_pydantic_code too_long = true
is_pydantic_code greater_than = true
is_pydantic_code greater_than_equal = true
is_pydantic_code less_than_equal = true
is_pydantic_code _ = false

-- `ErrorCode(raw_type)`, for the raw types in PYDANTIC_CODES.
abbrev pub kept_code : Option ErrorCode → Option ErrorCode
kept_code none = none
kept_code (some c) = if is_pydantic_code c then some c else none

abbrev pub violation_of : SchemaError → Option ErrorCode → FieldViolation
violation_of e none = record { code = unknown_error; field = e.loc; value = string e.kind }
violation_of e (some c) = record { code = c; field = e.loc; value = e.input }

-- The body of the loop of `get_field_violations`.
unfoldable pub field_violation : SchemaError → FieldViolation
unfolding is_pydantic_code error_code
field_violation e = violation_of e (kept_code (error_code e.kind))

unfoldable pub get_field_violations : List SchemaError → List FieldViolation
get_field_violations errors = map field_violation errors

-- `ValidationAppError.validation`
unfoldable pub validation : List SchemaError → Error
unfolding get_field_violations
validation errors = validation_app_error (get_field_violations errors)
