-- ===== src/Api/Catalog.antt =====
-- apps/api/src/trutina/api/shared/errors/catalog.py: what an error code looks like over HTTP. A
-- template is the list of its pieces.
use trutina.Base.{ℕ, Option, none, some, List, [], ◌∷◌, String}
use trutina.Errors.{ErrorCode}

-- A piece of a template of `str.format`.
pub data Piece : Type 0 where
  literal : String → Piece
  placeholder : String → Piece

abbrev pub Template : Type 0
Template = List Piece

pub record ErrorCatalogEntry : Type 0 where
  pub status_code : ℕ
  pub message : Template
  pub hint : Option Template

-- DEFAULT_ERROR_ENTRY
abbrev pub default_error_entry : ErrorCatalogEntry
default_error_entry = record {
  status_code = 500;
  message = literal "An unexpected error occurred." ∷ [];
  hint = none;
}

-- `ERROR_CATALOG.get(code)`
unfoldable pub error_catalog : ErrorCode → Option ErrorCatalogEntry
error_catalog ErrorCode.unknown_error = some default_error_entry
error_catalog ErrorCode.validation_error = some (record {
  status_code = 422;
  message = literal "The request failed validation." ∷ [];
  hint = some (literal "Review the `details` array for the specific fields that failed." ∷ []);
})
error_catalog ErrorCode.required_field_code =
    some
      (record { status_code = 422; message = literal "This field is required." ∷ []; hint = none })
error_catalog ErrorCode.invalid_number = some (record {
  status_code = 422;
  message = literal "This field must be a valid integer." ∷ [];
  hint = none;
})
error_catalog ErrorCode.invalid_decimal = some (record {
  status_code = 422;
  message = literal "This field must be a valid decimal number." ∷ [];
  hint = none;
})
error_catalog ErrorCode.string_type = some (record {
  status_code = 422;
  message = literal "This field must be a string." ∷ [];
  hint = none;
})
error_catalog ErrorCode.string_too_short =
    some
      (record { status_code = 422; message = literal "This field is too short." ∷ []; hint = none })
error_catalog ErrorCode.string_too_long =
    some
      (record { status_code = 422; message = literal "This field is too long." ∷ []; hint = none })
error_catalog ErrorCode.too_short = some (record {
  status_code = 422;
  message = literal "Too few items were provided." ∷ [];
  hint = none;
})
error_catalog ErrorCode.too_long = some (record {
  status_code = 422;
  message = literal "Too many items were provided." ∷ [];
  hint = none;
})
error_catalog ErrorCode.greater_than =
    some
      (record { status_code = 422; message = literal "This value is too small." ∷ []; hint = none })
error_catalog ErrorCode.greater_than_equal =
    some
      (record { status_code = 422; message = literal "This value is too small." ∷ []; hint = none })
error_catalog ErrorCode.less_than_equal =
    some
      (record { status_code = 422; message = literal "This value is too large." ∷ []; hint = none })
error_catalog ErrorCode.future_date = some (record {
  status_code = 422;
  message = literal "The date cannot be in the future." ∷ [];
  hint = some (literal "Use a date on or before today." ∷ []);
})
error_catalog ErrorCode.past_date = some (record {
  status_code = 422;
  message = literal "The date is too far in the past." ∷ [];
  hint = some (literal "Use a date after the supported accounting period start (2020-01-01)." ∷ []);
})
error_catalog ErrorCode.invalid_account_name = some (record {
  status_code = 422;
  message = literal "The account name is not valid." ∷ [];
  hint = some (
      literal
        "Account names must start with a letter and use only letters, digits, spaces, and single & - ' . / separators."
      ∷ []);
})
error_catalog ErrorCode.invalid_account_code = some (record {
  status_code = 422;
  message = literal "The account code is not valid." ∷ [];
  hint = some (literal "Account codes must be 4 to 6 digits (0-9), for example '1001'." ∷ []);
})
error_catalog ErrorCode.unknown_account = some (record {
  status_code = 404;
  message = literal "No account was found for '" ∷ placeholder "identifier" ∷ literal "'." ∷ [];
  hint =
      some (literal "Verify the account code or name, or create it first via POST /accounts." ∷ []);
})
error_catalog ErrorCode.duplicate_account_code = some (record {
  status_code = 409;
  message =
      literal "An account with code '" ∷ placeholder "value" ∷ literal "' already exists." ∷ [];
  hint = some (
      literal "Choose a code other than '"
      ∷ placeholder "value"
      ∷ literal "', or update the existing account instead."
      ∷ []);
})
error_catalog ErrorCode.duplicate_account_name = some (record {
  status_code = 409;
  message = literal "An account named '" ∷ placeholder "value" ∷ literal "' already exists." ∷ [];
  hint = some (
      literal "Choose a name other than '"
      ∷ placeholder "value"
      ∷ literal "', or update the existing account instead."
      ∷ []);
})
error_catalog ErrorCode.account_has_postings = some (record {
  status_code = 409;
  message = literal "This account has existing postings and cannot be removed." ∷ [];
  hint = some (literal "Accounts with posting history cannot be deleted." ∷ []);
})
error_catalog ErrorCode.invalid_line_amounts = some (record {
  status_code = 422;
  message = literal "A journal line must carry either a debit or a credit amount, not both." ∷ [];
  hint = some (literal "Set exactly one of debit_amount/credit_amount to a positive value." ∷ []);
})
error_catalog ErrorCode.unbalanced_entry = some (record {
  status_code = 422;
  message = literal "Total debits must equal total credits." ∷ [];
  hint =
      some
        (literal "Adjust the journal lines so total debits and total credits match exactly." ∷ []);
})
error_catalog ErrorCode.unknown_journal_entry = some (record {
  status_code = 404;
  message =
      literal "No journal entry was found for '" ∷ placeholder "identifier" ∷ literal "'." ∷ [];
  hint = some (
      literal "Verify the journal number, or create the entry first via POST /journal-entries."
      ∷ []);
})
error_catalog ErrorCode.duplicate_journal_number = some (record {
  status_code = 409;
  message = literal "Journal number '" ∷ placeholder "value" ∷ literal "' already exists." ∷ [];
  hint = some (literal "Please retry the request." ∷ []);
})
error_catalog ErrorCode.journal_already_posted = some (record {
  status_code = 409;
  message =
      literal "Journal entry '" ∷ placeholder "value" ∷ literal "' has already been posted." ∷ [];
  hint = some (
      literal "Each journal entry can only be posted once; fetch its existing postings instead."
      ∷ []);
})
error_catalog ErrorCode.duplicate_user_email = some (record {
  status_code = 409;
  message = literal "A user with this email already exists." ∷ [];
  hint = some (literal "Use a different email address." ∷ []);
})
error_catalog ErrorCode.unknown_user = some (record {
  status_code = 404;
  message = literal "No user was found." ∷ [];
  hint = some (literal "Verify the user identifier." ∷ []);
})
error_catalog ErrorCode.invalid_email = some (record {
  status_code = 422;
  message = literal "The email address is not valid." ∷ [];
  hint = some (literal "Use an address such as name@example.com." ∷ []);
})
error_catalog ErrorCode.auth_invalid_credentials = some (record {
  status_code = 401;
  message = literal "The email or password is incorrect." ∷ [];
  hint = some (literal "Check your email and password and try again." ∷ []);
})
error_catalog ErrorCode.auth_throttled = some (record {
  status_code = 429;
  message = literal "Too many sign-in attempts." ∷ [];
  hint = some (literal "Wait before trying again." ∷ []);
})
error_catalog ErrorCode.storage_unavailable = some (record {
  status_code = 503;
  message = literal "The database is currently unavailable." ∷ [];
  hint =
      some
        (literal "Retry the request after a short delay. Contact support if this persists." ∷ []);
})
error_catalog ErrorCode.storage_timeout = some (record {
  status_code = 504;
  message = literal "The database did not respond in time." ∷ [];
  hint = some (literal "Retry the request. Frequent timeouts may indicate database load." ∷ []);
})
error_catalog ErrorCode.request_validation_error = none

unfoldable pub or_default : Option ErrorCatalogEntry → ErrorCatalogEntry
or_default none = default_error_entry
or_default (some entry) = entry

-- `ERROR_CATALOG.get(code, DEFAULT_ERROR_ENTRY)`
unfoldable pub entry_of : ErrorCode → ErrorCatalogEntry
unfolding error_catalog or_default
entry_of code = or_default (error_catalog code)
