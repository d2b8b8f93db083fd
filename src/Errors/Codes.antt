-- ===== src/Errors/Codes.antt =====
-- packages/shared/src/trutina/shared/errors/codes.py: the error codes, the text of an error code, and the code that a
-- text names.
use trutina.Base.{◌≡◌, refl, List, [], ◌∷◌, Option, some, find, Text, text, same, Text-discrete}

pub data ErrorCode : Type 0 where
  unknown_error validation_error request_validation_error : ErrorCode
  required_field_code invalid_number invalid_decimal string_type : ErrorCode
  string_too_short string_too_long too_short too_long : ErrorCode
  greater_than greater_than_equal less_than_equal : ErrorCode
  future_date past_date : ErrorCode
  invalid_account_name invalid_account_code unknown_account : ErrorCode
  duplicate_account_code duplicate_account_name account_has_postings : ErrorCode
  invalid_line_amounts unbalanced_entry : ErrorCode
  unknown_journal_entry duplicate_journal_number journal_already_posted : ErrorCode
  storage_unavailable storage_timeout : ErrorCode
  duplicate_user_email unknown_user invalid_email : ErrorCode
  auth_invalid_credentials auth_throttled : ErrorCode

-- `code.value`
unfoldable pub code_text : ErrorCode → Text
code_text ErrorCode.unknown_error = text "error.unknown"
code_text ErrorCode.validation_error = text "error.validation"
code_text ErrorCode.request_validation_error = text "request.invalid"
code_text ErrorCode.required_field_code = text "missing"
code_text ErrorCode.invalid_number = text "int_parsing"
code_text ErrorCode.invalid_decimal = text "decimal_parsing"
code_text ErrorCode.string_type = text "string_type"
code_text ErrorCode.string_too_short = text "string_too_short"
code_text ErrorCode.string_too_long = text "string_too_long"
code_text ErrorCode.too_short = text "too_short"
code_text ErrorCode.too_long = text "too_long"
code_text ErrorCode.greater_than = text "greater_than"
code_text ErrorCode.greater_than_equal = text "greater_than_equal"
code_text ErrorCode.less_than_equal = text "less_than_equal"
code_text ErrorCode.future_date = text "date.future"
code_text ErrorCode.past_date = text "date.past"
code_text ErrorCode.invalid_account_name = text "account.invalid_name"
code_text ErrorCode.invalid_account_code = text "account.invalid_code"
code_text ErrorCode.unknown_account = text "account.unknown"
code_text ErrorCode.duplicate_account_code = text "account.duplicate_code"
code_text ErrorCode.duplicate_account_name = text "account.duplicate_name"
code_text ErrorCode.account_has_postings = text "account.has_postings"
code_text ErrorCode.invalid_line_amounts = text "journal.invalid_line_amounts"
code_text ErrorCode.unbalanced_entry = text "journal.unbalanced"
code_text ErrorCode.unknown_journal_entry = text "journal.unknown_entry"
code_text ErrorCode.duplicate_journal_number = text "journal.duplicate_number"
code_text ErrorCode.journal_already_posted = text "posting.already_posted"
code_text ErrorCode.storage_unavailable = text "storage.unavailable"
code_text ErrorCode.storage_timeout = text "storage.timeout"
code_text ErrorCode.duplicate_user_email = text "user.duplicate_email"
code_text ErrorCode.unknown_user = text "user.unknown"
code_text ErrorCode.invalid_email = text "user.invalid_email"
code_text ErrorCode.auth_invalid_credentials = text "auth.invalid_credentials"
code_text ErrorCode.auth_throttled = text "auth.throttled"

-- The members of the enumeration.
abbrev pub all_codes : List ErrorCode
all_codes =
    ErrorCode.unknown_error ∷ ErrorCode.validation_error ∷ ErrorCode.request_validation_error
    ∷ ErrorCode.required_field_code ∷ ErrorCode.invalid_number ∷ ErrorCode.invalid_decimal
    ∷ ErrorCode.string_type ∷ ErrorCode.string_too_short ∷ ErrorCode.string_too_long
    ∷ ErrorCode.too_short ∷ ErrorCode.too_long ∷ ErrorCode.greater_than
    ∷ ErrorCode.greater_than_equal ∷ ErrorCode.less_than_equal ∷ ErrorCode.future_date
    ∷ ErrorCode.past_date ∷ ErrorCode.invalid_account_name ∷ ErrorCode.invalid_account_code
    ∷ ErrorCode.unknown_account ∷ ErrorCode.duplicate_account_code
    ∷ ErrorCode.duplicate_account_name ∷ ErrorCode.account_has_postings
    ∷ ErrorCode.invalid_line_amounts ∷ ErrorCode.unbalanced_entry ∷ ErrorCode.unknown_journal_entry
    ∷ ErrorCode.duplicate_journal_number ∷ ErrorCode.journal_already_posted
    ∷ ErrorCode.storage_unavailable ∷ ErrorCode.storage_timeout ∷ ErrorCode.duplicate_user_email
    ∷ ErrorCode.unknown_user ∷ ErrorCode.invalid_email ∷ ErrorCode.auth_invalid_credentials
    ∷ ErrorCode.auth_throttled ∷ []

-- `ErrorCode(value)`: none for a `ValueError`.
unfoldable pub error_code : Text → Option ErrorCode
unfolding code_text
error_code value = find (λ c. same (code_text c) value) all_codes

-- x
pub error_code-code_text : (c : ErrorCode) → error_code (code_text c) ≡ some c
unfolding error_code code_text Text-discrete
error_code-code_text ErrorCode.unknown_error = refl
error_code-code_text ErrorCode.validation_error = refl
error_code-code_text ErrorCode.request_validation_error = refl
error_code-code_text ErrorCode.required_field_code = refl
error_code-code_text ErrorCode.invalid_number = refl
error_code-code_text ErrorCode.invalid_decimal = refl
error_code-code_text ErrorCode.string_type = refl
error_code-code_text ErrorCode.string_too_short = refl
error_code-code_text ErrorCode.string_too_long = refl
error_code-code_text ErrorCode.too_short = refl
error_code-code_text ErrorCode.too_long = refl
error_code-code_text ErrorCode.greater_than = refl
error_code-code_text ErrorCode.greater_than_equal = refl
error_code-code_text ErrorCode.less_than_equal = refl
error_code-code_text ErrorCode.future_date = refl
error_code-code_text ErrorCode.past_date = refl
error_code-code_text ErrorCode.invalid_account_name = refl
error_code-code_text ErrorCode.invalid_account_code = refl
error_code-code_text ErrorCode.unknown_account = refl
error_code-code_text ErrorCode.duplicate_account_code = refl
error_code-code_text ErrorCode.duplicate_account_name = refl
error_code-code_text ErrorCode.account_has_postings = refl
error_code-code_text ErrorCode.invalid_line_amounts = refl
error_code-code_text ErrorCode.unbalanced_entry = refl
error_code-code_text ErrorCode.unknown_journal_entry = refl
error_code-code_text ErrorCode.duplicate_journal_number = refl
error_code-code_text ErrorCode.journal_already_posted = refl
error_code-code_text ErrorCode.storage_unavailable = refl
error_code-code_text ErrorCode.storage_timeout = refl
error_code-code_text ErrorCode.duplicate_user_email = refl
error_code-code_text ErrorCode.unknown_user = refl
error_code-code_text ErrorCode.invalid_email = refl
error_code-code_text ErrorCode.auth_invalid_credentials = refl
error_code-code_text ErrorCode.auth_throttled = refl
