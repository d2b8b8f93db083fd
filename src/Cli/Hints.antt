-- ===== src/Cli/Hints.antt =====
-- apps/cli/src/trutina/cli/shared/errors/hint.py: what to do about an error, and the label of a field.
use trutina.Base.{Option, none, some, String}
use trutina.Errors.{ErrorCode}

-- `HINTS.get(code)`
unfoldable pub hints : ErrorCode → Option String
hints ErrorCode.unknown_error =
    some "An unexpected validation error occurred. Check the field value and try again."
hints ErrorCode.validation_error =
    some "Review each field listed below and correct the indicated issue."
hints ErrorCode.required_field_code = some "Provide a value for this field before continuing."
hints ErrorCode.invalid_number =
    some
      "Enter a whole number for the journal entry, or leave it blank and one will be assigned automatically."
hints ErrorCode.invalid_decimal = some "Enter a monetary amount such as 100 or 100.50."
hints ErrorCode.string_type = some "Provide a text value for this field."
hints ErrorCode.string_too_short = some "Provide a longer value."
hints ErrorCode.string_too_long = some "Shorten the value and try again."
hints ErrorCode.too_short = some "Provide at least the minimum number of items required."
hints ErrorCode.too_long = some "Remove items until the list meets the maximum allowed length."
hints ErrorCode.greater_than = some "Provide a value that is above the minimum allowed."
hints ErrorCode.greater_than_equal =
    some "Provide a value that meets or exceeds the minimum allowed."
hints ErrorCode.less_than_equal = some "Provide a value that does not exceed the allowed limit."
hints ErrorCode.future_date =
    some
      "Use today's date or a date in the past. Leave it blank and today's date will be used automatically."
hints ErrorCode.past_date =
    some
      "Use a more recent posting date. Dates before 2020 are outside the supported accounting period."
hints ErrorCode.invalid_account_name =
    some
      "Start the name with a letter, and use only letters, digits, spaces, and single & - ' . / separators between words."
hints ErrorCode.invalid_account_code =
    some "Use only the digits 0-9, between 4 and 6 of them, for example 1001."
hints ErrorCode.unknown_account =
    some
      "This account does not exist in the chart of accounts. Add it to the chart of accounts first, or check for a typo in the name."
hints ErrorCode.duplicate_account_code =
    some "Choose a different account code, or update the existing account instead."
hints ErrorCode.duplicate_account_name =
    some "Account names must be unique, regardless of case. Choose a different name."
hints ErrorCode.account_has_postings =
    some "Accounts with existing ledger postings cannot be removed."
hints ErrorCode.invalid_line_amounts =
    some
      "Set either the debit amount or the credit amount to a value greater than zero. A single line cannot carry both a debit and a credit, and it cannot carry neither."
hints ErrorCode.unbalanced_entry =
    some
      "Check that the total of all debit amounts equals the total of all credit amounts across every line in the entry."
hints ErrorCode.unknown_journal_entry =
    some "Check the journal number, or list journal entries to find the correct one."
hints ErrorCode.duplicate_journal_number =
    some
      "This indicates a journal-number allocation defect rather than user input -- retry the operation."
hints ErrorCode.journal_already_posted =
    some "Look up existing postings for this journal entry instead of posting it again."
hints ErrorCode.duplicate_user_email = some "Use a different email address."
hints ErrorCode.unknown_user = some "Check the user identifier and try again."
hints ErrorCode.invalid_email = some "Use an address such as name@example.com."
hints ErrorCode.auth_invalid_credentials = some "Check the email and password and try again."
hints ErrorCode.auth_throttled = some "Wait before trying again."
hints ErrorCode.storage_unavailable =
    some "Check that the server is running and reachable, then try again."
hints ErrorCode.storage_timeout =
    some "The database took too long to respond. Check connectivity and try again."
hints ErrorCode.request_validation_error = none

-- `FIELD_LABELS.get(code)`
unfoldable pub field_labels : ErrorCode → Option String
field_labels ErrorCode.unbalanced_entry = some "lines (balance)"
field_labels ErrorCode.invalid_line_amounts = some "lines (amounts)"
field_labels ErrorCode.future_date = some "posting_date"
field_labels ErrorCode.duplicate_account_code = some "code"
field_labels ErrorCode.duplicate_account_name = some "name"
field_labels ErrorCode.unknown_account = some "code"
field_labels ErrorCode.account_has_postings = some "code"
field_labels ErrorCode.unknown_journal_entry = some "journal_number"
field_labels ErrorCode.duplicate_journal_number = some "journal_number"
field_labels ErrorCode.journal_already_posted = some "journal_number"
field_labels ErrorCode.duplicate_user_email = some "email"
field_labels ErrorCode.unknown_user = some "user_id"
field_labels ErrorCode.invalid_email = some "email"
field_labels ErrorCode.auth_invalid_credentials = some "credentials"
field_labels _ = none
