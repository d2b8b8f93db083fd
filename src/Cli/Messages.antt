-- ===== src/Cli/Messages.antt =====
-- apps/cli/src/trutina/cli/shared/errors/errors.py: what the terminal says of an error code.
use trutina.Base.{Option, none, some, String}
use trutina.Errors.{ErrorCode}

pub record ErrorDetail : Type 0 where
  pub code : ErrorCode
  pub message : String

-- `ERRORS.get(code)`
unfoldable pub errors : ErrorCode → Option ErrorDetail
errors ErrorCode.unknown_error = some (record {
  code = ErrorCode.unknown_error;
  message = "An unexpected validation error occurred.";
})
errors ErrorCode.validation_error = some (record {
  code = ErrorCode.validation_error;
  message = "One or more fields failed validation.";
})
errors ErrorCode.required_field_code =
    some (record { code = ErrorCode.required_field_code; message = "This field is required." })
errors ErrorCode.invalid_number = some (record {
  code = ErrorCode.invalid_number;
  message = "The journal number must be a valid number.";
})
errors ErrorCode.invalid_decimal =
    some
      (record { code = ErrorCode.invalid_decimal; message = "A valid decimal amount is required." })
errors ErrorCode.string_type =
    some (record { code = ErrorCode.string_type; message = "This field must be text." })
errors ErrorCode.string_too_short =
    some (record { code = ErrorCode.string_too_short; message = "The value is too short." })
errors ErrorCode.string_too_long =
    some (record {
      code = ErrorCode.string_too_long;
      message = "The value exceeds the allowed length.";
    })
errors ErrorCode.too_short = some (record {
  code = ErrorCode.too_short;
  message = "The list does not meet the minimum required length.";
})
errors ErrorCode.too_long =
    some (record {
      code = ErrorCode.too_long;
      message = "The list exceeds the maximum allowed length.";
    })
errors ErrorCode.greater_than = some (record {
  code = ErrorCode.greater_than;
  message = "The value is below the minimum allowed value.";
})
errors ErrorCode.greater_than_equal = some (record {
  code = ErrorCode.greater_than_equal;
  message = "The value must be at or above the minimum allowed value.";
})
errors ErrorCode.less_than_equal =
    some (record {
      code = ErrorCode.less_than_equal;
      message = "The value exceeds the allowed limit.";
    })
errors ErrorCode.future_date =
    some (record {
      code = ErrorCode.future_date;
      message = "The posting date cannot be in the future.";
    })
errors ErrorCode.past_date = some (record {
  code = ErrorCode.past_date;
  message = "The posting date is outside the supported accounting period.";
})
errors ErrorCode.invalid_account_name = some (record {
  code = ErrorCode.invalid_account_name;
  message =
      "Account names must start with a letter and may otherwise contain only letters, digits, spaces, and single separators (& - ' . /) between words.";
})
errors ErrorCode.invalid_account_code = some (record {
  code = ErrorCode.invalid_account_code;
  message = "Account codes must be 4 to 6 digits, with no letters, spaces, or symbols.";
})
errors ErrorCode.unknown_account = some (record {
  code = ErrorCode.unknown_account;
  message = "The referenced account does not exist in the chart of accounts.";
})
errors ErrorCode.duplicate_account_code = some (record {
  code = ErrorCode.duplicate_account_code;
  message = "An account with this code already exists.";
})
errors ErrorCode.duplicate_account_name = some (record {
  code = ErrorCode.duplicate_account_name;
  message = "An account with this name already exists.";
})
errors ErrorCode.account_has_postings = some (record {
  code = ErrorCode.account_has_postings;
  message = "This account cannot be removed because it has ledger postings.";
})
errors ErrorCode.invalid_line_amounts = some (record {
  code = ErrorCode.invalid_line_amounts;
  message =
      "A journal line must contain either a debit amount or a credit amount, not both and not neither.";
})
errors ErrorCode.unbalanced_entry = some (record {
  code = ErrorCode.unbalanced_entry;
  message = "The journal entry is not balanced. Total debits must equal total credits.";
})
errors ErrorCode.unknown_journal_entry = some (record {
  code = ErrorCode.unknown_journal_entry;
  message = "No journal entry exists with that journal number.";
})
errors ErrorCode.duplicate_journal_number = some (record {
  code = ErrorCode.duplicate_journal_number;
  message = "A journal entry with this journal number already exists.";
})
errors ErrorCode.journal_already_posted = some (record {
  code = ErrorCode.journal_already_posted;
  message = "This journal entry has already been posted to the ledger.";
})
errors ErrorCode.duplicate_user_email = some (record {
  code = ErrorCode.duplicate_user_email;
  message = "A user with this email already exists.";
})
errors ErrorCode.unknown_user =
    some
      (record { code = ErrorCode.unknown_user; message = "No user exists with that identifier." })
errors ErrorCode.invalid_email =
    some (record { code = ErrorCode.invalid_email; message = "The email address is not valid." })
errors ErrorCode.auth_invalid_credentials = some (record {
  code = ErrorCode.auth_invalid_credentials;
  message = "The email or password is incorrect.";
})
errors ErrorCode.auth_throttled =
    some (record { code = ErrorCode.auth_throttled; message = "Too many sign-in attempts." })
errors ErrorCode.storage_unavailable = some (record {
  code = ErrorCode.storage_unavailable;
  message = "The database could not be reached.";
})
errors ErrorCode.storage_timeout =
    some (record {
      code = ErrorCode.storage_timeout;
      message = "The database did not respond in time.";
    })
errors ErrorCode.request_validation_error = none
