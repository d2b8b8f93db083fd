-- ===== src/Cli/Boundary/Agree.antt =====
-- The terminal says the same of a failure whether a service has translated it, and takes for an
-- incident what the API takes for one.
use trutina.Base.{
  ◌≡◌, ◌≢◌, refl, sym, ap, ap₂, ◌∙◌, true, false, Bool, inl, inr, Bool-cases, Option, some, none,
  List, [], ◌∷◌, map, Text, leb,
}
use trutina.Errors.{
  ErrorCode, request_validation_error, SchemaError, Error, unknown_error, is_pydantic_code,
  violation_of, kept_code, field_violation, get_field_violations, app_error, validation_app_error,
  schema_error, builtin_error, validation_error,
}
use trutina.Errors.Codes.{error_code}
use trutina.Api.Catalog.{entry_of, error_catalog, or_default}
use trutina.Api.Handlers.{
  Str, Request, handle, log_failure, violations_response, handle_app_error,
  handle_validation_app_error, handle_pydantic_validation_error,
}
use trutina.Cli.Messages.{errors}
use trutina.Cli.Hints.{hints}
use trutina.Cli.Boundary.{
  FormattedError, Exit, formatted, violation_code, in_errors, or_code, is_incident,
  log_command_failure, format_validation_errors, format_validation_app_error, error_boundary,
}

-- What is shown of a code at no field.
abbrev shown : ErrorCode → FormattedError
shown code = formatted [] code

-- A panel without its field.
abbrev pub without_field : FormattedError → FormattedError
without_field e = record e { field = [] }

-- A code that the table lacks is shown as an unknown error.
shown-in_errors : (c : ErrorCode) → shown (or_code unknown_error (in_errors (some c))) ≡ shown c
unfolding formatted errors hints
shown-in_errors ErrorCode.unknown_error = refl
shown-in_errors ErrorCode.validation_error = refl
shown-in_errors ErrorCode.request_validation_error = refl
shown-in_errors ErrorCode.required_field_code = refl
shown-in_errors ErrorCode.invalid_number = refl
shown-in_errors ErrorCode.invalid_decimal = refl
shown-in_errors ErrorCode.string_type = refl
shown-in_errors ErrorCode.string_too_short = refl
shown-in_errors ErrorCode.string_too_long = refl
shown-in_errors ErrorCode.too_short = refl
shown-in_errors ErrorCode.too_long = refl
shown-in_errors ErrorCode.greater_than = refl
shown-in_errors ErrorCode.greater_than_equal = refl
shown-in_errors ErrorCode.less_than_equal = refl
shown-in_errors ErrorCode.future_date = refl
shown-in_errors ErrorCode.past_date = refl
shown-in_errors ErrorCode.invalid_account_name = refl
shown-in_errors ErrorCode.invalid_account_code = refl
shown-in_errors ErrorCode.unknown_account = refl
shown-in_errors ErrorCode.duplicate_account_code = refl
shown-in_errors ErrorCode.duplicate_account_name = refl
shown-in_errors ErrorCode.account_has_postings = refl
shown-in_errors ErrorCode.invalid_line_amounts = refl
shown-in_errors ErrorCode.unbalanced_entry = refl
shown-in_errors ErrorCode.unknown_journal_entry = refl
shown-in_errors ErrorCode.duplicate_journal_number = refl
shown-in_errors ErrorCode.journal_already_posted = refl
shown-in_errors ErrorCode.storage_unavailable = refl
shown-in_errors ErrorCode.storage_timeout = refl
shown-in_errors ErrorCode.duplicate_user_email = refl
shown-in_errors ErrorCode.unknown_user = refl
shown-in_errors ErrorCode.invalid_email = refl
shown-in_errors ErrorCode.auth_invalid_credentials = refl
shown-in_errors ErrorCode.auth_throttled = refl

-- A code of Pydantic is not that of an unknown error.
violation_code-pydantic :
    (c : ErrorCode) (value : Text) → is_pydantic_code c ≡ true → violation_code c value ≡ c
unfolding is_pydantic_code violation_code
violation_code-pydantic ErrorCode.unknown_error value h = cc
violation_code-pydantic c value h = refl

-- The terminal logs at ERROR what the API answers with a status of at least 500.
is_incident-status :
    (c : ErrorCode)
    → c ≢ request_validation_error
    → is_incident c ≡ leb 500 (entry_of c).status_code
unfolding is_incident entry_of error_catalog or_default
is_incident-status ErrorCode.unknown_error h = refl
is_incident-status ErrorCode.validation_error h = refl
is_incident-status ErrorCode.request_validation_error h = absurd (h refl)
is_incident-status ErrorCode.required_field_code h = refl
is_incident-status ErrorCode.invalid_number h = refl
is_incident-status ErrorCode.invalid_decimal h = refl
is_incident-status ErrorCode.string_type h = refl
is_incident-status ErrorCode.string_too_short h = refl
is_incident-status ErrorCode.string_too_long h = refl
is_incident-status ErrorCode.too_short h = refl
is_incident-status ErrorCode.too_long h = refl
is_incident-status ErrorCode.greater_than h = refl
is_incident-status ErrorCode.greater_than_equal h = refl
is_incident-status ErrorCode.less_than_equal h = refl
is_incident-status ErrorCode.future_date h = refl
is_incident-status ErrorCode.past_date h = refl
is_incident-status ErrorCode.invalid_account_name h = refl
is_incident-status ErrorCode.invalid_account_code h = refl
is_incident-status ErrorCode.unknown_account h = refl
is_incident-status ErrorCode.duplicate_account_code h = refl
is_incident-status ErrorCode.duplicate_account_name h = refl
is_incident-status ErrorCode.account_has_postings h = refl
is_incident-status ErrorCode.invalid_line_amounts h = refl
is_incident-status ErrorCode.unbalanced_entry h = refl
is_incident-status ErrorCode.unknown_journal_entry h = refl
is_incident-status ErrorCode.duplicate_journal_number h = refl
is_incident-status ErrorCode.journal_already_posted h = refl
is_incident-status ErrorCode.storage_unavailable h = refl
is_incident-status ErrorCode.storage_timeout h = refl
is_incident-status ErrorCode.duplicate_user_email h = refl
is_incident-status ErrorCode.unknown_user h = refl
is_incident-status ErrorCode.invalid_email h = refl
is_incident-status ErrorCode.auth_invalid_credentials h = refl
is_incident-status ErrorCode.auth_throttled h = refl

-- The code of an exception that the boundary catches.
abbrev pub raised_code : Error → ErrorCode
raised_code (app_error e) = e.code
raised_code _ = validation_error

-- Whether the line of the log is at ERROR.
abbrev exit_error : Option Exit → Bool
exit_error none = false
exit_error (some x) = x.log.is_error

module _ ⦃z : Str⦄ where
  shown-field_violation :
      (e : SchemaError)
      → shown (violation_code (field_violation e).code (z.str (field_violation e).value))
        ≡ shown (or_code unknown_error (error_code e.kind))
  unfolding field_violation violation_code
  shown-field_violation e = of (error_code e.kind) refl
    where
      of :
          (found : Option ErrorCode)
          → error_code e.kind ≡ found
          → shown (
              violation_code
                (violation_of e (kept_code found)).code
                (z.str (violation_of e (kept_code found)).value))
            ≡ shown (or_code unknown_error found)
      of none named = rw (z.str_string e.kind, named) refl
      of (some c) named = elim (Bool-cases (is_pydantic_code c)) [
        | inl pydantic ↦ rw pydantic (ap shown (violation_code-pydantic c (z.str e.input) pydantic))
        | inr other ↦ rw (other, z.str_string e.kind, named) (shown-in_errors c)
      ]

  -- The terminal shows the same codes, messages and hints, in the same order, for schema failures
  -- that a service has translated as for those that Pydantic raised, whatever the fields.
  pub format_validation_app_error-get_field_violations :
      (es : List SchemaError)
      → map without_field (format_validation_app_error (get_field_violations es))
        ≡ map without_field (format_validation_errors es)
  unfolding format_validation_app_error format_validation_errors get_field_violations formatted
  format_validation_app_error-get_field_violations [] = refl
  format_validation_app_error-get_field_violations (e ∷ es) =
      ap₂ ◌∷◌ (shown-field_violation e) (format_validation_app_error-get_field_violations es)

  -- For every exception that the error boundary of the command line catches, other than an
  -- application error with the code of a request validation error, the line of its log has the
  -- level ERROR exactly if the line of the log of the API for the same exception has.
  pub error_boundary-handle :
      (request : Request) (e : Error) (x : Exit)
      → raised_code e ≢ request_validation_error
      → error_boundary e ≡ some x
      → x.log.is_error ≡ (handle request e).1.is_error
  unfolding error_boundary log_command_failure is_incident handle log_failure violations_response
      handle_app_error handle_validation_app_error handle_pydantic_validation_error entry_of
      error_catalog or_default
  error_boundary-handle request (app_error e) x raised h =
      sym (ap exit_error h) ∙ is_incident-status e.code raised
  error_boundary-handle request (validation_app_error es) x raised h = sym (ap exit_error h)
  error_boundary-handle request (schema_error es) x raised h = sym (ap exit_error h)
  error_boundary-handle request (builtin_error name) x raised h = cc
