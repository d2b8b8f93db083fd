-- ===== src/Cli/Boundary.antt =====
-- apps/cli/src/trutina/cli/shared/formatters/error.py and shared/boundary/error_boundary.py: what the
-- terminal prints, and the line of the log, for an exception of a command. `Str` is that of
-- trutina.Api.Handlers. Left out: the traceback in the log, and the style of a panel.
pub mod Agree
use trutina.Base.{
  ◌≡◌, Bool, true, false, Option, none, some, List, [], ◌∷◌, ◌++◌, if◌then◌else◌, String, Text,
  text, map,
}
use trutina.Errors.{
  ErrorCode, Value, FieldViolation, AppError, SchemaError, Error, unknown_error, validation_error,
  storage_unavailable, storage_timeout, app_error, validation_app_error, schema_error,
  builtin_error,
}
use trutina.Errors.Codes.{code_text, error_code}
use trutina.Auth.Email.{is_empty}
use trutina.Api.Handlers.{Str, context_get}
use trutina.Cli.Messages.{ErrorDetail, errors}
use trutina.Cli.Hints.{hints, field_labels}

pub record FormattedError : Type 0 where
  pub field : Text
  pub message : String
  pub code : ErrorCode
  pub hint : String

-- A line of the log, "command.failed", at the level ERROR or INFO.
pub record CommandLog : Type 0 where
  pub is_error : Bool
  pub error_code : Text

-- What the boundary leaves behind before it exits with the code 1.
pub record Exit : Type 0 where
  pub log : CommandLog
  pub panels : List Text

abbrev pub or_unknown_detail : Option ErrorDetail → ErrorDetail
or_unknown_detail none = record {
  code = unknown_error;
  message = "An unexpected validation error occurred.";
}
or_unknown_detail (some detail) = detail

abbrev pub or_unknown_hint : Option String → String
or_unknown_hint none =
    "An unexpected validation error occurred. Check the field value and try again."
or_unknown_hint (some hint) = hint

-- `.get(key, "unknown")`
abbrev pub or_unknown_label : Option String → Text
or_unknown_label none = text "unknown"
or_unknown_label (some label) = text label

-- The detail and the hint of a code, at a field.
unfoldable pub formatted : Text → ErrorCode → FormattedError
unfolding errors hints
formatted field code =
    let detail = or_unknown_detail (errors code) in
    record {
      field = field;
      message = detail.message;
      code = detail.code;
      hint = or_unknown_hint (hints code);
    }

-- The code that a text names, and else the given one: the tables have no other keys.
abbrev pub or_code : ErrorCode → Option ErrorCode → ErrorCode
or_code code none = code
or_code code (some c) = c

-- `FIELD_LABELS.get(type)`
abbrev pub label_of : Option ErrorCode → Option String
label_of none = none
label_of (some c) = field_labels c

-- `_resolve_field`
unfoldable pub resolve_field : SchemaError → Text
unfolding is_empty field_labels error_code
resolve_field e =
    if is_empty (text e.loc) then or_unknown_label (label_of (error_code e.kind)) else text e.loc

-- `format_validation_errors`
unfoldable pub format_validation_errors : List SchemaError → List FormattedError
unfolding formatted resolve_field error_code
format_validation_errors es =
    map (λ e. formatted (resolve_field e) (or_code unknown_error (error_code e.kind))) es

-- `build_error_panels`: the content of each panel
unfoldable pub panel_content : FormattedError → Text
unfolding code_text
panel_content e =
    text "Field:   "
    ++ e.field
    ++ 10 ∷ text "Message: "
    ++ text e.message
    ++ 10 ∷ text "Code:    [warning]"
    ++ code_text e.code
    ++ text "[/]"
    ++ 10 ∷ 10 ∷ text "Hint:"
    ++ 10 ∷ text "  [info]"
    ++ text e.hint
    ++ text "[/]"

unfoldable pub build_error_panels : List FormattedError → List Text
unfolding panel_content
build_error_panels es = map panel_content es

-- `code in _ERROR_LEVEL_CODES`
unfoldable pub is_incident : ErrorCode → Bool
is_incident storage_unavailable = true
is_incident storage_timeout = true
is_incident unknown_error = true
is_incident _ = false

-- `_log_failure`
unfoldable pub log_command_failure : ErrorCode → CommandLog
unfolding is_incident code_text
log_command_failure code = record { is_error = is_incident code; error_code = code_text code }

-- The code that a text names, if the table of messages has it.
abbrev pub in_errors : Option ErrorCode → Option ErrorCode
in_errors none = none
in_errors (some c) = elim (errors c) [ none ↦ none | some detail ↦ some c ]

unfoldable pub violation_code : ErrorCode → Text → ErrorCode
unfolding errors error_code
violation_code unknown_error value = or_code unknown_error (in_errors (error_code value))
violation_code code value = code

module _ ⦃z : Str⦄ where
  abbrev field_of : AppError → Option Value → Text
  field_of e none = or_unknown_label (field_labels e.code)
  field_of e (some v) = z.str v

  -- `format_app_error`
  unfoldable pub format_app_error : AppError → FormattedError
  unfolding formatted context_get field_labels
  format_app_error e = formatted (field_of e (context_get e.context "field")) e.code

  -- `format_validation_app_error`
  unfoldable pub format_validation_app_error : List FieldViolation → List FormattedError
  unfolding formatted violation_code
  format_validation_app_error violations =
      map (λ v. formatted (text v.field) (violation_code v.code (z.str v.value))) violations

  -- `error_boundary`, around a call that raises: none where the exception goes on to the caller.
  unfoldable pub error_boundary : Error → Option Exit
  unfolding format_app_error format_validation_app_error format_validation_errors build_error_panels
      log_command_failure
  error_boundary (validation_app_error es) = some (record {
    log = log_command_failure validation_error;
    panels = build_error_panels (format_validation_app_error es);
  })
  error_boundary (app_error e) = some (record {
    log = log_command_failure e.code;
    panels = build_error_panels (format_app_error e ∷ []);
  })
  error_boundary (schema_error es) = some (record {
    log = log_command_failure validation_error;
    panels = build_error_panels (format_validation_errors es);
  })
  error_boundary (builtin_error name) = none
