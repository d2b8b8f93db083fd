-- ===== src/Api/Handlers.antt =====
-- apps/api/src/trutina/api/shared/errors/handlers.py: the response, and the line of the log, that an
-- exception is translated to. `Str` is `str()` of the values that a context or a violation keeps.
pub mod Codes
pub mod Bodies
pub mod Login
pub mod Messages
use trutina.Base.{
  ℕ, ◌≡◌, Bool, true, false, not, ◌&&◌, Option, none, some, List, [], ◌∷◌, ◌++◌, if◌then◌else◌, leb,
  String, Text, text, same, any, find, select, map, are_digits, int_of, str_of,
}
use trutina.Errors.{
  ErrorCode, Value, FieldViolation, AppError, SchemaError, Error, string, integer, unknown_error,
  validation_error, request_validation_error, storage_unavailable, storage_timeout, auth_throttled,
  app_error, validation_app_error, schema_error, builtin_error, get_field_violations,
}
use trutina.Errors.Codes.{code_text, error_code}
use trutina.Auth.Email.{is_empty}
use trutina.Api.Catalog.{
  Piece, literal, placeholder, Template, ErrorCatalogEntry, default_error_entry, error_catalog,
  entry_of,
}

pub record Str : Type 0 where
  pub str : Value → Text
  pub str_string : (t : Text) → str (string t) ≡ t
  pub str_integer : (n : ℕ) → str (integer n) ≡ str_of n

pub record Request : Type 0 where
  pub path : Text
  -- `request.state.correlation_id`, if the middleware stored one
  pub correlation_id : Option Text

-- One entry of `RequestValidationError.errors()`.
pub record RequestError : Type 0 where
  pub loc : List Text
  pub kind : Text
  pub msg : Text

pub record FieldErrorDetail : Type 0 where
  pub field : Text
  pub code : Text
  pub message : Text
  pub hint : Option Text

-- ErrorResponse, or ValidationErrorResponse where there are details.
pub record ErrorBody : Type 0 where
  pub error_code : Text
  pub message : Text
  pub hint : Option Text
  pub details : Option (List FieldErrorDetail)

pub record Response : Type 0 where
  pub status_code : ℕ
  pub body : ErrorBody
  pub headers : List (String × Text)

pub record FailureLog : Type 0 where
  -- the level is ERROR, or INFO
  pub is_error : Bool
  pub error_code : Text
  pub http_status : ℕ
  pub route : Text
  pub correlation_id : Option Text
  pub has_exc_info : Bool

-- `_log_failure`
unfoldable pub log_failure : Request → ℕ → Text → Bool → FailureLog
log_failure request status_code error_code log_exc_info = record {
  is_error = leb 500 status_code;
  error_code = error_code;
  http_status = status_code;
  route = request.path;
  correlation_id = request.correlation_id;
  has_exc_info = log_exc_info;
}

-- `context.get(key)`
unfoldable pub context_get : List (String × Value) → String → Option Value
context_get [] key = none
context_get ((k, v) ∷ context) key =
    let rest = context_get context key in if same (text k) (text key) then some v else rest

-- The text of a template, as it is written in the catalog.
unfoldable pub source_text : Template → Text
source_text [] = []
source_text (literal s ∷ rest) = text s ++ source_text rest
source_text (placeholder name ∷ rest) = 123 ∷ text name ++ 125 ∷ source_text rest

-- The template of a message whose placeholders, if any, stand for nothing.
abbrev pub plain : Option Template → Option Text
plain none = none
plain (some template) = some (source_text template)

-- `{"body", "query", "path", "header"}`
abbrev pub request_location_prefixes : List Text
request_location_prefixes = text "body" ∷ text "query" ∷ text "path" ∷ text "header" ∷ []

-- `".".join(parts)`
unfoldable pub join_dots : List Text → Text
join_dots [] = []
join_dots (p ∷ []) = p
join_dots (p ∷ q ∷ rest) = p ++ 46 ∷ join_dots (q ∷ rest)

unfoldable pub request_detail : RequestError → FieldErrorDetail
unfolding join_dots
request_detail e = record {
  field = join_dots (select (λ p. not (any (λ x. same x p) request_location_prefixes)) e.loc);
  code = e.kind;
  message = e.msg;
  hint = none;
}

-- `code in _RETRYABLE_CODES`
unfoldable pub is_retryable : ErrorCode → Bool
is_retryable storage_unavailable = true
is_retryable storage_timeout = true
is_retryable _ = false

unfoldable pub is_throttled : ErrorCode → Bool
is_throttled auth_throttled = true
is_throttled _ = false

-- `_handle_request_validation_error`
unfoldable pub handle_request_validation_error : Request → List RequestError → Response × FailureLog
unfolding request_detail entry_of source_text log_failure code_text
handle_request_validation_error request errors =
    let entry = entry_of validation_error in
    (
      record {
        status_code = entry.status_code;
        body = record {
          error_code = code_text request_validation_error;
          message = source_text entry.message;
          hint = plain entry.hint;
          details = some (map request_detail errors);
        };
        headers = [];
      },
      log_failure request entry.status_code (code_text request_validation_error) false,
    )

-- `{"X-Request-ID": correlation_id} if correlation_id else None`
unfoldable pub request_id_header : Option Text → List (String × Text)
request_id_header none = []
request_id_header (some []) = []
request_id_header (some (c ∷ id)) = ("X-Request-ID", c ∷ id) ∷ []

-- `_handle_unexpected_error`
unfoldable pub handle_unexpected_error : Request → Response × FailureLog
unfolding source_text log_failure request_id_header code_text
handle_unexpected_error request = (
  record {
    status_code = default_error_entry.status_code;
    body = record {
      error_code = code_text unknown_error;
      message = source_text default_error_entry.message;
      hint = none;
      details = none;
    };
    headers = request_id_header request.correlation_id;
  },
  log_failure request default_error_entry.status_code (code_text unknown_error) true,
)

-- `ErrorCode(value)`, and the code of an unknown error on `ValueError`.
abbrev pub or_unknown_error : Option ErrorCode → ErrorCode
or_unknown_error none = unknown_error
or_unknown_error (some c) = c

unfoldable pub recover : Text → ErrorCode
recover value = or_unknown_error (error_code value)

-- `_resolve_violation_code`, on the code of a violation and the text of its value.
unfoldable pub resolve_code : ErrorCode → Text → ErrorCode
unfolding recover
resolve_code unknown_error value = recover value
resolve_code code value = code

module _ ⦃z : Str⦄ where
  -- `template.format(**context)`: none for a `KeyError`.
  unfoldable pub format : List (String × Value) → Template → Option Text
  unfolding context_get
  format context [] = some []
  format context (literal s ∷ rest) = elim (format context rest) [
    | none ↦ none
    | some t ↦ some (text s ++ t)
  ]
  format context (placeholder name ∷ rest) = elim (context_get context name) [
    | none ↦ none
    | some v ↦ elim (format context rest) [ none ↦ none | some t ↦ some (z.str v ++ t) ]
  ]

  -- `_fill`
  unfoldable pub fill : Template → List (String × Value) → Text
  unfolding format source_text
  fill template context = elim (format context template) [
    | none ↦ source_text template
    | some t ↦ t
  ]

  -- `_fill_hint`
  unfoldable pub fill_hint : Option Template → List (String × Value) → Option Text
  unfolding fill
  fill_hint none context = none
  fill_hint (some template) context = some (fill template context)

  -- `_resolve_violation_code`
  unfoldable pub resolve_violation_code : FieldViolation → ErrorCode
  unfolding resolve_code
  resolve_violation_code violation = resolve_code violation.code (z.str violation.value)

  -- `_resolve_violation_entry`
  unfoldable pub resolve_violation_entry : FieldViolation → ErrorCatalogEntry
  unfolding resolve_violation_code entry_of
  resolve_violation_entry violation = entry_of (resolve_violation_code violation)

  -- The body of the loop of `_build_field_details`.
  unfoldable pub field_detail : FieldViolation → FieldErrorDetail
  unfolding resolve_violation_code resolve_violation_entry code_text source_text
  field_detail violation =
      let entry = resolve_violation_entry violation in
      record {
        field = text violation.field;
        code = code_text (resolve_violation_code violation);
        message = source_text entry.message;
        hint = plain entry.hint;
      }

  -- `_build_field_details`
  unfoldable pub build_field_details : List FieldViolation → List FieldErrorDetail
  unfolding field_detail
  build_field_details violations = map field_detail violations

  -- `_throttle_retry_after`. `isascii` and `isdigit` together leave the digits of ASCII.
  unfoldable pub throttle_retry_after : List (String × Value) → Option Text
  unfolding context_get are_digits is_empty str_of int_of
  throttle_retry_after context = retry_after (context_get context "retry_after_seconds")
    where
      retry_after : Option Value → Option Text
      retry_after none = none
      retry_after (some v) =
          if not (is_empty (z.str v)) && are_digits (z.str v)
          then some (str_of (int_of (z.str v)))
          else none

  -- `_response_headers`: no headers where the source returns `None`.
  unfoldable pub response_headers : ErrorCode → List (String × Value) → List (String × Text)
  unfolding is_retryable is_throttled throttle_retry_after
  response_headers code context =
      if is_retryable code
      then ("Retry-After", text "5") ∷ []
      else if is_throttled code
      then elim (throttle_retry_after context) [ none ↦ [] | some s ↦ ("Retry-After", s) ∷ [] ]
      else []

  -- The body that reports violations, and its log line; `named`: the error code of the body.
  unfoldable pub violations_response :
      Request → ErrorCode → List FieldViolation → Response × FailureLog
  unfolding entry_of build_field_details source_text log_failure code_text
  violations_response request named violations =
      let entry = entry_of validation_error in
      (
        record {
          status_code = entry.status_code;
          body = record {
            error_code = code_text named;
            message = source_text entry.message;
            hint = plain entry.hint;
            details = some (build_field_details violations);
          };
          headers = [];
        },
        log_failure request entry.status_code (code_text named) false,
      )

  -- `_handle_validation_app_error`. The code of the exception is VALIDATION_ERROR.
  unfoldable pub handle_validation_app_error : Request → List FieldViolation → Response × FailureLog
  unfolding violations_response
  handle_validation_app_error request errors = violations_response request validation_error errors

  -- `_handle_pydantic_validation_error`
  unfoldable pub handle_pydantic_validation_error :
      Request → List SchemaError → Response × FailureLog
  unfolding violations_response get_field_violations
  handle_pydantic_validation_error request errors =
      violations_response request request_validation_error (get_field_violations errors)

  -- `_handle_app_error`
  unfoldable pub handle_app_error : Request → AppError → Response × FailureLog
  unfolding entry_of fill fill_hint response_headers log_failure code_text
  handle_app_error request e =
      let entry = entry_of e.code in
      (
        record {
          status_code = entry.status_code;
          body = record {
            error_code = code_text e.code;
            message = fill entry.message e.context;
            hint = fill_hint entry.hint e.context;
            details = none;
          };
          headers = response_headers e.code e.context;
        },
        log_failure request entry.status_code (code_text e.code) (leb 500 entry.status_code),
      )

  -- `register_exception_handlers`: the handler that an exception of the services is given to.
  unfoldable pub handle : Request → Error → Response × FailureLog
  unfolding handle_app_error handle_validation_app_error handle_pydantic_validation_error
      handle_unexpected_error
  handle request (app_error e) = handle_app_error request e
  handle request (validation_app_error errors) = handle_validation_app_error request errors
  handle request (schema_error errors) = handle_pydantic_validation_error request errors
  handle request (builtin_error name) = handle_unexpected_error request
