-- ===== src/Api/Handlers/Bodies.antt =====
-- The response and the line of the log that every exception comes to.
use trutina.Base.{◌≤◌, ◌≡◌, refl, ap₂, ap, Option, none, some, List, [], ◌∷◌, map, Text, arith, leb}
use trutina.Errors.{
  ErrorCode, SchemaError, Error, app_error, validation_app_error, schema_error, builtin_error,
  validation, get_field_violations,
}
use trutina.Errors.Codes.{code_text}
use trutina.Api.Catalog.{error_catalog, or_default, entry_of}
use trutina.Api.Handlers.{
  Str, recover, Request, Response, FailureLog, FieldErrorDetail, log_failure, field_detail,
  build_field_details, violations_response, handle_app_error, handle_validation_app_error,
  handle_pydantic_validation_error, handle_unexpected_error, handle,
}
use trutina.Api.Handlers.Codes.{resolve_violation_code-field_violation}

-- Every code has a status of an error.
entry_of-status : (c : ErrorCode) → 400 ≤ (entry_of c).status_code
unfolding entry_of error_catalog or_default
entry_of-status ErrorCode.unknown_error = omega arith
entry_of-status ErrorCode.validation_error = omega arith
entry_of-status ErrorCode.request_validation_error = omega arith
entry_of-status ErrorCode.required_field_code = omega arith
entry_of-status ErrorCode.invalid_number = omega arith
entry_of-status ErrorCode.invalid_decimal = omega arith
entry_of-status ErrorCode.string_type = omega arith
entry_of-status ErrorCode.string_too_short = omega arith
entry_of-status ErrorCode.string_too_long = omega arith
entry_of-status ErrorCode.too_short = omega arith
entry_of-status ErrorCode.too_long = omega arith
entry_of-status ErrorCode.greater_than = omega arith
entry_of-status ErrorCode.greater_than_equal = omega arith
entry_of-status ErrorCode.less_than_equal = omega arith
entry_of-status ErrorCode.future_date = omega arith
entry_of-status ErrorCode.past_date = omega arith
entry_of-status ErrorCode.invalid_account_name = omega arith
entry_of-status ErrorCode.invalid_account_code = omega arith
entry_of-status ErrorCode.unknown_account = omega arith
entry_of-status ErrorCode.duplicate_account_code = omega arith
entry_of-status ErrorCode.duplicate_account_name = omega arith
entry_of-status ErrorCode.account_has_postings = omega arith
entry_of-status ErrorCode.invalid_line_amounts = omega arith
entry_of-status ErrorCode.unbalanced_entry = omega arith
entry_of-status ErrorCode.unknown_journal_entry = omega arith
entry_of-status ErrorCode.duplicate_journal_number = omega arith
entry_of-status ErrorCode.journal_already_posted = omega arith
entry_of-status ErrorCode.storage_unavailable = omega arith
entry_of-status ErrorCode.storage_timeout = omega arith
entry_of-status ErrorCode.duplicate_user_email = omega arith
entry_of-status ErrorCode.unknown_user = omega arith
entry_of-status ErrorCode.invalid_email = omega arith
entry_of-status ErrorCode.auth_invalid_credentials = omega arith
entry_of-status ErrorCode.auth_throttled = omega arith

-- The line of the log tells what the client was told: the status and the code of the response, at
-- the level ERROR, with the traceback, for a failure of the server alone.
pub record Reports (request : Request) (r : Response) (l : FailureLog) : Type 0 where
  pub is_failure : 400 ≤ r.status_code
  pub same_status : l.http_status ≡ r.status_code
  pub same_code : l.error_code ≡ r.body.error_code
  pub level : l.is_error ≡ leb 500 r.status_code
  pub traceback : l.has_exc_info ≡ leb 500 r.status_code
  pub route : l.route ≡ request.path
  pub correlation : l.correlation_id ≡ request.correlation_id

module _ ⦃z : Str⦄ where
  -- For every exception of the services the response has a status of at least 400, and the line of
  -- the log has its status, error code, path and correlation id, and the level ERROR and the
  -- traceback exactly if the status is at least 500.
  pub handle-Reports :
      (request : Request) (e : Error) → Reports request (handle request e).0 (handle request e).1
  unfolding handle handle_app_error handle_validation_app_error handle_pydantic_validation_error
      handle_unexpected_error violations_response log_failure entry_of error_catalog or_default
  handle-Reports request (app_error e) = record {
    is_failure = entry_of-status e.code;
    same_status = refl;
    same_code = refl;
    level = refl;
    traceback = refl;
    route = refl;
    correlation = refl;
  }
  handle-Reports request (validation_app_error errors) = record {
    is_failure = omega arith;
    same_status = refl;
    same_code = refl;
    level = refl;
    traceback = refl;
    route = refl;
    correlation = refl;
  }
  handle-Reports request (schema_error errors) = record {
    is_failure = omega arith;
    same_status = refl;
    same_code = refl;
    level = refl;
    traceback = refl;
    route = refl;
    correlation = refl;
  }
  handle-Reports request (builtin_error name) = record {
    is_failure = omega arith;
    same_status = refl;
    same_code = refl;
    level = refl;
    traceback = refl;
    route = refl;
    correlation = refl;
  }

  details_of_schema :
      (errors : List SchemaError)
      → map (λ d. d.code) (build_field_details (get_field_violations errors))
        ≡ map (λ e. code_text (recover e.kind)) errors
  unfolding build_field_details get_field_violations field_detail
  details_of_schema [] = refl
  details_of_schema (e ∷ errors) =
      ap₂ ◌∷◌ (ap code_text (resolve_violation_code-field_violation e)) (details_of_schema errors)

  -- The codes of the details of a response.
  abbrev pub detail_codes : Response → List Text
  detail_codes r = codes r.body.details
    where
      codes : Option (List FieldErrorDetail) → List Text
      codes none = []
      codes (some details) = map (λ d. d.code) details

  -- The details of the response to schema failures, as Pydantic raised them or as a service
  -- translated them, have the error codes that their types name, or that of an unknown error, in
  -- order, although the translation replaces the codes of the domain by that of an unknown error.
  pub handle-detail_codes :
      (request : Request) (errors : List SchemaError)
      → (detail_codes (handle request (schema_error errors)).0
          ≡ map (λ e. code_text (recover e.kind)) errors)
        × (detail_codes (handle request (validation errors)).0
            ≡ map (λ e. code_text (recover e.kind)) errors)
  unfolding handle handle_validation_app_error handle_pydantic_validation_error violations_response
      validation
  handle-detail_codes request errors = (details_of_schema errors, details_of_schema errors)
