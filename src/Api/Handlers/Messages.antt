-- ===== src/Api/Handlers/Messages.antt =====
-- The messages of the errors that `AppError.not_found` and `AppError.conflict` build: their templates
-- find every name in the context.
use trutina.Base.{◌≡◌, refl, sym, ap, ◌∙◌, Text-discrete, String, some, List, [], ◌∷◌, Text, arith}
use trutina.Errors.{ErrorCode, Value, string, not_found, conflict}
use trutina.Api.Catalog.{Template, error_catalog, or_default, entry_of}
use trutina.Api.Handlers.{
  Str, Request, Response, context_get, format, fill, handle_app_error, handle,
}

abbrev pub not_found_context : Text → Value → List (String × Value)
not_found_context resource identifier =
    ("resource", string resource) ∷ ("identifier", identifier) ∷ []

abbrev pub conflict_context : Text → Text → Value → List (String × Value)
conflict_context resource field value =
    ("resource", string resource) ∷ ("field", string field) ∷ ("value", value) ∷ []

module _ ⦃z : Str⦄ where
  -- The message that an error carries is filled if its template finds every name.
  abbrev pub Fills : ErrorCode → List (String × Value) → Type 0
  Fills c context = (t : Text) × (format context (entry_of c).message ≡ some t)

  not_found-Fills :
      (c : ErrorCode) (resource : Text) (identifier : Value)
      → (entry_of c).status_code ≡ 404
      → Fills c (not_found_context resource identifier)
  unfolding entry_of error_catalog or_default format context_get Text-discrete
  not_found-Fills ErrorCode.unknown_error resource identifier h = absurd (omega arith)
  not_found-Fills ErrorCode.validation_error resource identifier h = absurd (omega arith)
  not_found-Fills ErrorCode.request_validation_error resource identifier h = absurd (omega arith)
  not_found-Fills ErrorCode.required_field_code resource identifier h = absurd (omega arith)
  not_found-Fills ErrorCode.invalid_number resource identifier h = absurd (omega arith)
  not_found-Fills ErrorCode.invalid_decimal resource identifier h = absurd (omega arith)
  not_found-Fills ErrorCode.string_type resource identifier h = absurd (omega arith)
  not_found-Fills ErrorCode.string_too_short resource identifier h = absurd (omega arith)
  not_found-Fills ErrorCode.string_too_long resource identifier h = absurd (omega arith)
  not_found-Fills ErrorCode.too_short resource identifier h = absurd (omega arith)
  not_found-Fills ErrorCode.too_long resource identifier h = absurd (omega arith)
  not_found-Fills ErrorCode.greater_than resource identifier h = absurd (omega arith)
  not_found-Fills ErrorCode.greater_than_equal resource identifier h = absurd (omega arith)
  not_found-Fills ErrorCode.less_than_equal resource identifier h = absurd (omega arith)
  not_found-Fills ErrorCode.future_date resource identifier h = absurd (omega arith)
  not_found-Fills ErrorCode.past_date resource identifier h = absurd (omega arith)
  not_found-Fills ErrorCode.invalid_account_name resource identifier h = absurd (omega arith)
  not_found-Fills ErrorCode.invalid_account_code resource identifier h = absurd (omega arith)
  not_found-Fills ErrorCode.unknown_account resource identifier h = (_, refl)
  not_found-Fills ErrorCode.duplicate_account_code resource identifier h = absurd (omega arith)
  not_found-Fills ErrorCode.duplicate_account_name resource identifier h = absurd (omega arith)
  not_found-Fills ErrorCode.account_has_postings resource identifier h = absurd (omega arith)
  not_found-Fills ErrorCode.invalid_line_amounts resource identifier h = absurd (omega arith)
  not_found-Fills ErrorCode.unbalanced_entry resource identifier h = absurd (omega arith)
  not_found-Fills ErrorCode.unknown_journal_entry resource identifier h = (_, refl)
  not_found-Fills ErrorCode.duplicate_journal_number resource identifier h = absurd (omega arith)
  not_found-Fills ErrorCode.journal_already_posted resource identifier h = absurd (omega arith)
  not_found-Fills ErrorCode.storage_unavailable resource identifier h = absurd (omega arith)
  not_found-Fills ErrorCode.storage_timeout resource identifier h = absurd (omega arith)
  not_found-Fills ErrorCode.duplicate_user_email resource identifier h = absurd (omega arith)
  not_found-Fills ErrorCode.unknown_user resource identifier h = (_, refl)
  not_found-Fills ErrorCode.invalid_email resource identifier h = absurd (omega arith)
  not_found-Fills ErrorCode.auth_invalid_credentials resource identifier h = absurd (omega arith)
  not_found-Fills ErrorCode.auth_throttled resource identifier h = absurd (omega arith)

  conflict-Fills :
      (c : ErrorCode) (resource field : Text) (value : Value)
      → (entry_of c).status_code ≡ 409
      → Fills c (conflict_context resource field value)
  unfolding entry_of error_catalog or_default format context_get Text-discrete
  conflict-Fills ErrorCode.unknown_error resource field value h = absurd (omega arith)
  conflict-Fills ErrorCode.validation_error resource field value h = absurd (omega arith)
  conflict-Fills ErrorCode.request_validation_error resource field value h = absurd (omega arith)
  conflict-Fills ErrorCode.required_field_code resource field value h = absurd (omega arith)
  conflict-Fills ErrorCode.invalid_number resource field value h = absurd (omega arith)
  conflict-Fills ErrorCode.invalid_decimal resource field value h = absurd (omega arith)
  conflict-Fills ErrorCode.string_type resource field value h = absurd (omega arith)
  conflict-Fills ErrorCode.string_too_short resource field value h = absurd (omega arith)
  conflict-Fills ErrorCode.string_too_long resource field value h = absurd (omega arith)
  conflict-Fills ErrorCode.too_short resource field value h = absurd (omega arith)
  conflict-Fills ErrorCode.too_long resource field value h = absurd (omega arith)
  conflict-Fills ErrorCode.greater_than resource field value h = absurd (omega arith)
  conflict-Fills ErrorCode.greater_than_equal resource field value h = absurd (omega arith)
  conflict-Fills ErrorCode.less_than_equal resource field value h = absurd (omega arith)
  conflict-Fills ErrorCode.future_date resource field value h = absurd (omega arith)
  conflict-Fills ErrorCode.past_date resource field value h = absurd (omega arith)
  conflict-Fills ErrorCode.invalid_account_name resource field value h = absurd (omega arith)
  conflict-Fills ErrorCode.invalid_account_code resource field value h = absurd (omega arith)
  conflict-Fills ErrorCode.unknown_account resource field value h = absurd (omega arith)
  conflict-Fills ErrorCode.duplicate_account_code resource field value h = (_, refl)
  conflict-Fills ErrorCode.duplicate_account_name resource field value h = (_, refl)
  conflict-Fills ErrorCode.account_has_postings resource field value h = (_, refl)
  conflict-Fills ErrorCode.invalid_line_amounts resource field value h = absurd (omega arith)
  conflict-Fills ErrorCode.unbalanced_entry resource field value h = absurd (omega arith)
  conflict-Fills ErrorCode.unknown_journal_entry resource field value h = absurd (omega arith)
  conflict-Fills ErrorCode.duplicate_journal_number resource field value h = (_, refl)
  conflict-Fills ErrorCode.journal_already_posted resource field value h = (_, refl)
  conflict-Fills ErrorCode.storage_unavailable resource field value h = absurd (omega arith)
  conflict-Fills ErrorCode.storage_timeout resource field value h = absurd (omega arith)
  conflict-Fills ErrorCode.duplicate_user_email resource field value h = (_, refl)
  conflict-Fills ErrorCode.unknown_user resource field value h = absurd (omega arith)
  conflict-Fills ErrorCode.invalid_email resource field value h = absurd (omega arith)
  conflict-Fills ErrorCode.auth_invalid_credentials resource field value h = absurd (omega arith)
  conflict-Fills ErrorCode.auth_throttled resource field value h = absurd (omega arith)

  -- A response with the status and the message of a code, filled from a context.
  abbrev pub Tells : ErrorCode → List (String × Value) → Response → Type 0
  Tells c context r =
      (r.status_code ≡ (entry_of c).status_code)
      × (format context (entry_of c).message ≡ some r.body.message)

  fill-format :
      (template : Template) (context : List (String × Value)) (t : Text)
      → format context template ≡ some t
      → fill template context ≡ t
  unfolding fill
  fill-format template context t e = rw (fill, e) refl

  fill-Fills :
      (c : ErrorCode) (context : List (String × Value))
      → Fills c context
      → format context (entry_of c).message ≡ some (fill (entry_of c).message context)
  fill-Fills c context (t, e) = e ∙ ap some (sym (fill-format (entry_of c).message context t e))

  -- The response to AppError.not_found with a code of status 404 has that status, and its message
  -- is the template of the code with every placeholder replaced, whatever the resource and
  -- identifier.
  pub handle-not_found :
      (request : Request) (c : ErrorCode) (resource : Text) (identifier : Value)
      → (entry_of c).status_code ≡ 404
      → Tells c
          (not_found_context resource identifier)
          (handle request (not_found c resource identifier)).0
  unfolding handle handle_app_error not_found
  handle-not_found request c resource identifier h = (
    refl,
    fill-Fills c (not_found_context resource identifier) (not_found-Fills c resource identifier h),
  )

  -- The response to AppError.conflict with a code of status 409 has that status, and its message is
  -- the template of the code with every placeholder replaced, whatever the field and value.
  pub handle-conflict :
      (request : Request) (c : ErrorCode) (resource field : Text) (value : Value)
      → (entry_of c).status_code ≡ 409
      → Tells c
          (conflict_context resource field value)
          (handle request (conflict c resource field value)).0
  unfolding handle handle_app_error conflict
  handle-conflict request c resource field value h = (
    refl,
    fill-Fills c (conflict_context resource field value) (conflict-Fills c resource field value h),
  )
