-- ===== src/Tests/Api.antt =====
-- Errors of the services at the API.
use trutina.Base.{◌≡◌, refl, some, List, [], ◌∷◌, Text, text, str_of, map}
use trutina.Errors.{
  Value, string, decimal, integer, moment, object, SchemaError, not_found, unknown_account,
  conflict, duplicate_account_code, schema_error, validation, Error,
}
use trutina.Errors.Codes.{code_text}
use trutina.Api.Handlers.{Str, recover, Request, handle}
use trutina.Api.Handlers.Bodies.{Reports, handle-Reports, detail_codes, handle-detail_codes}
use trutina.Api.Catalog.{entry_of, error_catalog, or_default}
use trutina.Api.Handlers.Messages.{
  Tells, not_found_context, conflict_context, handle-not_found, handle-conflict,
}
use trutina.Tests.{ascii}
use trutina.Tests.Login.{ticking}

abbrev pub show : Value → Text
show (string t) = t
show (decimal z) = text "0"
show (integer n) = str_of n
show (moment n) = str_of n
show object = text "[]"

instance abbrev pub shown : Str
shown = record { str = show; str_string = λ t. refl; str_integer = λ n. refl }

abbrev pub get_accounts : Request
get_accounts = record { path = text "/accounts"; correlation_id = some (text "1") }

abbrev missing : Error
missing = not_found unknown_account (text "account") (string (text "1000"))

handle-Reports_example :
    Reports get_accounts (handle get_accounts missing).0 (handle get_accounts missing).1
handle-Reports_example = handle-Reports get_accounts missing

abbrev pub two_errors : List SchemaError
two_errors =
    record { kind = text "account.invalid_name"; loc = "name"; input = string (text "1") }
    ∷ record { kind = text "finite_number"; loc = "code"; input = object }
    ∷ []

handle-detail_codes_example :
    (detail_codes (handle get_accounts (schema_error two_errors)).0
      ≡ map (λ e. code_text (recover e.kind)) two_errors)
    × (detail_codes (handle get_accounts (validation two_errors)).0
        ≡ map (λ e. code_text (recover e.kind)) two_errors)
handle-detail_codes_example = handle-detail_codes get_accounts two_errors

handle-not_found_example :
    Tells unknown_account
      (not_found_context (text "account") (string (text "1000")))
      (handle get_accounts missing).0
unfolding entry_of error_catalog or_default
handle-not_found_example =
    handle-not_found get_accounts unknown_account (text "account") (string (text "1000")) refl

handle-conflict_example :
    Tells duplicate_account_code
      (conflict_context (text "account") (text "code") (string (text "1000")))
      (handle get_accounts
        (conflict duplicate_account_code (text "account") (text "code") (string (text "1000")))).0
unfolding entry_of error_catalog or_default
handle-conflict_example =
    handle-conflict get_accounts duplicate_account_code (text "account") (text "code")
      (string (text "1000")) refl
