-- ===== src/Tests/Cli.antt =====
-- Lines and categories as they are typed.
use trutina.Base.{◌≡◌, ◌≢◌, ◌⊎◌, ◌↔◌, refl, some, [], ◌∷◌, ◌++◌, map, Text, text, All, pos, int_of}
use trutina.Rule.{strip}
use trutina.Core.Account.{AccountCategory}
use trutina.Cli.Parsers.{
  Console, ascii_raise, category_name, get_category, parse_line_spec, parse_journal_line,
  line_message, upper, finite, parsed, bad_parameter,
}
use trutina.Cli.Parsers.Lines.{separators, parse_line_spec_lem}
use trutina.Cli.Parsers.Categories.{get_category-category_name}
use trutina.Tests.{ascii}
use trutina.Errors.{AppError, app_error, storage_timeout, get_field_violations}
use trutina.Api.Handlers.{handle}
use trutina.Cli.Boundary.{
  Exit, log_command_failure, build_error_panels, format_app_error, format_validation_errors,
  format_validation_app_error, error_boundary,
}
use trutina.Cli.Boundary.Agree.{
  without_field, format_validation_app_error-get_field_violations, error_boundary-handle,
}
use trutina.Tests.Api.{shown, get_accounts, two_errors}

instance abbrev console : Console
console = record {
  upper = λ c. ascii_raise c ∷ [];
  decimal = λ t. some (finite (pos (int_of t)));
  int = λ t. some (pos (int_of t));
  strptime = λ t. some (int_of t);
  upper_ascii = λ c h. refl;
}

get_category-category_name_example :
    get_category (text " Equity ") ≡ parsed AccountCategory.equity
    ↔ upper (strip (text " Equity ")) ≡ category_name AccountCategory.equity
get_category-category_name_example =
    get_category-category_name (text " Equity ") AccountCategory.equity

parse_line_spec_lem_example :
    ((account : Text) × (debit : Text) × (credit : Text) × (text "Cash:100:0"
        ≡ account ++ 58 ∷ (debit ++ 58 ∷ credit))
      × All (λ p. separators 58 p ≡ 0) (account ∷ debit ∷ credit ∷ [])
      × (parse_line_spec (text "Cash:100:0") ≡ parse_journal_line account debit credit))
    ⊎ ((separators 58 (text "Cash:100:0") ≢ 2)
        × (parse_line_spec (text "Cash:100:0") ≡ bad_parameter (line_message (text "Cash:100:0"))))
parse_line_spec_lem_example = parse_line_spec_lem (text "Cash:100:0")

format_validation_app_error-get_field_violations_example :
    map without_field (format_validation_app_error (get_field_violations two_errors))
    ≡ map without_field (format_validation_errors two_errors)
format_validation_app_error-get_field_violations_example =
    format_validation_app_error-get_field_violations two_errors

abbrev timeout : AppError
timeout = record { code = storage_timeout; context = [] }

abbrev timeout_exit : Exit
timeout_exit = record {
  log = log_command_failure storage_timeout;
  panels = build_error_panels (format_app_error timeout ∷ []);
}

timeout_exits : error_boundary (app_error timeout) ≡ some timeout_exit
unfolding error_boundary
timeout_exits = refl

error_boundary-handle_example :
    timeout_exit.log.is_error ≡ (handle get_accounts (app_error timeout)).1.is_error
error_boundary-handle_example =
    error_boundary-handle get_accounts (app_error timeout) timeout_exit (λ e. cc) timeout_exits
