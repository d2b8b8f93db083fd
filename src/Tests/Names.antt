-- ===== src/Tests/Names.antt =====
-- The naming rules and the field checks on short texts and amounts.
use trutina.Base.{
  ◌≤◌, ◌<◌, ◌≡◌, ◌↔◌, refl, true, false, none, some, map, pos, sum, ◌+ℤ◌, length, Text, text, xor,
  total, sum_from,
}
use trutina.Platform.{ascii_lower}
use trutina.Schema.{pass, bounded_text}
use trutina.Rule.{
  scan_name, matches_name, is_valid_line_amounts, lstrip, cons_unless_blank, rstrip, strip,
  clean_account_name, account_lookup_key,
}
use trutina.Rule.Name.{IsAccountName, matches_name-IsAccountName}
use trutina.Rule.Clean.{clean_account_name-clean}
use trutina.Rule.Key.{account_lookup_key-ascii}
use trutina.Core.Account.{
  AccountCategory, Account, account, matches_code, all_digits, check_code, check_name,
}
use trutina.Core.Account.Valid.{account-pass}
use trutina.Core.Journal.{
  JournalLine, start_of_2020, check_amount, check_number, check_posting_date, check_lines,
  check_description, validate_line_amounts, validate_balances, total_debits, total_credits,
  is_balanced, journal_entry, check_line_account, journal_line,
}
use trutina.Core.Journal.Valid.{journal_entry-pass}
use trutina.Core.Posting.{LedgerPosting, ledger_posting, validate_amounts}
use trutina.Tests.{ascii, cash, monday}
use trutina.Tests.Run.{sale}

abbrev pub petty : Text
petty = text "  R & D/Costs "

matches_name-IsAccountName_example :
    (matches_name (text "R & D") ≡ true) ↔ IsAccountName (text "R & D")
matches_name-IsAccountName_example = matches_name-IsAccountName (text "R & D")

petty-cleaned : clean_account_name petty ≡ some (text "R & D/Costs")
unfolding scan_name matches_name lstrip cons_unless_blank rstrip strip clean_account_name
petty-cleaned = refl

clean_account_name-clean_example :
    (text "R & D/Costs" ≡ strip petty)
    × IsAccountName (text "R & D/Costs")
    × (clean_account_name (text "R & D/Costs") ≡ some (text "R & D/Costs"))
clean_account_name-clean_example = clean_account_name-clean petty (text "R & D/Costs") petty-cleaned

no_digit_first : ¬ IsAccountName (strip (text " 1st "))
unfolding scan_name matches_name lstrip cons_unless_blank rstrip strip
no_digit_first h =
    let e : false ≡ true = (matches_name-IsAccountName (strip (text " 1st "))).1 h in absurd (cc)

cash-IsAccountName : IsAccountName cash
unfolding scan_name matches_name
cash-IsAccountName = (matches_name-IsAccountName cash).0 refl

account_lookup_key-ascii_example : account_lookup_key cash ≡ map ascii_lower cash
account_lookup_key-ascii_example = account_lookup_key-ascii cash cash-IsAccountName

abbrev cash_account : Account
cash_account = record { code = text "1000"; name = cash; category = AccountCategory.asset }

cash_account-built : account (text "1000") (text " Cash") AccountCategory.asset ≡ pass cash_account
unfolding scan_name matches_name lstrip cons_unless_blank rstrip strip clean_account_name
    bounded_text matches_code all_digits check_code check_name account
cash_account-built = refl

account-pass_example :
    (text "1000" ≡ text "1000")
    × (matches_code (text "1000") ≡ true)
    × (cash ≡ strip (text " Cash"))
    × (clean_account_name cash ≡ some cash)
    × (length cash ≤ 150)
    × (AccountCategory.asset ≡ AccountCategory.asset)
    × IsAccountName cash
account-pass_example =
    account-pass (text "1000") (text " Cash") AccountCategory.asset cash_account cash_account-built

sale-built : journal_entry monday 1 monday sale.lines none ≡ pass sale
unfolding check_number check_posting_date check_lines check_description validate_balances
    total_debits total_credits is_balanced journal_entry total sum_from ◌+ℤ◌
sale-built = refl

journal_entry-pass_example :
    (sale.journal_number ≡ 1)
    × (monday ≡ monday)
    × (sale.lines ≡ sale.lines)
    × (sale.description ≡ none)
    × (0 < 1)
    × (start_of_2020 < monday)
    × (monday ≤ monday)
    × (2 ≤ 2)
    × (sum (λ l. l.debit_amount) sale.lines ≡ sum (λ l. l.credit_amount) sale.lines)
journal_entry-pass_example = journal_entry-pass monday 1 monday sale.lines none sale sale-built

abbrev cash_line : JournalLine
cash_line = record { account = cash; debit_amount = pos 700; credit_amount = pos 0 }

cash_line-built : journal_line (text "Cash ") (pos 700) (pos 0) ≡ pass cash_line
unfolding scan_name matches_name lstrip cons_unless_blank rstrip strip clean_account_name
    bounded_text is_valid_line_amounts xor check_amount validate_line_amounts check_line_account
    journal_line
cash_line-built = refl

abbrev cash_posting : LedgerPosting
cash_posting = record {
  account = cash;
  debit_amount = pos 700;
  credit_amount = pos 0;
  journal_number = 4;
  posting_date = monday;
}

cash_posting-built : ledger_posting monday cash (pos 700) (pos 0) 4 monday ≡ pass cash_posting
unfolding scan_name matches_name lstrip cons_unless_blank rstrip strip clean_account_name
    bounded_text is_valid_line_amounts xor check_amount check_number check_posting_date
    check_line_account validate_amounts ledger_posting
cash_posting-built = refl
