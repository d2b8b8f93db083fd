-- ===== src/Tests/Routes.antt =====
-- Requests to the API on small tables.
use trutina.Base.{some, none, [], ◌∷◌, text, pos}
use trutina.Core.Account.{AccountCategory}
use trutina.Api.Routes.{serve}
use trutina.Api.Accounts.{CreateAccountRequest, post_account}
use trutina.Api.Journals.{CreateJournalEntryRequest, post_entry}
use trutina.Api.Postings.{post_posting, get_trial_balance, naive}
use trutina.Api.Container.{account_service, journal_service, posting_service, trial_balance_service}
use trutina.Api.Effects.{
  CreatesAccount, post_account-CreatesAccount, PostsEntry, post_posting-PostsEntry, CreatesEntry,
  post_entry-CreatesEntry,
}
use trutina.Api.Reports.{AnswersReport, get_trial_balance-AnswersReport}
use trutina.Tests.{ascii, monday, cash, sales, with_entry, with_posted}
use trutina.Tests.Books.{with_entry-HasStoredLines, empty-IsLedger, posted-IsLedger}
use trutina.Tests.Accounts.{cash-IsChart}
use trutina.Tests.Api.{shown, get_accounts}

abbrev bank : CreateAccountRequest
bank = record { code = text "1010"; name = text "Bank"; category = AccountCategory.asset }

post_account-CreatesAccount_example :
    CreatesAccount get_accounts bank with_entry
      (serve get_accounts (post_account account_service bank) with_entry)
post_account-CreatesAccount_example =
    post_account-CreatesAccount get_accounts bank with_entry cash-IsChart

post_posting-PostsEntry_example :
    PostsEntry get_accounts 1 with_entry
      (serve get_accounts (post_posting posting_service 1) with_entry)
post_posting-PostsEntry_example =
    post_posting-PostsEntry get_accounts 1 with_entry with_entry-HasStoredLines empty-IsLedger

abbrev a_sale : CreateJournalEntryRequest
a_sale = record {
  posting_date = monday;
  lines =
      record { account = cash; debit_amount = pos 50000; credit_amount = pos 0 }
      ∷ record { account = sales; debit_amount = pos 0; credit_amount = pos 50000 }
      ∷ [];
  description = none;
}

post_entry-CreatesEntry_example :
    CreatesEntry get_accounts a_sale with_entry
      (serve get_accounts (post_entry journal_service a_sale) with_entry)
post_entry-CreatesEntry_example = post_entry-CreatesEntry get_accounts a_sale with_entry

get_trial_balance-AnswersReport_example :
    AnswersReport get_accounts (some (naive monday)) with_posted (
      serve get_accounts
        (get_trial_balance trial_balance_service (some (naive monday)))
        with_posted)
get_trial_balance-AnswersReport_example =
    get_trial_balance-AnswersReport get_accounts (some (naive monday)) with_posted posted-IsLedger
