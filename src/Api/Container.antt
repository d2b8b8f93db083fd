-- ===== src/Api/Container.antt =====
-- apps/api/src/trutina/api/composition/bootstrap.py: the services over the PostgreSQL repositories.
use trutina.Base.{ℕ, Bool, Option, none, some, Text, length, ltb}
use trutina.Platform.{Platform}
use trutina.Core.Account.Chart.{ChartOfAccounts}
use trutina.Core.Account.Service.{
  create_account, update_account, get_account, list_accounts, delete_account, get_chart,
}
use trutina.Core.Journal.Service.{create_journal_entry, get_journal_entry, list_journal_entries}
use trutina.Core.Posting.Service.{
  post_journal_entry, get_postings_by_account, get_postings_by_journal_number,
}
use trutina.Core.TrialBalance.{TrialBalanceViewModel, get_trial_balance}
use trutina.Store.{M, raise, pure, ◌>>=◌}
use trutina.Storage.AccountRepo.{postgres_account_repo}
use trutina.Storage.JournalRepo.{postgres_journal_repo}
use trutina.Storage.PostingRepo.{postgres_posting_repo}
use trutina.Storage.TrialBalanceRepo.{postgres_trial_balance_repo}
use trutina.Api.Accounts.{AccountService}
use trutina.Api.Journals.{JournalService}
use trutina.Api.Postings.{PostingService, QueryDate, naive, aware}
use trutina.Errors.{unknown}

-- A date with a time zone cannot be bound to the column of posting dates, which has none:
-- `translate_postgres_errors` turns the refusal into an unknown error.
unfoldable pub on_query_date : {A : Type 0} → (Option ℕ → M A) → Option QueryDate → M A
unfolding unknown
on_query_date query none = query none
on_query_date query (some (naive date)) = query (some date)
on_query_date query (some (aware date)) = λ w. (raise unknown, w)

module _ ⦃u : Platform⦄ where
  -- `_has_postings`
  unfoldable pub has_postings : Text → M Bool
  has_postings account_name = do
    postings ← postgres_posting_repo.get_by_account account_name
    pure (ltb 0 (length postings))

  abbrev pub chart : M ChartOfAccounts
  chart = get_chart postgres_account_repo (some has_postings)

  abbrev pub account_service : AccountService
  account_service = record {
    create_account = create_account postgres_account_repo (some has_postings);
    update_account = update_account postgres_account_repo (some has_postings);
    get_account = get_account postgres_account_repo (some has_postings);
    list_accounts = list_accounts postgres_account_repo (some has_postings);
    delete_account = delete_account postgres_account_repo (some has_postings);
  }

  abbrev pub journal_service : JournalService
  journal_service = record {
    create_journal_entry = create_journal_entry postgres_journal_repo chart;
    get_journal_entry = get_journal_entry postgres_journal_repo chart;
    list_journal_entries = list_journal_entries postgres_journal_repo chart;
  }

  abbrev pub posting_service : PostingService
  posting_service = record {
    post_journal_entry = post_journal_entry postgres_posting_repo journal_service.get_journal_entry;
    get_postings_by_account =
        get_postings_by_account postgres_posting_repo journal_service.get_journal_entry;
    get_postings_by_journal_number =
        get_postings_by_journal_number postgres_posting_repo journal_service.get_journal_entry;
  }

  -- The operation of `TrialBalanceService`, on the dates of a query
  unfoldable pub trial_balance_service : Option QueryDate → M TrialBalanceViewModel
  unfolding on_query_date
  trial_balance_service as_of = on_query_date (get_trial_balance postgres_trial_balance_repo) as_of
