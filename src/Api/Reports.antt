-- ===== src/Api/Reports.antt =====
-- The route of the trial balance over the PostgreSQL repository.
use trutina.Base.{eqb_ℤ→eq, ℕ, ◌≡◌, refl, true, Option, none, some, [], ◌∷◌, ◌++◌, map, length}
use trutina.Platform.{Platform}
use trutina.Core.TrialBalance
use trutina.Core.TrialBalance.{
  AccountBalanceEntry, TrialBalanceViewModel, is_balanced, total_debits, total_credits,
}
use trutina.Store.{World, Result, ok, resume, pure, trial_balance_generated}
use trutina.Ledger.Postings.{IsLedger}
use trutina.Storage.TrialBalanceRepo.{postgres_trial_balance_repo}
use trutina.Ledger.Report.{IsLedger-report}
use trutina.Errors.{unknown}
use trutina.Api.Catalog.{entry_of, error_catalog, or_default}
use trutina.Api.Handlers.{Str, Request, handle, handle_app_error}
use trutina.Api.Routes.{Reply, success, failure, reply, serve, answered}
use trutina.Api.Postings.{
  AccountBalanceItem, TrialBalanceResponse, QueryDate, naive, aware, to_account_balance_item,
  to_trial_balance_response, get_trial_balance,
}
use trutina.Api.Container.{on_query_date, trial_balance_service}

module _ ⦃z : Str⦄ ⦃u : Platform⦄ (request : Request) where
  abbrev report : Option ℕ → World → Result TrialBalanceViewModel × World
  report as_of w = TrialBalance.get_trial_balance postgres_trial_balance_repo as_of w

  -- The body for a balance.
  abbrev balance_item : AccountBalanceEntry → AccountBalanceItem
  balance_item e = record {
    account = e.account;
    debit_total = e.debit_total;
    credit_total = e.credit_total;
  }

  -- What `GET /trial-balance` answered, and did, for a date without a time zone, or for no date.
  abbrev Balances : Option ℕ → World → Reply TrialBalanceResponse × World → Type 0
  Balances as_of w (success status_code response, w') =
      (status_code ≡ 200)
      × (response.as_of_date ≡ as_of)
      × (response.is_balanced ≡ true)
      × (response.total_debits ≡ response.total_credits)
      × ((view : TrialBalanceViewModel) × (report as_of w ≡ (ok view, w'))
          × (response.entries ≡ map balance_item view.entries)
          × (w' ≡ record w {
            log = w.log ++ trial_balance_generated (length view.entries) as_of ∷ [];
          }))
  Balances as_of w (failure response log, w') = ¬ Unit {0}

  abbrev pub AnswersReport : Option QueryDate → World → Reply TrialBalanceResponse × World → Type 0
  AnswersReport none w r = Balances none w r
  AnswersReport (some (naive date)) w r = Balances (some date) w r
  AnswersReport (some (aware date)) w (success status_code response, w') = ¬ Unit {0}
  AnswersReport (some (aware date)) w (failure response log, w') =
      (response.status_code ≡ 500) × (w' ≡ w)

  sums_of_balanced :
      (view : TrialBalanceViewModel)
      → is_balanced view ≡ true
      → total_debits view ≡ total_credits view
  unfolding is_balanced
  sums_of_balanced view h = eqb_ℤ→eq (total_debits view) (total_credits view) h

  balances :
      (as_of : Option ℕ) (w : World)
      → IsLedger w.postings
      → Balances as_of w (
          reply request
            (resume (report as_of w) (λ v. pure (answered (to_trial_balance_response v)))))
  unfolding to_trial_balance_response to_account_balance_item
  balances as_of w ledger =
      let (view, returned, balanced, date) = IsLedger-report as_of w ledger in
      rw returned
        (refl, date, balanced, sums_of_balanced view balanced, (view, returned, refl, refl))

  -- On a ledger, GET /trial-balance over the PostgreSQL repository answers 200 to a date without a
  -- time zone, or to no date, with the report of get_trial_balance as of it, entry by entry, equal
  -- total debits and credits and is_balanced set, and only logs the report; it answers 500 to a
  -- date with a time zone, and changes nothing.
  pub get_trial_balance-AnswersReport :
      (as_of : Option QueryDate) (w : World)
      → IsLedger w.postings
      → AnswersReport as_of w (serve request (get_trial_balance trial_balance_service as_of) w)
  unfolding get_trial_balance trial_balance_service on_query_date unknown handle handle_app_error
      entry_of error_catalog or_default
  get_trial_balance-AnswersReport none w ledger = balances none w ledger
  get_trial_balance-AnswersReport (some (naive date)) w ledger = balances (some date) w ledger
  get_trial_balance-AnswersReport (some (aware date)) w ledger = (refl, refl)
