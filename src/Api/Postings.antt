-- ===== src/Api/Postings.antt =====
-- apps/api/src/trutina/api/features/posting and trial_balance: schemas, mapper, handler, presenter
-- and router. A route is given path and query values whose checks have passed.
use trutina.Base.{ℕ, Bool, Option, List, map, Text, ℤ}
use trutina.Platform.{Platform}
use trutina.Rule.{strip}
use trutina.Core.Posting.{PostingViewModel, view_is_debit}
use trutina.Core.TrialBalance.{
  AccountBalanceEntry, TrialBalanceViewModel, total_debits, total_credits, is_balanced,
}
use trutina.Store.{M, pure, ◌>>=◌}
use trutina.Api.Routes.{pre_auth_actor, Answer, created, answered}

pub record PostingItem : Type 0 where
  pub account : Text
  pub debit_amount : Option ℤ
  pub credit_amount : Option ℤ
  pub journal_number : ℕ
  pub posting_date : ℕ
  pub is_debit : Bool

pub record PostingListResponse : Type 0 where
  pub postings : List PostingItem

pub record AccountBalanceItem : Type 0 where
  pub account : Text
  pub debit_total : ℤ
  pub credit_total : ℤ

pub record TrialBalanceResponse : Type 0 where
  pub entries : List AccountBalanceItem
  pub as_of_date : Option ℕ
  pub total_debits : ℤ
  pub total_credits : ℤ
  pub is_balanced : Bool

unfoldable pub to_posting_item : PostingViewModel → PostingItem
unfolding view_is_debit
to_posting_item view_model = record {
  account = view_model.account;
  debit_amount = view_model.debit_amount;
  credit_amount = view_model.credit_amount;
  journal_number = view_model.journal_number;
  posting_date = view_model.posting_date;
  is_debit = view_is_debit view_model;
}

unfoldable pub to_posting_list_response : List PostingViewModel → PostingListResponse
unfolding to_posting_item
to_posting_list_response view_models = record { postings = map to_posting_item view_models }

unfoldable pub to_account_balance_item : AccountBalanceEntry → AccountBalanceItem
to_account_balance_item entry = record {
  account = entry.account;
  debit_total = entry.debit_total;
  credit_total = entry.credit_total;
}

unfoldable pub to_trial_balance_response : TrialBalanceViewModel → TrialBalanceResponse
unfolding to_account_balance_item total_debits total_credits is_balanced
to_trial_balance_response view_model = record {
  entries = map to_account_balance_item view_model.entries;
  as_of_date = view_model.as_of_date;
  total_debits = total_debits view_model;
  total_credits = total_credits view_model;
  is_balanced = is_balanced view_model;
}

-- A date of a query, which may have a time zone.
pub data QueryDate : Type 0 where
  naive : ℕ → QueryDate
  aware : ℕ → QueryDate

-- `GET /trial-balance`, over the operation of the service
unfoldable pub get_trial_balance :
    (Option QueryDate → M TrialBalanceViewModel)
    → Option QueryDate
    → M (Answer TrialBalanceResponse)
unfolding to_trial_balance_response
get_trial_balance service as_of = do
  view_model ← service as_of
  pure (answered (to_trial_balance_response view_model))

-- `to_account`
unfoldable pub to_account : ⦃u : Platform⦄ → Text → Text
unfolding strip
to_account account = strip account

-- The operations of the service that the handlers call.
pub record PostingService : Type 0 where
  pub post_journal_entry : ℕ → Text → M (List PostingViewModel)
  pub get_postings_by_account : Text → M (List PostingViewModel)
  pub get_postings_by_journal_number : ℕ → M (List PostingViewModel)

module _ (service : PostingService) where
  -- `POST /postings/{journal_number}`
  unfoldable pub post_posting : ℕ → M (Answer PostingListResponse)
  unfolding to_posting_list_response
  post_posting journal_number = do
    postings ← service.post_journal_entry journal_number pre_auth_actor
    pure (created (to_posting_list_response postings))

  -- `GET /postings/by-journal/{journal_number}`
  unfoldable pub get_by_journal : ℕ → M (Answer PostingListResponse)
  unfolding to_posting_list_response
  get_by_journal journal_number = do
    postings ← service.get_postings_by_journal_number journal_number
    pure (answered (to_posting_list_response postings))

  -- `GET /postings/by-account/{account}`
  unfoldable pub get_by_account : ⦃u : Platform⦄ → Text → M (Answer PostingListResponse)
  unfolding to_account to_posting_list_response
  get_by_account account = do
    postings ← service.get_postings_by_account (to_account account)
    pure (answered (to_posting_list_response postings))
