-- ===== src/Api/Accounts.antt =====
-- apps/api/src/trutina/api/features/account: schemas, mapper, handler, presenter and router. A route
-- is given a request whose schema has passed.
use trutina.Base.{Option, List, map, Text}
use trutina.Core.Account.{
  AccountCategory, NormalBalance, AccountViewModel, CreateAccountInput, UpdateAccountInput,
}
use trutina.Store.{M, Done, pure, ◌>>=◌, ◌>>◌}
use trutina.Api.Routes.{pre_auth_actor, Answer, created, answered}

pub record CreateAccountRequest : Type 0 where
  pub code : Text
  pub name : Text
  pub category : AccountCategory

pub record UpdateAccountRequest : Type 0 where
  pub name : Option Text
  pub category : Option AccountCategory

pub record AccountData : Type 0 where
  pub code : Text
  pub name : Text
  pub category : AccountCategory
  pub normal_balance : NormalBalance

pub record AccountResponse : Type 0 where
  pub account : AccountData

pub record ChartOfAccountsResponse : Type 0 where
  pub accounts : List AccountData

pub record DeleteAccountResponse : Type 0 where
  pub code : Text

unfoldable pub to_create_account_input : CreateAccountRequest → CreateAccountInput
to_create_account_input request = record {
  code = request.code;
  name = request.name;
  category = request.category;
}

unfoldable pub to_update_account_input : Text → UpdateAccountRequest → UpdateAccountInput
to_update_account_input code request = record {
  code = code;
  name = request.name;
  category = request.category;
}

-- `_to_account_data`
unfoldable pub to_account_data : AccountViewModel → AccountData
to_account_data view_model = record {
  code = view_model.code;
  name = view_model.name;
  category = view_model.category;
  normal_balance = view_model.normal_balance;
}

unfoldable pub to_account_response : AccountViewModel → AccountResponse
unfolding to_account_data
to_account_response view_model = record { account = to_account_data view_model }

unfoldable pub to_chart_of_accounts_response : List AccountViewModel → ChartOfAccountsResponse
unfolding to_account_data
to_chart_of_accounts_response accounts = record { accounts = map to_account_data accounts }

unfoldable pub to_delete_account_response : Text → DeleteAccountResponse
to_delete_account_response code = record { code = code }

-- The operations of the service that the handlers call.
pub record AccountService : Type 0 where
  pub create_account : CreateAccountInput → Text → M AccountViewModel
  pub update_account : UpdateAccountInput → Text → M AccountViewModel
  pub get_account : Text → M AccountViewModel
  pub list_accounts : M (List AccountViewModel)
  pub delete_account : Text → Text → M Done

module _ (service : AccountService) where
  -- `POST /accounts`
  unfoldable pub post_account : CreateAccountRequest → M (Answer AccountResponse)
  unfolding to_create_account_input to_account_response
  post_account request = do
    view_model ← service.create_account (to_create_account_input request) pre_auth_actor
    pure (created (to_account_response view_model))

  -- `GET /accounts`
  unfoldable pub get_accounts : M (Answer ChartOfAccountsResponse)
  unfolding to_chart_of_accounts_response
  get_accounts = do
    accounts ← service.list_accounts
    pure (answered (to_chart_of_accounts_response accounts))

  -- `GET /accounts/{code}`
  unfoldable pub get_account : Text → M (Answer AccountResponse)
  unfolding to_account_response
  get_account code = do
    view_model ← service.get_account code
    pure (answered (to_account_response view_model))

  -- `PATCH /accounts/{code}`
  unfoldable pub patch_account : Text → UpdateAccountRequest → M (Answer AccountResponse)
  unfolding to_update_account_input to_account_response
  patch_account code request = do
    view_model ← service.update_account (to_update_account_input code request) pre_auth_actor
    pure (answered (to_account_response view_model))

  -- `DELETE /accounts/{code}`
  unfoldable pub delete_account : Text → M (Answer DeleteAccountResponse)
  unfolding to_delete_account_response
  delete_account code = do
    service.delete_account code pre_auth_actor
    pure (answered (to_delete_account_response code))
