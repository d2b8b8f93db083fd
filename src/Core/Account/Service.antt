-- ===== src/Core/Account/Service.antt =====
-- packages/core/src/trutina/core/account/service.py, over any repository of the contract.
use trutina.Base.{Bool, false, not, Option, none, some, List, map, if◌then◌else◌, Text, text, same}
use trutina.Platform.{Platform}
use trutina.Errors.{
  string, conflict, not_found, required_field, duplicate_account_code, duplicate_account_name,
  unknown_account, account_has_postings,
}
use trutina.Rule.{is_non_blank_actor}
use trutina.Core.Account.{
  Account, account, normal_balance, AccountViewModel, CreateAccountInput, UpdateAccountInput,
}
use trutina.Core.Account.Chart.{ChartOfAccounts, chart_of_accounts, get_by_name}
use trutina.Core.Account.Repo.{AccountRepo}
use trutina.Store.{
  M, Done, pure, throw, throw_if, uncaught, translated, write_log, ◌>>=◌, ◌>>◌, account_created,
  account_updated, account_deleted,
}

-- `_to_view_model`
unfoldable pub to_view_model : Account → AccountViewModel
unfolding normal_balance
to_view_model a = record {
  code = a.code;
  name = a.name;
  category = a.category;
  normal_balance = normal_balance a;
}

unfoldable pub or_else {ℓ} : {A : Type ℓ} → Option A → A → A
or_else none a = a
or_else (some b) a = b

-- An account that is not there is reported by what it was looked up by.
unfoldable pub or_unknown : Text → Option Account → M Account
unfolding not_found
or_unknown identifier (some a) = pure a
or_unknown identifier none = throw (not_found unknown_account (text "account") (string identifier))

module _ ⦃u : Platform⦄ where
  -- The first statement of every write.
  unfoldable pub require_actor : Text → M Done
  unfolding required_field
  require_actor actor = throw_if (not (is_non_blank_actor actor)) (required_field "actor" actor)

  module _ (repo : AccountRepo) (has_postings : Option (Text → M Bool)) where
    unfoldable pub create_account : CreateAccountInput → Text → M AccountViewModel
    unfolding require_actor conflict to_view_model
    create_account dto actor = do
      require_actor actor
      code_taken ← repo.exists_by_code dto.code
      throw_if code_taken
          (conflict duplicate_account_code (text "account") (text "code") (string dto.code))
      name_taken ← repo.exists_by_name dto.name
      throw_if name_taken
          (conflict duplicate_account_name (text "account") (text "name") (string dto.name))
      a ← translated (account dto.code dto.name dto.category)
      repo.create a actor
      write_log (account_created a.code a.category)
      pure (to_view_model a)

    -- `new_name != existing.name and await exists_by_name(new_name)`
    unfoldable pub name_conflicts : Text → Text → M Bool
    name_conflicts new_name old_name =
        if same new_name old_name then pure false else repo.exists_by_name new_name

    unfoldable pub update_account : UpdateAccountInput → Text → M AccountViewModel
    unfolding require_actor conflict to_view_model or_unknown or_else name_conflicts
    update_account dto actor = do
      require_actor actor
      found ← repo.get_by_code dto.code
      existing ← or_unknown dto.code found
      let new_name = or_else dto.name existing.name
      let new_category = or_else dto.category existing.category
      name_taken ← name_conflicts new_name existing.name
      throw_if name_taken
          (conflict duplicate_account_name (text "account") (text "name") (string new_name))
      updated ← translated (account existing.code new_name new_category)
      repo.update updated actor
      write_log (account_updated updated.code)
      pure (to_view_model updated)

    unfoldable pub get_account : Text → M AccountViewModel
    unfolding to_view_model or_unknown
    get_account code = do
      found ← repo.get_by_code code
      a ← or_unknown code found
      pure (to_view_model a)

    unfoldable pub get_chart : M ChartOfAccounts
    get_chart = do existing ← repo.list_all; uncaught (chart_of_accounts existing)

    unfoldable pub resolve_account : Text → M AccountViewModel
    unfolding to_view_model or_unknown get_chart get_by_name
    resolve_account reference = do
      chart ← get_chart
      a ← or_unknown reference (get_by_name chart reference)
      pure (to_view_model a)

    unfoldable pub list_accounts : M (List AccountViewModel)
    unfolding to_view_model
    list_accounts = do accounts ← repo.list_all; pure (map to_view_model accounts)

    -- `self._has_postings is not None and await self._has_postings(name)`
    unfoldable pub check_postings : Option (Text → M Bool) → Text → M Bool
    check_postings none name = pure false
    check_postings (some check) name = check name

    unfoldable pub delete_account : Text → Text → M Done
    unfolding require_actor conflict or_unknown check_postings
    delete_account code actor = do
      require_actor actor
      found ← repo.get_by_code code
      existing ← or_unknown code found
      in_use ← check_postings has_postings existing.name
      throw_if in_use (conflict account_has_postings (text "account") (text "code") (string code))
      repo.delete_by_code code actor
      write_log (account_deleted code)
