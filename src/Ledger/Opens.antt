-- ===== src/Ledger/Opens.antt =====
-- When `create_account` returns.
use trutina.Base.{◌≡◌, refl, true, false, Option, any, Text, Bool}
use trutina.Platform.{Platform}
use trutina.Rule.{is_non_blank_actor, account_lookup_key}
use trutina.Core.Account.{Account, account, CreateAccountInput}
use trutina.Core.Account.Valid.{account-pass}
use trutina.Core.Account.Service.{create_account, to_view_model, require_actor}
use trutina.Schema.{pass}
use trutina.Store.{World, ok, M}
use trutina.Storage.AccountRepo.{
  has_code, has_key, account_row, insert_account, postgres_account_repo,
}
use trutina.Storage.AccountRepo.Table.{IsChart}
use trutina.Storage.AccountRepo.Reads.{exists_by_code_lem, exists_by_name_lem}
use trutina.Ledger.Accounts.{with_account}

module _ ⦃u : Platform⦄ (check : Option (Text → M Bool)) where
  -- On a chart, create_account returns the view of the account, and adds exactly its row, its audit
  -- row and one log line, if the actor is not blank, the fields make an account, and no row has its
  -- code or the lookup key of the name, as given or as stored.
  pub create_account-returns :
      (dto : CreateAccountInput) (actor : Text) (w : World) (a : Account)
      → IsChart w.accounts
      → is_non_blank_actor actor ≡ true
      → any (has_code dto.code) w.accounts ≡ false
      → any (has_key (account_lookup_key dto.name)) w.accounts ≡ false
      → account dto.code dto.name dto.category ≡ pass a
      → any (has_key (account_lookup_key a.name)) w.accounts ≡ false
      → create_account postgres_account_repo check dto actor w
        ≡ (ok (to_view_model a), with_account a actor w)
  unfolding create_account require_actor insert_account account_row
  create_account-returns dto actor w a chart named new_code new_name built new_key =
      let (same_code, _, _, _, _, _, _) = account-pass dto.code dto.name dto.category a built in
      let free : any (has_code a.code) w.accounts ≡ false = (rw same_code new_code) in
      rw
        (
          named,
          exists_by_code_lem w chart dto.code,
          new_code,
          exists_by_name_lem w chart dto.name,
          new_name,
          built,
          free,
          new_key,
        )
        refl
