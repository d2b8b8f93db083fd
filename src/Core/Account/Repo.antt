-- ===== src/Core/Account/Repo.antt =====
-- packages/core/src/trutina/core/account/repo.py: the contract between the service and a storage.
use trutina.Base.{Bool, Option, List, Text}
use trutina.Core.Account.{Account}
use trutina.Store.{M, Done}

pub record AccountRepo : Type 0 where
  pub create : Account → Text → M Done
  pub update : Account → Text → M Done
  pub exists_by_code : Text → M Bool
  pub exists_by_name : Text → M Bool
  pub get_by_code : Text → M (Option Account)
  pub get_by_name : Text → M (Option Account)
  pub list_all : M (List Account)
  pub delete_by_code : Text → Text → M Done
