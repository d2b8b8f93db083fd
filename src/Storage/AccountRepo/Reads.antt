-- ===== src/Storage/AccountRepo/Reads.antt =====
-- What the reads of the account repository return, on a table that keeps its unique constraints.
use trutina.Base.{
  ◌≡◌, refl, ap, ◌∙◌, Bool, Option, none, some, List, [], ◌∷◌, arith, Text, same, select, any, find,
  select-find, to_list, Unique,
}
use trutina.Platform.{Platform}
use trutina.Rule.{account_lookup_key}
use trutina.Store.{AccountRow, World, ok, pure, uncaught, ◌>>=◌}
use trutina.Core.Account.{Account}
use trutina.Schema.{Check, pass, fail}
use trutina.Storage.{scalar_one_or_none}
use trutina.Storage.AccountRepo.{
  has_code, has_key, is_some, to_domain, to_domain?, postgres_account_repo,
}
use trutina.Storage.AccountRepo.Table.{IsChart, code_of, key_of}

is_some-find : {A : Type 0} (p : A → Bool) (xs : List A) → is_some (find p xs) ≡ any p xs
is_some-find p [] = refl
is_some-find p (x ∷ xs) = ground (arith, is_some-find p xs)

scalar-find :
    {A : Type 0} (key : A → Text) (k : Text) (xs : List A) (w : World)
    → Unique key xs
    → scalar_one_or_none (select (λ x. same (key x) k) xs) w
      ≡ (ok (find (λ x. same (key x) k) xs), w)
unfolding scalar_one_or_none
scalar-find {A} key k xs w d = rw (select-find key k xs d) (go (find (λ x. same (key x) k) xs))
  where
    go : (o : Option A) → scalar_one_or_none (to_list o) w ≡ (ok o, w)
    go none = refl
    go (some a) = refl

module _ ⦃u : Platform⦄ (w : World) (chart : IsChart w.accounts) where
  pub exists_by_code_lem :
      (code : Text)
      → postgres_account_repo.exists_by_code code w ≡ (ok (any (has_code code) w.accounts), w)
  exists_by_code_lem code = rw (scalar-find code_of code w.accounts w chart.codes, is_some-find)

  pub exists_by_name_lem :
      (name : Text)
      → postgres_account_repo.exists_by_name name w
        ≡ (ok (any (has_key (account_lookup_key name)) w.accounts), w)
  exists_by_name_lem name =
      rw (scalar-find key_of (account_lookup_key name) w.accounts w chart.keys, is_some-find)

  pub get_by_code_lem :
      (code : Text)
      → postgres_account_repo.get_by_code code w ≡ to_domain? (find (has_code code) w.accounts) w
  get_by_code_lem code = rw (scalar-find code_of code w.accounts w chart.codes)

  to_domain?-same : (o : Option AccountRow) → (to_domain? o w).1 ≡ w
  to_domain?-same none = refl
  to_domain?-same (some row) = go (to_domain row)
    where
      go : (c : Check Account) → ((uncaught c >>= λ a. pure (some a)) w).1 ≡ w
      go (pass a) = refl
      go (fail e) = refl

  -- A read by code changes nothing.
  pub get_by_code-same : (code : Text) → (postgres_account_repo.get_by_code code w).1 ≡ w
  get_by_code-same code =
      ap (λ p. p.1) (get_by_code_lem code) ∙ to_domain?-same (find (has_code code) w.accounts)

  -- A test of a name changes nothing.
  pub exists_by_name-same : (name : Text) → (postgres_account_repo.exists_by_name name w).1 ≡ w
  exists_by_name-same name = ap (λ p. p.1) (exists_by_name_lem name)
