-- ===== src/Core/Account/Lookup.antt =====
-- The two indices of a chart of accounts against its list of accounts.
use trutina.Base.{
  ◌≡◌, refl, ap, sym, ◌∙◌, Bool-cases, inl, inr, Option, none, some, List, [], ◌∷◌, Text, same,
  same→eq, find, subst,
}
use trutina.Platform.{Platform}
use trutina.Errors.{ErrorCode, object, duplicate_account_name, duplicate_account_code}
use trutina.Schema.{Check, pass, reject, >>=-pass}
use trutina.Rule.{account_lookup_key}
use trutina.Core.Account.{Account}
use trutina.Core.Account.Chart.{
  Index, get, build_index, ChartOfAccounts, validate_unique_codes, validate_unique_names,
  chart_of_accounts, get_by_name, get_by_code,
}

-- The first of two answers.
abbrev first_of : Option Account → Option Account → Option Account
first_of (some a) o = some a
first_of none o = o

first_of-none : (o : Option Account) → o ≡ first_of o none
first_of-none none = refl
first_of-none (some a) = refl

module _ (key : Account → Text) (duplicate : ErrorCode) where
  -- A built index was built over the rest, and no earlier account had the key.
  build_index-cons :
      (a : Account) (accounts : List Account) (index : Index) {out : Index}
      → build_index key duplicate (a ∷ accounts) index ≡ pass out
      → (get (key a) index ≡ none)
        × (build_index key duplicate accounts ((key a, a) ∷ index) ≡ pass out)
  unfolding build_index
  build_index-cons a accounts index {out} h =
      go (get (key a) index) refl (build_index key duplicate accounts ((key a, a) ∷ index)) h
    where
      go :
          (o : Option Account)
          → get (key a) index ≡ o
          → (rest : Check Index)
          → (elim o as (λ _. Check Index) [ some _ ↦ reject duplicate "" object | none ↦ rest ])
            ≡ pass out
          → (get (key a) index ≡ none) × (rest ≡ pass out)
      go none e rest k = (e, k)
      go (some b) e rest k = cc

  build_index-get :
      (k : Text) (accounts : List Account) (index out : Index)
      → build_index key duplicate accounts index ≡ pass out
      → get k out ≡ first_of (get k index) (find (λ a. same (key a) k) accounts)
  unfolding build_index get
  build_index-get k [] index out h =
      let e : index ≡ out = cc in
      subst (λ i. get k i ≡ first_of (get k index) none) e (first_of-none (get k index))
  build_index-get k (a ∷ accounts) index out h =
      let (new, rest) = build_index-cons a accounts index h in
      let later = build_index-get k accounts ((key a, a) ∷ index) out rest in
      elim (Bool-cases (same (key a) k)) [
        | inl here ↦
            let absent : get k index ≡ none =
              subst (λ t. get t index ≡ none) (same→eq _ _ here) new in
            later ∙ rw (here, absent) refl
        | inr there ↦ later ∙ rw there refl
      ]

module _ ⦃u : Platform⦄ where
  chart_of_accounts-inv :
      (accounts : List Account) (chart : ChartOfAccounts)
      → chart_of_accounts accounts ≡ pass chart
      → (validate_unique_codes accounts ≡ pass chart.by_code)
        × (validate_unique_names accounts ≡ pass chart.by_name)
        × (accounts ≡ chart.accounts)
  unfolding chart_of_accounts
  chart_of_accounts-inv accounts chart h =
      let (codes, by_code, after) = >>=-pass (validate_unique_codes accounts) _ h in
      let (names, by_name, shape) = >>=-pass (validate_unique_names accounts) _ after in
      let same_codes : codes ≡ chart.by_code = cc in
      let same_names : names ≡ chart.by_name = cc in
      (by_code ∙ ap pass same_codes, by_name ∙ ap pass same_names, cc)

  -- A chart that is constructed has the accounts it was given, and its two indices find what a
  -- search of the list finds: an account by the lookup key of a name, and an account by its code.
  pub chart_of_accounts-finds :
      (accounts : List Account) (chart : ChartOfAccounts) (name code : Text)
      → chart_of_accounts accounts ≡ pass chart
      → (chart.accounts ≡ accounts)
        × (get_by_name chart name
            ≡ find (λ a. same (account_lookup_key a.name) (account_lookup_key name)) accounts)
        × (get_by_code chart code ≡ find (λ a. same a.code code) accounts)
  unfolding validate_unique_names validate_unique_codes get_by_name get_by_code get
  chart_of_accounts-finds accounts chart name code h =
      let (codes, names, kept) = chart_of_accounts-inv accounts chart h in
      (
        sym kept,
        build_index-get (λ a. account_lookup_key a.name) duplicate_account_name
            (account_lookup_key name) accounts [] chart.by_name names,
        build_index-get (λ a. a.code) duplicate_account_code code accounts [] chart.by_code codes,
      )
