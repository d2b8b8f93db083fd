-- ===== src/Storage/TrialBalanceRepo/Totals.antt =====
-- The totals of the aggregated rows against those of the postings in scope, through the grouping,
-- the ordering and the validation of the rows.
use trutina.Base.{
  ℕ, ◌≡◌, refl, ap, ap₂, ◌∙◌, Option, List, [], ◌∷◌, inl, inr, Bool-cases, arith, ℤ, pos, ◌+ℤ◌,
  int_laws, Text, same, select, sum, sum-sort_by,
}
use trutina.Platform.{Platform}
use trutina.Schema.{pass, pass_all, pass_all-cons}
use trutina.Core.Journal.{check_amount}
use trutina.Core.TrialBalance.{AccountBalanceEntry, account_balance_entry}
use trutina.Store.{PostingRow}
use trutina.Storage.TrialBalanceRepo.{
  Group, in_scope, add_to_groups, group_postings, by_account, balance_rows, to_domain,
}

module _ ⦃u : Platform⦄ where
  -- A sum over groups that goes along with the merging of a posting into a group.
  record IsAdditive (f : Group → ℤ) (g : PostingRow → ℤ) : Type 0 where
    start :
        (row : PostingRow) (k a : Text)
        → f (record {
          account_key = k;
          account = a;
          debit_total = row.debit_amount;
          credit_total = row.credit_amount;
        })
          ≡ g row
    merge :
        (row : PostingRow) (h : Group) (a : Text)
        → f (record h {
          account = a;
          debit_total = h.debit_total +ℤ row.debit_amount;
          credit_total = h.credit_total +ℤ row.credit_amount;
        })
          ≡ f h +ℤ g row

  debit-IsAdditive : IsAdditive (λ h. h.debit_total) (λ r. r.debit_amount)
  debit-IsAdditive = record { start = λ _ _ _. refl; merge = λ _ _ _. refl }

  credit-IsAdditive : IsAdditive (λ h. h.credit_total) (λ r. r.credit_amount)
  credit-IsAdditive = record { start = λ _ _ _. refl; merge = λ _ _ _. refl }

  module _ (f : Group → ℤ) (g : PostingRow → ℤ) (additive : IsAdditive f g) where
    sum-add_to_groups :
        (row : PostingRow) (groups : List Group)
        → sum f (add_to_groups row groups) ≡ sum f groups +ℤ g row
    unfolding add_to_groups sum
    sum-add_to_groups row [] = ap (λ z. z +ℤ pos 0) (additive.start row _ _) ∙ omega int_laws
    sum-add_to_groups row (h ∷ groups) = elim (Bool-cases (same h.account_key row.account_key)) [
      | inl joined ↦ rw (joined, additive.merge row h _) (omega int_laws)
      | inr apart ↦ rw (apart, sum-add_to_groups row groups) (omega int_laws)
    ]

    sum-group_postings :
        (rows : List PostingRow) (groups : List Group)
        → sum f (group_postings rows groups) ≡ sum f groups +ℤ sum g rows
    unfolding group_postings sum
    sum-group_postings [] groups = omega int_laws
    sum-group_postings (row ∷ rows) groups =
        sum-group_postings rows (add_to_groups row groups)
        ∙ rw (sum-add_to_groups row groups) (omega int_laws)

    sum-balance_rows :
        (as_of_date : Option ℕ) (rows : List PostingRow)
        → sum f (balance_rows as_of_date rows) ≡ sum g (select (in_scope as_of_date) rows)
    unfolding balance_rows sum
    sum-balance_rows as_of_date rows =
        sum-sort_by by_account f (group_postings (select (in_scope as_of_date) rows) [])
        ∙ sum-group_postings (select (in_scope as_of_date) rows) []
        ∙ omega int_laws

  account_balance_entry-totals :
      (account : Text) (debit credit : ℤ) {e : AccountBalanceEntry}
      → account_balance_entry account debit credit ≡ pass e
      → (e.debit_total ≡ debit) × (e.credit_total ≡ credit)
  unfolding account_balance_entry check_amount
  account_balance_entry-totals account debit credit h = ground arith

  sum-to_domain :
      (groups : List Group) (entries : List AccountBalanceEntry)
      → pass_all to_domain groups ≡ pass entries
      → (sum (λ e. e.debit_total) entries ≡ sum (λ g. g.debit_total) groups)
        × (sum (λ e. e.credit_total) entries ≡ sum (λ g. g.credit_total) groups)
  unfolding sum to_domain
  sum-to_domain [] entries h = let e : [] ≡ entries = cc in rw (← e) (refl, refl)
  sum-to_domain (g ∷ groups) entries h =
      let (b, rest, built, others, shape) = pass_all-cons to_domain g groups h in
      let (d, c) = account_balance_entry-totals g.account g.debit_total g.credit_total built in
      let (ds, cs) = sum-to_domain groups rest others in rw shape (ap₂ ◌+ℤ◌ d ds, ap₂ ◌+ℤ◌ c cs)

  -- If the aggregated rows as of a date, or of no date, are read as entries, then the debits and
  -- the credits of the entries sum up to those of the posting rows in scope.
  pub balance_rows-totals :
      (as_of_date : Option ℕ) (rows : List PostingRow) (entries : List AccountBalanceEntry)
      → pass_all to_domain (balance_rows as_of_date rows) ≡ pass entries
      → (sum (λ e. e.debit_total) entries
          ≡ sum (λ r. r.debit_amount) (select (in_scope as_of_date) rows))
        × (sum (λ e. e.credit_total) entries
            ≡ sum (λ r. r.credit_amount) (select (in_scope as_of_date) rows))
  balance_rows-totals as_of_date rows entries h =
      let (d, c) = sum-to_domain (balance_rows as_of_date rows) entries h in
      (
        d ∙ sum-balance_rows _ _ debit-IsAdditive as_of_date rows,
        c ∙ sum-balance_rows _ _ credit-IsAdditive as_of_date rows,
      )
