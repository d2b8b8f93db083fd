-- ===== src/Ledger/Report.antt =====
-- TrialBalanceService over PostgresTrialBalanceRepo, on a ledger of batches.
use trutina.Base.{
  ℕ, ◌≡◌, refl, sym, ◌∙◌, inl, inr, Bool, true, false, Option, List, [], ◌∷◌, ◌++◌, length, arith,
  if◌then◌else◌, Bool-cases, ℤ, pos, ◌≤ℤ◌, ◌+ℤ◌, int_laws, eqb_ℤ_refl, total-sum, total, All,
  select, same, String,
}
use trutina.Platform.{Platform}
use trutina.Schema.{pass, pass_all, ◌>>=◌ as ◌then◌}
use trutina.Core.Journal.{check_line_account, check_amount}
use trutina.Core.TrialBalance.{
  AccountBalanceEntry, TrialBalanceViewModel, total_debits, total_credits, is_balanced,
  get_trial_balance, account_balance_entry,
}
use trutina.Store.{PostingRow, World, ok, trial_balance_generated}
use trutina.Storage.JournalRepo.Lines.{All-select, All-sort_by}
use trutina.Storage.TrialBalanceRepo.{
  Group, in_scope, add_to_groups, group_postings, by_account, balance_rows, to_domain,
  postgres_trial_balance_repo,
}
use trutina.Storage.TrialBalanceRepo.Totals.{balance_rows-totals}
use trutina.Storage.PostingRepo.Batch.{Batches-even}
use trutina.Ledger.Postings.{IsReportable, IsLedger}

module _ ⦃u : Platform⦄ where
  abbrev IsReportableGroup : Group → Type 0
  IsReportableGroup g =
      (check_line_account g.account ≡ pass g.account)
      × (pos 0 ≤ℤ g.debit_total)
      × (pos 0 ≤ℤ g.credit_total)

  sum_not_negative : (a b : ℤ) → pos 0 ≤ℤ a → pos 0 ≤ℤ b → pos 0 ≤ℤ a +ℤ b
  sum_not_negative a b h k = omega (int_laws, h, k)

  joined-account :
      (row : PostingRow) (g : Group) (b : Bool)
      → IsReportable row
      → IsReportableGroup g
      → check_line_account (if b then g.account else row.account)
        ≡ pass (if b then g.account else row.account)
  joined-account row g true (a, _, _) (k, _, _) = k
  joined-account row g false (a, _, _) (k, _, _) = a

  add_to_groups-IsReportable :
      (row : PostingRow) (groups : List Group)
      → IsReportable row
      → All IsReportableGroup groups
      → All IsReportableGroup (add_to_groups row groups)
  unfolding add_to_groups
  add_to_groups-IsReportable row [] h k = (h, tt)
  add_to_groups-IsReportable row (g ∷ groups) h k =
      let (_, d, c) = h in
      let (_, gd, gc) = k.0 in
      elim (Bool-cases (same g.account_key row.account_key)) [
        | inl joined ↦ rw joined (
          (
            joined-account row g (u.collate g.account row.account) h k.0,
            sum_not_negative g.debit_total row.debit_amount gd d,
            sum_not_negative g.credit_total row.credit_amount gc c,
          ),
          k.1,
        )
        | inr apart ↦ rw apart (k.0, add_to_groups-IsReportable row groups h k.1)
      ]

  group_postings-IsReportable :
      (rows : List PostingRow) (groups : List Group)
      → All IsReportable rows
      → All IsReportableGroup groups
      → All IsReportableGroup (group_postings rows groups)
  unfolding group_postings
  group_postings-IsReportable [] groups h k = k
  group_postings-IsReportable (row ∷ rows) groups h k =
      group_postings-IsReportable rows (add_to_groups row groups) h.1
        (add_to_groups-IsReportable row groups h.0 k)

  balance_rows-IsReportable :
      (as_of_date : Option ℕ) (rows : List PostingRow)
      → All IsReportable rows
      → All IsReportableGroup (balance_rows as_of_date rows)
  unfolding balance_rows
  balance_rows-IsReportable as_of_date rows h = All-sort_by IsReportableGroup by_account _ (
      group_postings-IsReportable (select (in_scope as_of_date) rows) []
        (All-select IsReportable (in_scope as_of_date) rows h) tt)

  check_amount_not_negative : (loc : String) (v : ℤ) → pos 0 ≤ℤ v → check_amount loc v ≡ pass v
  unfolding check_amount
  check_amount_not_negative loc v h = ground arith

  to_domain-pass :
      (g : Group) → IsReportableGroup g → (e : AccountBalanceEntry) × (to_domain g ≡ pass e)
  unfolding to_domain account_balance_entry
  to_domain-pass g (a, d, c) = (
    record { account = g.account; debit_total = g.debit_total; credit_total = g.credit_total },
    rw
        (
          a,
          check_amount_not_negative "debit_total" g.debit_total d,
          check_amount_not_negative "credit_total" g.credit_total c,
        )
        refl,
  )

  pass_all-to_domain :
      (groups : List Group)
      → All IsReportableGroup groups
      → (es : List AccountBalanceEntry) × (pass_all to_domain groups ≡ pass es)
  pass_all-to_domain [] h = ([], refl)
  pass_all-to_domain (g ∷ groups) h =
      let (e, built) = to_domain-pass g h.0 in
      let (es, others) = pass_all-to_domain groups h.1 in (e ∷ es, rw (built, others) refl)

  -- On a ledger, the trial balance as of any date, or of no date, is returned, its total debits
  -- equal its total credits, and the call adds one log line and changes nothing else.
  pub IsLedger-report :
      (as_of_date : Option ℕ) (w : World)
      → IsLedger w.postings
      → (view : TrialBalanceViewModel) × (get_trial_balance postgres_trial_balance_repo as_of_date w
          ≡ (
            ok view,
            record w {
              log = w.log ++ trial_balance_generated (length view.entries) as_of_date ∷ [];
            },
          ))
        × (is_balanced view ≡ true)
        × (view.as_of_date ≡ as_of_date)
  unfolding get_trial_balance is_balanced total_debits total_credits
  IsLedger-report as_of_date w ledger =
      let (es, read) =
        pass_all-to_domain (balance_rows as_of_date w.postings)
          (balance_rows-IsReportable as_of_date w.postings ledger.reportable) in
      let (d, c) = balance_rows-totals as_of_date w.postings es read in
      let even : total (λ e. e.debit_total) es ≡ total (λ e. e.credit_total) es =
        total-sum _ es
        ∙ d
        ∙ Batches-even as_of_date ledger.batches
        ∙ sym c
        ∙ sym (total-sum _ es) in
      (
        record { entries = es; as_of_date = as_of_date },
        rw read refl,
        rw even (eqb_ℤ_refl (total (λ e. e.credit_total) es)),
        refl,
      )
