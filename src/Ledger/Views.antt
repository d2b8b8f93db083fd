-- ===== src/Ledger/Views.antt =====
-- JournalService.get_journal_entry over PostgresJournalRepo: what the view of an entry promises to
-- the posting service.
use trutina.Base.{
  ℕ, suc, ◌≤◌, ◌≡◌, refl, ap, sym, ◌∙◌, Option, none, some, List, [], ◌∷◌, map, length, ℤ, sum, All,
}
use trutina.Platform.{Platform}
use trutina.Rule.{clean_account_name}
use trutina.Core.Account.Chart.{ChartOfAccounts}
use trutina.Core.Journal.{JournalLine, JournalEntry, JournalLineViewModel, JournalViewModel}
use trutina.Core.Journal.Service.{to_line_view, to_entry_view, or_unknown_entry, get_journal_entry}
use trutina.Store.{World, Result, ok, raise, M, pure, ◌>>=◌}
use trutina.Storage.JournalRepo.{postgres_journal_repo}
use trutina.Storage.JournalRepo.Lines.{IsStored, HasStoredLines}
use trutina.Storage.JournalRepo.Reads.{IsSound, Reads, get_by_number-Reads}

module _ ⦃u : Platform⦄ where
  -- A line of a view that can be posted: amounts of the column type, and a clean account name.
  abbrev pub IsPostable : JournalLineViewModel → Type 0
  IsPostable l =
      (IsStored l.debit_amount × IsStored l.credit_amount)
      × (clean_account_name l.account ≡ some l.account)

  -- A view of the entry of a number that can be posted as a batch.
  pub record IsSoundView (number : ℕ) (view : JournalViewModel) : Type 0 where
    pub numbered : view.journal_number ≡ number
    pub balanced : sum (λ l. l.debit_amount) view.lines ≡ sum (λ l. l.credit_amount) view.lines
    pub enough : 2 ≤ length view.lines
    pub postable : All IsPostable view.lines

  module _ (f : JournalLine → ℤ) (g : JournalLineViewModel → ℤ)
      (same : (l : JournalLine) → g (to_line_view l) ≡ f l) where
    sum-to_line_view : (ls : List JournalLine) → sum g (map to_line_view ls) ≡ sum f ls
    unfolding sum
    sum-to_line_view [] = refl
    sum-to_line_view (l ∷ ls) = rw (same l, sum-to_line_view ls) refl

  length-to_line_view : (ls : List JournalLine) → length (map to_line_view ls) ≡ length ls
  length-to_line_view [] = refl
  length-to_line_view (l ∷ ls) = ap suc (length-to_line_view ls)

  to_line_view-IsPostable :
      (ls : List JournalLine)
      → All (λ l. IsStored l.debit_amount × IsStored l.credit_amount) ls
      → All (λ l. clean_account_name l.account ≡ some l.account) ls
      → All IsPostable (map to_line_view ls)
  unfolding to_line_view
  to_line_view-IsPostable [] h k = tt
  to_line_view-IsPostable (l ∷ ls) h k = ((h.0, k.0), to_line_view-IsPostable ls h.1 k.1)

  to_entry_view-IsSoundView :
      (number : ℕ) (entry : JournalEntry)
      → IsSound number entry
      → IsSoundView number (to_entry_view entry)
  unfolding to_entry_view to_line_view
  to_entry_view-IsSoundView number entry s = record {
    numbered = s.numbered;
    balanced =
        sum-to_line_view (λ l. l.debit_amount) (λ l. l.debit_amount) (λ l. refl) entry.lines
        ∙ s.balanced
        ∙ sym (
            sum-to_line_view (λ l. l.credit_amount) (λ l. l.credit_amount) (λ l. refl) entry.lines);
    enough = rw (length-to_line_view entry.lines) s.enough;
    postable = to_line_view-IsPostable entry.lines s.stored s.cleaned;
  }

  -- What `get_journal_entry` gives, by how it ended; it changes nothing.
  abbrev pub Views : ℕ → World → Result JournalViewModel × World → Type 0
  Views number w (ok view, w') = (w' ≡ w) × IsSoundView number view
  Views number w (raise e, w') = w' ≡ w

  -- On stored lines, get_journal_entry changes nothing, and a view that it returns has the number
  -- asked for, equal sums of debits and credits, at least two lines, amounts of the column type and
  -- clean account names.
  pub get_journal_entry-Views :
      (chart : M ChartOfAccounts) (number : ℕ) (w : World)
      → HasStoredLines w
      → Views number w (get_journal_entry postgres_journal_repo chart number w)
  unfolding get_journal_entry or_unknown_entry
  get_journal_entry-Views chart number w h =
      go (postgres_journal_repo.get_by_number number w) (get_by_number-Reads number w h)
    where
      go :
          (r : Result (Option JournalEntry) × World)
          → Reads number w r
          → Views number w (
              ((λ v. r) >>= λ found.
              or_unknown_entry number found >>= λ entry. pure (to_entry_view entry))
                w)
      go (ok none, w') e = e
      go (ok (some entry), w') e = (e.0, to_entry_view-IsSoundView number entry e.1)
      go (raise x, w') e = e
