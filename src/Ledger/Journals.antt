-- ===== src/Ledger/Journals.antt =====
-- JournalService.create_journal_entry over the PostgreSQL repositories, from the call to its end.
use trutina.Base.{
  ◌+◌, ◌≡◌, refl, ◌∙◌, ◌⊎◌, inl, inr, Bool, true, Bool-cases, Option, none, some, List, [], ◌∷◌,
  ◌++◌, length, All, Text, text,
}
use trutina.Platform.{Platform}
use trutina.Errors.{not_found, unknown_account, string}
use trutina.Rule.{is_non_blank_actor}
use trutina.Schema.{Check, pass, fail}
use trutina.Core.Account.{Account}
use trutina.Core.Account.Chart.{ChartOfAccounts, chart_of_accounts, get_by_name}
use trutina.Core.Account.Service.{require_actor, get_chart}
use trutina.Core.Journal.{JournalEntry, JournalLineInput, CreateJournalInput, JournalViewModel}
use trutina.Core.Journal.Service.{
  to_entry_view, validate_references, validate_accounts, build_entry, create_journal_entry,
}
use trutina.Store.{
  LineRow, World, Result, ok, raise, M, Done, pure, throw, uncaught, translated, gets, write_log,
  ◌>>=◌, ◌>>◌, settle, Outcome, committed, violated, refused, journal_created,
}
use trutina.Storage.AccountRepo.{to_domain_all, postgres_account_repo}
use trutina.Storage.JournalRepo.{save_entry, on_duplicate, postgres_journal_repo}
use trutina.Storage.JournalRepo.Saves.{Stores, Saves, entry_row, save_entry-Saves}

module _ ⦃u : Platform⦄ (check : Option (Text → M Bool)) where
  abbrev pub service_chart : M ChartOfAccounts
  service_chart = get_chart postgres_account_repo check

  -- A read of the chart changes nothing.
  abbrev Charts : World → Result ChartOfAccounts × World → Type 0
  Charts w (ok chart, w') = w' ≡ w
  Charts w (raise e, w') = w' ≡ w

  get_chart-Charts : (w : World) → Charts w (service_chart w)
  unfolding get_chart
  get_chart-Charts w = go (to_domain_all w.accounts)
    where
      last : (c : Check ChartOfAccounts) → Charts w (uncaught c w)
      last (pass chart) = refl
      last (fail e) = refl

      go :
          (c : Check (List Account))
          → Charts w ((uncaught c >>= λ accounts. uncaught (chart_of_accounts accounts)) w)
      go (pass accounts) = last (chart_of_accounts accounts)
      go (fail e) = refl

  -- Every line refers to an account of the chart.
  abbrev pub AllKnown : ChartOfAccounts → List JournalLineInput → Type 0
  AllKnown chart = All (λ line. (a : Account) × (get_by_name chart line.account ≡ some a))

  -- What the validation of the references found, by how it ended.
  abbrev Refers : ChartOfAccounts → List JournalLineInput → World → Result Done × World → Type 0
  Refers chart lines w (ok d, w') = (w' ≡ w) × AllKnown chart lines
  Refers chart lines w (raise e, w') = w' ≡ w

  validate_references-Refers :
      (chart : ChartOfAccounts) (lines : List JournalLineInput) (w : World)
      → Refers chart lines w (validate_references chart lines w)
  unfolding validate_references not_found
  validate_references-Refers chart [] w = (refl, tt)
  validate_references-Refers chart (line ∷ lines) w =
      go (get_by_name chart line.account) refl (validate_references chart lines)
        (validate_references-Refers chart lines w)
    where
      add :
          (a : Account)
          → get_by_name chart line.account ≡ some a
          → (r : Result Done × World) → Refers chart lines w r
          → Refers chart (line ∷ lines) w r
      add a known (ok d, w') (same, rest) = (same, ((a, known), rest))
      add a known (raise e, w') same = same

      go :
          (o : Option Account)
          → get_by_name chart line.account ≡ o
          → (rest : M Done) → Refers chart lines w (rest w)
          → Refers chart (line ∷ lines) w (
              (elim o as (λ _. M Done) [
                | none ↦ throw (not_found unknown_account (text "account") (string line.account))
                | some a ↦ rest
              ])
                w)
      go none known rest h = refl
      go (some a) known rest h = add a known (rest w) h

  -- What `validate_accounts` found, by how it ended.
  abbrev Accepts : List JournalLineInput → World → Result Done × World → Type 0
  Accepts lines w (ok d, w') =
      (w' ≡ w)
      × ((chart : ChartOfAccounts) × (service_chart w ≡ (ok chart, w)) × AllKnown chart lines)
  Accepts lines w (raise e, w') = w' ≡ w

  validate_accounts-Accepts :
      (lines : List JournalLineInput) (w : World)
      → Accepts lines w (validate_accounts postgres_journal_repo service_chart lines w)
  unfolding validate_accounts
  validate_accounts-Accepts lines w = go (service_chart w) refl (get_chart-Charts w)
    where
      finish :
          (chart : ChartOfAccounts) (r : Result Done × World)
          → service_chart w ≡ (ok chart, w)
          → Refers chart lines w r
          → Accepts lines w r
      finish chart (ok d, w') read (same, known) = (same, (chart, read, known))
      finish chart (raise e, w') read same = same

      go :
          (r : Result ChartOfAccounts × World)
          → service_chart w ≡ r
          → Charts w r
          → Accepts lines w (((λ v. r) >>= λ chart. validate_references chart lines) w)
      go (ok chart, w') read same = rw same (
          finish chart (validate_references chart lines w) (read ∙ rw same refl)
            (validate_references-Refers chart lines w))
      go (raise e, w') read same = same

  -- What `create_journal_entry` did, by how it ended: a number is drawn even if the entry is then
  -- refused.
  abbrev pub Journals : CreateJournalInput → Text → World → Result JournalViewModel × World → Type 0
  Journals input actor w (ok view, w') =
      (entry : JournalEntry) × (build_entry w.now (w.sequence + 1) input ≡ pass entry)
      × (is_non_blank_actor actor ≡ true)
      × ((chart : ChartOfAccounts) × (service_chart w ≡ (ok chart, w)) × AllKnown chart input.lines)
      × (view ≡ to_entry_view entry)
      × ((rows : List LineRow) × Stores entry.journal_number 0 entry.lines rows
          × (w' ≡ record w {
            sequence = w.sequence + 1;
            journal_entries = w.journal_entries ++ entry_row entry actor ∷ [];
            journal_lines = w.journal_lines ++ rows;
            log = w.log ++ journal_created entry.journal_number (length entry.lines) ∷ [];
          }))
  Journals input actor w (raise e, w') = (w' ≡ w) ⊎ (w' ≡ record w { sequence = w.sequence + 1 })

  abbrev rest_of : JournalEntry → Text → M JournalViewModel
  rest_of entry actor =
      postgres_journal_repo.save entry actor
      >> (write_log (journal_created entry.journal_number (length entry.lines))
          >> pure (to_entry_view entry))

  module _ (input : CreateJournalInput) (actor : Text) (w : World)
      (named : is_non_blank_actor actor ≡ true)
      (accepted : (chart : ChartOfAccounts) × (service_chart w ≡ (ok chart, w))
        × AllKnown chart input.lines) where
    abbrev drawn : World
    drawn = record w { sequence = w.sequence + 1 }

    save_stage :
        (entry : JournalEntry)
        → build_entry w.now (w.sequence + 1) input ≡ pass entry
        → Journals input actor w (rest_of entry actor drawn)
    save_stage entry built = go (save_entry entry actor drawn) (save_entry-Saves entry actor drawn)
      where
        go :
            (o : Outcome Done)
            → Saves entry actor drawn o
            → Journals input actor w (
                ((λ v. settle (on_duplicate entry.journal_number) drawn o)
                    >> (write_log (journal_created entry.journal_number (length entry.lines))
                        >> pure (to_entry_view entry)))
                  drawn)
        go (committed d w') (rows, stores, _, shape) =
            (entry, built, named, accepted, refl, (rows, stores, rw shape refl))
        go (violated c) h = inr refl
        go refused h = inr refl

    build_stage :
        (c : Check JournalEntry)
        → build_entry w.now (w.sequence + 1) input ≡ c
        → Journals input actor w ((translated c >>= λ entry. rest_of entry actor) drawn)
    build_stage (pass entry) built = save_stage entry built
    build_stage (fail e) built = inr refl

  -- If create_journal_entry returns, the actor is not blank, every line refers to an account of the
  -- chart that was read, the lines and the next number make an entry, exactly the row of the entry,
  -- one row for each line and one log line were added, and the view is that of the entry; if it
  -- raises, nothing changed but that a number may have been drawn.
  pub create_journal_entry-Journals :
      (input : CreateJournalInput) (actor : Text) (w : World)
      → Journals input actor w
          (create_journal_entry postgres_journal_repo service_chart input actor w)
  unfolding create_journal_entry require_actor
  create_journal_entry-Journals input actor w = elim (Bool-cases (is_non_blank_actor actor)) [
    | inr blank ↦ rw blank (inl refl)
    | inl named ↦ rw named (
        go (validate_accounts postgres_journal_repo service_chart input.lines w) named
          (validate_accounts-Accepts input.lines w))
  ]
    where
      go :
          (r : Result Done × World)
          → is_non_blank_actor actor ≡ true
          → Accepts input.lines w r
          → Journals input actor w (
              ((λ v. r)
                  >> (postgres_journal_repo.next_journal_number >>= λ number.
                      gets (λ v. v.now) >>= λ now.
                      translated (build_entry now number input) >>= λ entry. rest_of entry actor))
                w)
      go (ok d, w') named (same, accepted) =
          rw same (
            build_stage input actor w named accepted (build_entry w.now (w.sequence + 1) input)
              refl)
      go (raise e, w') named same = inl same
