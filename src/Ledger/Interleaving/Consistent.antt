-- ===== src/Ledger/Interleaving/Consistent.antt =====
-- What holds in every state that interleaved clients reach.
use trutina.Base.{
  ℕ, ◌≡◌, refl, sym, ◌∙◌, subst, true, Option, none, some, List, [], ◌∷◌, ◌++◌, arith, All,
  All-append, Text, length, if◌then◌else◌,
}
use trutina.Platform.{Platform}
use trutina.Core.Account.{Account}
use trutina.Core.Account.Chart.{ChartOfAccounts}
use trutina.Core.Posting.{PostingViewModel}
use trutina.Core.TrialBalance.{TrialBalanceViewModel, is_balanced, get_trial_balance}
use trutina.Store.{
  AccountRow, AuditRow, World, Result, ok, raise, M, Done, Outcome, committed, violated, refused,
  Constraint, settle, execute, AuditAction, resume, trial_balance_generated,
}
use trutina.Errors.{Error, unknown}
use trutina.Storage.AccountRepo.{
  or_unknown_account, on_duplicate, account_row, audit_row, insert_account, update_account,
  delete_account, postgres_account_repo,
}
use trutina.Storage.JournalRepo.Lines.{HasStoredLines, KeepsLines, save_entry-KeepsLines}
use trutina.Storage.PostingRepo.Batch.{Batches}
use trutina.Storage.TrialBalanceRepo.{postgres_trial_balance_repo}
use trutina.Ledger.Views.{IsSoundView, Views, get_journal_entry-Views}
use trutina.Ledger.Postings.{IsLedger, Records, record_postings-Records}
use trutina.Ledger.Posts.{Looks, require_unposted-Looks}
use trutina.Ledger.Report.{IsLedger-report}
use trutina.Ledger.Interleaving.{Request, System, reached, get_entry, Step, Reach}

module _ {A : Type 0} (P : A → Type 0) where
  All-split : (xs : List A) (x : A) (ys : List A) → All P (xs ++ x ∷ ys) → All P xs × P x × All P ys
  All-split [] x ys h = (tt, h.0, h.1)
  All-split (z ∷ xs) x ys h =
      let (before, here, after) = All-split xs x ys h.1 in ((h.0, before), here, after)

-- The journal lines and the postings of a state are those of another.
abbrev Quiet : {A : Type 0} → World → Result A × World → Type 0
Quiet w (r, w') = (w'.journal_lines ≡ w.journal_lines) × (w'.postings ≡ w.postings)

abbrev QuietOutcome : {A : Type 0} → World → Outcome A → Type 0
QuietOutcome w (committed a w') = (w'.journal_lines ≡ w.journal_lines) × (w'.postings ≡ w.postings)
QuietOutcome w (violated c) = Unit
QuietOutcome w refused = Unit

settle-Quiet :
    {A : Type 0} (f : Constraint → Error) (w : World) (o : Outcome A)
    → QuietOutcome w o
    → Quiet w (settle f w o)
settle-Quiet f w (committed a w') h = h
settle-Quiet f w (violated c) h = (refl, refl)
settle-Quiet f w refused h = (refl, refl)

resume-Quiet :
    {A B : Type 0} (w : World) (r : Result A × World) (f : A → M B)
    → Quiet w r
    → ((a : A) (w' : World) → Quiet w' (f a w'))
    → Quiet w (resume r f)
resume-Quiet w (ok a, w') f h k = let (lines, postings) = k a w' in (lines ∙ h.0, postings ∙ h.1)
resume-Quiet w (raise e, w') f h k = h

insert_account-Quiet :
    (row : AccountRow) (event : AuditRow) (w : World) → QuietOutcome w (insert_account row event w)
unfolding insert_account
insert_account-Quiet row event w = ground arith

update_account-Quiet :
    (row : AccountRow) (event : AuditRow) (w : World) → QuietOutcome w (update_account row event w)
unfolding update_account
update_account-Quiet row event w = ground arith

delete_account-Quiet :
    (code : Text) (event : AuditRow) (w : World) → QuietOutcome w (delete_account code event w)
unfolding delete_account
delete_account-Quiet code event w = ground arith

or_unknown_account-Quiet :
    (code : Text) (d : Option Done) (w : World) → Quiet w (or_unknown_account code d w)
or_unknown_account-Quiet code none w = (refl, refl)
or_unknown_account-Quiet code (some d) w = (refl, refl)

module _ ⦃u : Platform⦄ where
  change-Quiet :
      (a : Account) (actor : Text) (w : World) → Quiet w (postgres_account_repo.update a actor w)
  change-Quiet a actor w =
      resume-Quiet w
        (execute (on_duplicate a.code a.name)
          (update_account (account_row a) (audit_row AuditAction.update a.code actor)) w)
        (or_unknown_account a.code) (settle-Quiet _ w _ (update_account-Quiet _ _ w))
        (or_unknown_account-Quiet a.code)

  remove-Quiet :
      (code actor : Text) (w : World) → Quiet w (postgres_account_repo.delete_by_code code actor w)
  remove-Quiet code actor w =
      resume-Quiet w
        (execute (λ _. unknown) (delete_account code (audit_row AuditAction.delete code actor)) w)
        (λ deleted. or_unknown_account code (if deleted then some tt else none))
        (settle-Quiet _ w _ (delete_account-Quiet code _ w))
        (λ deleted. or_unknown_account-Quiet code (if deleted then some tt else none))

  -- Stored lines, a ledger of batches, and a sound view in every request.
  pub record IsConsistent (s : System) : Type 0 where
    pub stored : HasStoredLines s.world
    pub ledger : IsLedger s.world.postings
    pub sound : All (λ r. IsSoundView r.number r.view) s.requests

  Quiet-IsConsistent :
      {A : Type 0} (w : World) (rs : List Request) (r : Result A × World)
      → Quiet w r
      → IsConsistent (record { world = w; requests = rs })
      → IsConsistent (record { world = reached r; requests = rs })
  Quiet-IsConsistent w rs (r, w') (lines, postings) c = record {
    stored = subst (All _) (sym lines) c.stored;
    ledger = subst IsLedger (sym postings) c.ledger;
    sound = c.sound;
  }

  saved-IsConsistent :
      (f : Constraint → Error) (w : World) (rs : List Request) (o : Outcome Done)
      → KeepsLines w o
      → IsConsistent (record { world = w; requests = rs })
      → IsConsistent (record { world = reached (settle f w o); requests = rs })
  saved-IsConsistent f w rs (committed d w') (stored, (postings, _)) c = record {
    stored = stored;
    ledger = subst IsLedger (sym postings) c.ledger;
    sound = c.sound;
  }
  saved-IsConsistent f w rs (violated x) k c = c
  saved-IsConsistent f w rs refused k c = c

  posted-IsConsistent :
      (r : Request) (w : World) (xs ys : List Request) (o : Result (List PostingViewModel) × World)
      → Records r.number r.view r.actor w o
      → IsConsistent (record { world = w; requests = xs ++ r ∷ ys })
      → IsConsistent (record { world = reached o; requests = xs ++ ys })
  posted-IsConsistent r w xs ys (ok views, w') (ps, _, _, same, _, ledger) c =
      let (before, _, after) = All-split _ xs r ys c.sound in
      record { stored = rw same c.stored; ledger = ledger; sound = All-append _ xs ys before after }
  posted-IsConsistent r w xs ys (raise e, w') same c =
      let (before, _, after) = All-split _ xs r ys c.sound in
      rw same
        (record { stored = c.stored; ledger = c.ledger; sound = All-append _ xs ys before after })

  module _ (chart : M ChartOfAccounts) where
    Step-IsConsistent : {s t : System} → Step chart s t → IsConsistent s → IsConsistent t
    Step-IsConsistent (Step.read number actor view w w' rs e) c =
        let (same, view_sound) =
          subst (Views number w) e (get_journal_entry-Views chart number w c.stored) in
        rw same (record { stored = c.stored; ledger = c.ledger; sound = (view_sound, c.sound) })
    Step-IsConsistent (Step.check r w w' xs ys e) c =
        let same : w' ≡ w =
          subst (Looks w) e (require_unposted-Looks (get_entry chart) r.number w) in
        let (before, here, after) = All-split _ xs r ys c.sound in
        rw same (record {
          stored = c.stored;
          ledger = c.ledger;
          sound = All-append _ xs (record r { checked = true } ∷ ys) before (here, after);
        })
    Step-IsConsistent (Step.post r w xs ys checked) c =
        let (_, sound, _) = All-split _ xs r ys c.sound in
        posted-IsConsistent r w xs ys _
          (record_postings-Records (get_entry chart) r.number r.view r.actor w sound c.ledger) c
    Step-IsConsistent (Step.leave r w xs ys) c =
        let (before, _, after) = All-split _ xs r ys c.sound in
        record { stored = c.stored; ledger = c.ledger; sound = All-append _ xs ys before after }
    Step-IsConsistent (Step.draw_number w rs) c = record {
      stored = c.stored;
      ledger = c.ledger;
      sound = c.sound;
    }
    Step-IsConsistent (Step.save_journal entry actor w rs) c =
        saved-IsConsistent _ w rs _ (save_entry-KeepsLines entry actor w c.stored) c
    Step-IsConsistent (Step.store_account a actor w rs) c =
        Quiet-IsConsistent {A = Done} w rs (postgres_account_repo.create a actor w)
          (settle-Quiet _ w _ (insert_account-Quiet _ _ w)) c
    Step-IsConsistent (Step.change_account a actor w rs) c =
        Quiet-IsConsistent {A = Done} w rs (postgres_account_repo.update a actor w)
          (change-Quiet a actor w) c
    Step-IsConsistent (Step.remove_account code actor w rs) c =
        Quiet-IsConsistent {A = Done} w rs (postgres_account_repo.delete_by_code code actor w)
          (remove-Quiet code actor w) c
    Step-IsConsistent (Step.tick w later rs h) c = record {
      stored = c.stored;
      ledger = c.ledger;
      sound = c.sound;
    }

    -- In every state that interleaved clients of the repositories reach from tables without journal
    -- lines and postings, the journal lines hold amounts of the column type, the postings are a
    -- ledger of balanced batches, one for each journal number, of reportable rows, and every
    -- posting request under way holds a sound view of its entry.
    pub Reach-IsConsistent : {s : System} → Reach chart s → IsConsistent s
    Reach-IsConsistent (Reach.start w lines postings) = record {
      stored = subst (All _) (sym lines) tt;
      ledger =
          subst IsLedger (sym postings) (record { batches = Batches.nothing; reportable = tt });
      sound = tt;
    }
    Reach-IsConsistent (Reach.step before next) = Step-IsConsistent next (Reach-IsConsistent before)

    -- In every state that interleaved clients of the repositories reach from tables without journal
    -- lines and postings, the trial balance as of any date, or of no date, is returned, its total
    -- debits equal its total credits, and the call adds one log line and changes nothing else.
    pub Reach-report :
        (as_of_date : Option ℕ) {s : System}
        → Reach chart s
        → (view : TrialBalanceViewModel) × (get_trial_balance postgres_trial_balance_repo as_of_date
              s.world
            ≡ (
              ok view,
              record s.world {
                log = s.world.log ++ trial_balance_generated (length view.entries) as_of_date ∷ [];
              },
            ))
          × (is_balanced view ≡ true)
          × (view.as_of_date ≡ as_of_date)
    Reach-report as_of_date {s} reachable =
        IsLedger-report as_of_date s.world (Reach-IsConsistent reachable).ledger
