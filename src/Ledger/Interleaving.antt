-- ===== src/Ledger/Interleaving.antt =====
-- Clients of the services that interleave: every transaction is one step, and an entry that was read
-- for posting may be recorded when the tables have moved on.
pub mod Consistent
use trutina.Base.{
  ℕ, ◌≤◌, ◌≡◌, refl, sym, ◌∙◌, Bool, true, false, Option, none, some, List, [], ◌∷◌, ◌++◌, arith,
  All, All-append, Text,
}
use trutina.Platform.{Platform}
use trutina.Core.Account.{Account}
use trutina.Core.Account.Chart.{ChartOfAccounts}
use trutina.Core.Journal.{JournalEntry, JournalViewModel}
use trutina.Core.Journal.Service.{get_journal_entry}
use trutina.Core.Posting.{PostingViewModel}
use trutina.Core.Posting.Service.{require_unposted, record_postings}
use trutina.Core.TrialBalance.{TrialBalanceViewModel, is_balanced, get_trial_balance}
use trutina.Store.{
  World, Result, ok, raise, M, Done, Outcome, committed, violated, refused, Constraint, settle,
}
use trutina.Errors.{Error}
use trutina.Storage.AccountRepo.{postgres_account_repo}
use trutina.Storage.JournalRepo.{on_duplicate, save_entry, postgres_journal_repo}
use trutina.Storage.JournalRepo.Lines.{HasStoredLines, KeepsLines, save_entry-KeepsLines}
use trutina.Storage.PostingRepo.{postgres_posting_repo}
use trutina.Storage.TrialBalanceRepo.{postgres_trial_balance_repo}
use trutina.Ledger.Views.{IsSoundView, Views, get_journal_entry-Views}
use trutina.Ledger.Postings.{IsLedger, Records, record_postings-Records}
use trutina.Ledger.Posts.{Looks, require_unposted-Looks}
use trutina.Ledger.Report.{IsLedger-report}

-- A call of `post_journal_entry` under way: what it read, and whether it found no posting.
pub record Request : Type 0 where
  pub number : ℕ
  pub actor : Text
  pub view : JournalViewModel
  pub checked : Bool

pub record System : Type 0 where
  pub world : World
  pub requests : List Request

-- The state that a call leaves.
abbrev pub reached : {A : Type 0} → Result A × World → World
reached (r, w) = w

module _ ⦃u : Platform⦄ (chart : M ChartOfAccounts) where
  abbrev pub get_entry : ℕ → M JournalViewModel
  get_entry = get_journal_entry postgres_journal_repo chart

  pub data Step : System → System → Type 0 where
    -- a client reads the entry that it is to post
    read :
        (number : ℕ) (actor : Text) (view : JournalViewModel) (w w' : World) (rs : List Request)
        → get_entry number w ≡ (ok view, w')
        → Step
            (record { world = w; requests = rs })
            (record {
              world = w';
              requests =
                  record { number = number; actor = actor; view = view; checked = false } ∷ rs;
            })
    -- it finds that the entry has no posting yet
    check :
        (r : Request) (w w' : World) (xs ys : List Request)
        → require_unposted postgres_posting_repo get_entry r.number w ≡ (ok tt, w')
        → Step
            (record { world = w; requests = xs ++ r ∷ ys })
            (record { world = w'; requests = xs ++ record r { checked = true } ∷ ys })
    -- it records the postings, or fails to
    post :
        (r : Request) (w : World) (xs ys : List Request)
        → r.checked ≡ true
        → Step
            (record { world = w; requests = xs ++ r ∷ ys })
            (record {
              world =
                  reached
                    (record_postings postgres_posting_repo get_entry r.number r.view r.actor w);
              requests = xs ++ ys;
            })
    -- it gives up
    leave :
        (r : Request) (w : World) (xs ys : List Request)
        → Step
            (record { world = w; requests = xs ++ r ∷ ys })
            (record { world = w; requests = xs ++ ys })
    -- any other transaction of the repositories, and the clock
    draw_number :
        (w : World) (rs : List Request)
        → Step
            (record { world = w; requests = rs })
            (record {
              world = reached (postgres_journal_repo.next_journal_number w);
              requests = rs;
            })
    save_journal :
        (entry : JournalEntry) (actor : Text) (w : World) (rs : List Request)
        → Step
            (record { world = w; requests = rs })
            (record { world = reached (postgres_journal_repo.save entry actor w); requests = rs })
    store_account :
        (a : Account) (actor : Text) (w : World) (rs : List Request)
        → Step
            (record { world = w; requests = rs })
            (record { world = reached (postgres_account_repo.create a actor w); requests = rs })
    change_account :
        (a : Account) (actor : Text) (w : World) (rs : List Request)
        → Step
            (record { world = w; requests = rs })
            (record { world = reached (postgres_account_repo.update a actor w); requests = rs })
    remove_account :
        (code actor : Text) (w : World) (rs : List Request)
        → Step
            (record { world = w; requests = rs })
            (record {
              world = reached (postgres_account_repo.delete_by_code code actor w);
              requests = rs;
            })
    tick :
        (w : World) (later : ℕ) (rs : List Request)
        → w.now ≤ later
        → Step
            (record { world = w; requests = rs })
            (record { world = record w { now = later }; requests = rs })

  -- The states that runs lead to from tables without journal lines and postings.
  pub data Reach : System → Type 0 where
    start :
        (w : World)
        → w.journal_lines ≡ []
        → w.postings ≡ []
        → Reach (record { world = w; requests = [] })
    step : {s t : System} → Reach s → Step s t → Reach t
