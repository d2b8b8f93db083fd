-- ===== src/Ledger/Posts.antt =====
-- PostingService.post_journal_entry over the PostgreSQL repositories, from the call to its end.
use trutina.Base.{
  ℕ, ◌≡◌, refl, ◌∙◌, inl, inr, Bool, true, false, Bool-cases, List, Text, text, select, sort_by,
}
use trutina.Platform.{Platform}
use trutina.Errors.{Error, conflict, journal_already_posted, integer}
use trutina.Rule.{is_non_blank_actor}
use trutina.Schema.{Check, pass, fail, pass_all}
use trutina.Core.Account.Chart.{ChartOfAccounts}
use trutina.Core.Account.Service.{require_actor}
use trutina.Core.Journal.{JournalViewModel}
use trutina.Core.Journal.Service.{get_journal_entry}
use trutina.Core.Posting.{LedgerPosting, PostingViewModel}
use trutina.Core.Posting.Service.{
  is_nonempty, require_unposted, record_postings, post_journal_entry,
}
use trutina.Store.{World, Result, ok, raise, M, Done, uncaught, throw_if, ◌>>=◌, ◌>>◌}
use trutina.Storage.JournalRepo.{postgres_journal_repo}
use trutina.Storage.JournalRepo.Lines.{HasStoredLines}
use trutina.Storage.PostingRepo.{of_journal, by_line, to_domain, postgres_posting_repo}
use trutina.Ledger.Views.{IsSoundView, Views, get_journal_entry-Views}
use trutina.Ledger.Postings.{IsLedger, Records, record_postings-Records}

module _ ⦃u : Platform⦄ where
  -- A call that only looks: it goes on or raises, and the state is the same.
  abbrev pub Looks : World → Result Done × World → Type 0
  Looks w (ok d, w') = w' ≡ w
  Looks w (raise e, w') = w' ≡ w

  throw_if-Looks : (b : Bool) (e : Error) (w : World) → Looks w (throw_if b e w)
  throw_if-Looks true e w = refl
  throw_if-Looks false e w = refl

  module _ (get_entry : ℕ → M JournalViewModel) where
    pub require_unposted-Looks :
        (number : ℕ) (w : World)
        → Looks w (require_unposted postgres_posting_repo get_entry number w)
    unfolding require_unposted conflict
    require_unposted-Looks number w =
        go (pass_all (to_domain w.now) (sort_by by_line (select (of_journal number) w.postings)))
      where
        go :
            (c : Check (List LedgerPosting))
            → Looks w (
                (uncaught c >>= λ found. throw_if (is_nonempty found) (
                    conflict journal_already_posted
                      (text "journal_entry")
                      (text "journal_number")
                      (integer number)))
                  w)
        go (pass found) =
            throw_if-Looks (is_nonempty found)
              (conflict journal_already_posted (text "journal_entry") (text "journal_number")
                (integer number))
              w
        go (fail e) = refl

  module _ (chart : M ChartOfAccounts) where
    abbrev get_entry : ℕ → M JournalViewModel
    get_entry = get_journal_entry postgres_journal_repo chart

    -- What `post_journal_entry` did, by how it ended.
    abbrev pub Posts : ℕ → Text → World → Result (List PostingViewModel) × World → Type 0
    Posts number actor w (ok views, w') =
        (view : JournalViewModel) × IsSoundView number view
        × (is_non_blank_actor actor ≡ true)
        × (get_journal_entry postgres_journal_repo chart number w ≡ (ok view, w))
        × Records number view actor w (ok views, w')
    Posts number actor w (raise e, w') = w' ≡ w

    Records-Posts :
        (number : ℕ) (view : JournalViewModel) (actor : Text) (w : World)
        (r : Result (List PostingViewModel) × World)
        → IsSoundView number view
        → is_non_blank_actor actor ≡ true
        → get_journal_entry postgres_journal_repo chart number w ≡ (ok view, w)
        → Records number view actor w r
        → Posts number actor w r
    Records-Posts number view actor w (ok views, w') s named read h = (view, s, named, read, h)
    Records-Posts number view actor w (raise e, w') s named read h = h

    after_look :
        (number : ℕ) (view : JournalViewModel) (actor : Text) (w : World) (r : Result Done × World)
        → IsSoundView number view
        → IsLedger w.postings
        → is_non_blank_actor actor ≡ true
        → get_journal_entry postgres_journal_repo chart number w ≡ (ok view, w)
        → Looks w r
        → Posts number actor w
            (((λ v. r) >> record_postings postgres_posting_repo get_entry number view actor) w)
    after_look number view actor w (ok d, w') s ledger named read e = rw e (
        Records-Posts number view actor w _ s named read
          (record_postings-Records get_entry number view actor w s ledger))
    after_look number view actor w (raise x, w') s ledger named read e = e

    -- On stored lines and a ledger, post_journal_entry is atomic. If it returns, the actor is not
    -- blank, the entry was read as a sound view, its number had no postings before, exactly the
    -- derived postings and one log line were added, the views are those of the postings, and the
    -- ledger is kept; if it raises, the state is unchanged.
    pub post_journal_entry-Posts :
        (number : ℕ) (actor : Text) (w : World)
        → HasStoredLines w
        → IsLedger w.postings
        → Posts number actor w (post_journal_entry postgres_posting_repo get_entry number actor w)
    unfolding post_journal_entry require_actor
    post_journal_entry-Posts number actor w stored ledger =
        elim (Bool-cases (is_non_blank_actor actor)) [
          | inr blank ↦ rw blank refl
          | inl named ↦
              rw named
                (go (get_entry number w) refl (get_journal_entry-Views chart number w stored) named)
        ]
      where
        go :
            (r : Result JournalViewModel × World)
            → get_entry number w ≡ r
            → Views number w r
            → is_non_blank_actor actor ≡ true
            → Posts number actor w (
                ((λ v. r) >>= λ view.
                require_unposted postgres_posting_repo get_entry number
                >> record_postings postgres_posting_repo get_entry number view actor)
                  w)
        go (ok view, w') read (e, s) named = rw e (
            after_look number view actor w _ s ledger named (read ∙ rw e refl)
              (require_unposted-Looks get_entry number w))
        go (raise x, w') read e named = e
