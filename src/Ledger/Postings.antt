-- ===== src/Ledger/Postings.antt =====
-- PostingService over PostgresPostingRepo: what recording an entry does to the ledger.
use trutina.Base.{
  ℕ, suc, ◌≤◌, ◌≡◌, refl, ap, ap₂, subst, sym, ◌∙◌, inl, inr, true, false, List, [], ◌∷◌, ◌++◌, ◌+◌,
  map, length, arith, ==_iff, ℤ, pos, ◌≤ℤ◌, ◌+ℤ◌, sum, All, All-append, any, Text,
}
use trutina.Platform.{Platform}
use trutina.Schema.{Check, pass, fail, pass_all, pass_all-cons}
use trutina.Core.Journal.{JournalLineViewModel, JournalViewModel, check_line_account}
use trutina.Core.Journal.Valid.{check_amount-pass}
use trutina.Core.Posting.{LedgerPosting, PostingViewModel, ledger_posting}
use trutina.Core.Posting.Valid.{ledger_posting-inv, ledger_posting-pass}
use trutina.Core.Posting.Service.{to_view_model, derive_postings, record_postings}
use trutina.Store.{
  PostingRow, World, Result, ok, raise, M, pure, uncaught, write_log, ◌>>=◌, ◌>>◌, posting_created,
}
use trutina.Storage.PostingRepo.{of_journal, postgres_posting_repo}
use trutina.Storage.PostingRepo.Batch.{
  IsBatch, Batches, Batches-fresh, first_slot, posting_row, posting_rows, IsStoredPosting,
  insert_postings-cases, insert_postings-first,
}
use trutina.Ledger.Views.{IsSoundView, IsPostable}

module _ ⦃u : Platform⦄ where
  -- A row that the trial balance can read: its account passes as it is, and no amount is negative.
  abbrev pub IsReportable : PostingRow → Type 0
  IsReportable r =
      (check_line_account r.account ≡ pass r.account)
      × (pos 0 ≤ℤ r.debit_amount)
      × (pos 0 ≤ℤ r.credit_amount)

  -- The ledger as a whole: batches of reportable rows.
  pub record IsLedger (rows : List PostingRow) : Type 0 where
    pub batches : Batches rows
    pub reportable : All IsReportable rows

  -- What the derived postings share with the lines of the view.
  pub record Derives (number date : ℕ) (ls : List JournalLineViewModel) (ps : List LedgerPosting)
      : Type 0 where
    uniform : All (λ p. (p.journal_number ≡ number) × (p.posting_date ≡ date)) ps
    pub stored : All IsStoredPosting ps
    debit : sum (λ p. p.debit_amount) ps ≡ sum (λ l. l.debit_amount) ls
    credit : sum (λ p. p.credit_amount) ps ≡ sum (λ l. l.credit_amount) ls
    long : length ps ≡ length ls
    checked :
        All
          (λ p.
            (check_line_account p.account ≡ pass p.account)
            × (pos 0 ≤ℤ p.debit_amount)
            × (pos 0 ≤ℤ p.credit_amount))
          ps

  pub derive-Derives :
      (now number date : ℕ) (ls : List JournalLineViewModel) (ps : List LedgerPosting)
      → All IsPostable ls
      → pass_all (λ l. ledger_posting now l.account l.debit_amount l.credit_amount number date) ls
        ≡ pass ps
      → Derives number date ls ps
  unfolding sum
  derive-Derives now number date [] ps h e =
      let shape : [] ≡ ps = cc in
      rw (← shape) (record {
        uniform = tt;
        stored = tt;
        debit = refl;
        credit = refl;
        long = refl;
        checked = tt;
      })
  derive-Derives now number date (l ∷ ls) ps h e =
      let (p, rest, built, others, shape) = pass_all-cons _ l ls e in
      let (cleaned, d, c, n, t) =
        ledger_posting-pass now l.account l.debit_amount l.credit_amount number date p built in
      let (a, da, ca, _, _, _) =
        ledger_posting-inv now l.account l.debit_amount l.credit_amount number date p built in
      let (_, low_d) = check_amount-pass "debit_amount" l.debit_amount da in
      let (_, low_c) = check_amount-pass "credit_amount" l.credit_amount ca in
      let kept : l.account ≡ p.account = cc in
      let tail = derive-Derives now number date ls rest h.1 others in
      rw shape (record {
        uniform = ((n, t), tail.uniform);
        stored = ((rw d h.0.0.0, rw c h.0.0.1), tail.stored);
        debit = ap₂ ◌+ℤ◌ d tail.debit;
        credit = ap₂ ◌+ℤ◌ c tail.credit;
        long = ap suc tail.long;
        checked = (
          (subst (λ n. check_line_account n ≡ pass p.account) kept a, rw d low_d, rw c low_c),
          tail.checked,
        );
      })

  module _ (f : LedgerPosting → ℤ) (g : PostingRow → ℤ)
      (same : (index : ℕ) (created_by : Text) (p : LedgerPosting)
        → g (posting_row index created_by p) ≡ f p) where
    sum-posting_rows :
        (index : ℕ) (created_by : Text) (ps : List LedgerPosting)
        → sum g (posting_rows index created_by ps) ≡ sum f ps
    unfolding sum
    sum-posting_rows index created_by [] = refl
    sum-posting_rows index created_by (p ∷ ps) =
        rw (same index created_by p, sum-posting_rows (index + 1) created_by ps) refl

  module _ (P : LedgerPosting → Type 0) (Q : PostingRow → Type 0)
      (carry : (index : ℕ) (created_by : Text) (p : LedgerPosting)
        → P p
        → Q (posting_row index created_by p)) where
    All-posting_rows :
        (index : ℕ) (created_by : Text) (ps : List LedgerPosting)
        → All P ps
        → All Q (posting_rows index created_by ps)
    All-posting_rows index created_by [] h = tt
    All-posting_rows index created_by (p ∷ ps) h =
        (carry index created_by p h.0, All-posting_rows (index + 1) created_by ps h.1)

  posting_rows-first :
      (number date : ℕ) (created_by : Text) (ps : List LedgerPosting)
      → All (λ p. (p.journal_number ≡ number) × (p.posting_date ≡ date)) ps
      → 2 ≤ length ps
      → any (first_slot number) (posting_rows 0 created_by ps) ≡ true
  posting_rows-first number date created_by [] h n = absurd (omega arith)
  posting_rows-first number date created_by (p ∷ ps) h n =
      let (same, _) = h.0 in rw ((==_iff p.journal_number number).1 same) refl

  Derives-IsBatch :
      (number date : ℕ) (view : JournalViewModel) (created_by : Text) (ps : List LedgerPosting)
      {n : ℕ}
      → IsSoundView n view
      → Derives number date view.lines ps
      → IsBatch number (posting_rows 0 created_by ps)
  Derives-IsBatch number date view created_by ps s d = record {
    date = date;
    uniform = All-posting_rows _ _ (λ i c p h. h) 0 created_by ps d.uniform;
    balanced =
        sum-posting_rows (λ p. p.debit_amount) (λ r. r.debit_amount) (λ i c p. refl) 0 created_by ps
        ∙ d.debit
        ∙ s.balanced
        ∙ sym d.credit
        ∙ sym (
            sum-posting_rows (λ p. p.credit_amount) (λ r. r.credit_amount) (λ i c p. refl) 0
              created_by ps);
    first =
        posting_rows-first number date created_by ps d.uniform (omega (arith, s.enough, d.long));
  }

  -- The ledger after the rows of a batch were added under a number that had none.
  extend-IsLedger :
      (view : JournalViewModel) (created_by : Text) (ps : List LedgerPosting)
      (rows : List PostingRow) {n : ℕ}
      → IsSoundView n view
      → Derives view.journal_number view.posting_date view.lines ps
      → IsLedger rows
      → any (of_journal view.journal_number) rows ≡ false
      → IsLedger (rows ++ posting_rows 0 created_by ps)
  extend-IsLedger view created_by ps rows s d ledger fresh = record {
    batches =
        Batches.batch view.journal_number rows (posting_rows 0 created_by ps) ledger.batches
          (Derives-IsBatch view.journal_number view.posting_date view created_by ps s d) fresh refl;
    reportable =
        All-append IsReportable rows (posting_rows 0 created_by ps) ledger.reportable
          (All-posting_rows _ IsReportable (λ i c p h. h) 0 created_by ps d.checked);
  }

  -- The state after the postings of an entry were recorded.
  abbrev pub with_postings : ℕ → List LedgerPosting → Text → World → World
  with_postings journal_number ps actor w = record w {
    postings = w.postings ++ posting_rows 0 actor ps;
    log = w.log ++ posting_created journal_number (length ps) ∷ [];
  }

  -- What `record_postings` did, by how it ended.
  abbrev pub Records :
      ℕ → JournalViewModel → Text → World → Result (List PostingViewModel) × World → Type 0
  Records number view actor w (ok views, w') =
      (ps : List LedgerPosting) × (derive_postings w.now view ≡ pass ps)
      × (views ≡ map to_view_model ps)
      × (w' ≡ with_postings number ps actor w)
      × (any (of_journal number) w.postings ≡ false)
      × IsLedger w'.postings
  Records number view actor w (raise e, w') = w' ≡ w

  save_postings :
      (number : ℕ) (view : JournalViewModel) (actor : Text) (w : World) (ps : List LedgerPosting)
      → IsSoundView number view
      → IsLedger w.postings
      → derive_postings w.now view ≡ pass ps
      → Records number view actor w (
          (postgres_posting_repo.save_many ps actor
              >> (write_log (posting_created number (length ps)) >> pure (map to_view_model ps)))
            w)
  unfolding derive_postings
  save_postings number view actor w [] s ledger built =
      let d =
        derive-Derives w.now view.journal_number view.posting_date view.lines [] s.postable built in
      absurd (omega (arith, s.enough, d.long))
  save_postings number view actor w (p ∷ ps) s ledger built =
      let d =
        derive-Derives w.now view.journal_number view.posting_date view.lines (p ∷ ps) s.postable
          built in
      elim (insert_postings-cases 0 actor (p ∷ ps) w d.stored) [
        | inl (c, stopped) ↦ rw stopped refl
        | inr stored ↦
            let slot = insert_postings-first actor p ps w _ d.stored stored in
            let (same, _) = d.uniform.0 in
            let fresh = Batches-fresh p.journal_number ledger.batches slot in
            rw stored (
              p ∷ ps,
              built,
              refl,
              refl,
              rw (same, s.numbered) at fresh,
              extend-IsLedger view actor (p ∷ ps) w.postings s d ledger (rw same at fresh),
            )
      ]

  module _ (get_entry : ℕ → M JournalViewModel) where
    -- Given a sound view and a ledger, recording either returns, with exactly the derived postings
    -- under a number that had none and one log line added, and the ledger kept, or raises and
    -- leaves the state unchanged.
    pub record_postings-Records :
        (number : ℕ) (view : JournalViewModel) (actor : Text) (w : World)
        → IsSoundView number view
        → IsLedger w.postings
        → Records number view actor w
            (record_postings postgres_posting_repo get_entry number view actor w)
    unfolding record_postings
    record_postings-Records number view actor w s ledger = go (derive_postings w.now view) refl
      where
        go :
            (c : Check (List LedgerPosting))
            → derive_postings w.now view ≡ c
            → Records number view actor w (
                (uncaught c >>= λ ps.
                postgres_posting_repo.save_many ps actor
                >> (write_log (posting_created number (length ps)) >> pure (map to_view_model ps)))
                  w)
        go (pass ps) built = save_postings number view actor w ps s ledger built
        go (fail e) built = refl
