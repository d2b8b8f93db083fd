-- ===== src/Api/Effects.antt =====
-- The write routes of the API over the PostgreSQL repositories: what the client
-- is told is what happened to the tables.
use trutina.Base.{ℕ, ◌+◌, ◌≤◌, ◌≡◌, refl, ap, ◌⊎◌, some, List, map}
use trutina.Platform.{Platform}
use trutina.Schema.{pass}
use trutina.Core.Account.{Account, account, normal_balance, AccountViewModel}
use trutina.Core.Account.Service.{to_view_model}
use trutina.Core.Journal.{JournalViewModel, CreateJournalInput}
use trutina.Core.Posting.{PostingViewModel, view_is_debit}
use trutina.Store.{World, Result, ok, raise, resume, pure}
use trutina.Storage.AccountRepo.Table.{IsChart}
use trutina.Storage.JournalRepo.Lines.{HasStoredLines}
use trutina.Ledger.Accounts.{Creates, with_account, create_account_lem}
use trutina.Ledger.Journals.{Journals, create_journal_entry-Journals}
use trutina.Ledger.Postings.{IsLedger}
use trutina.Ledger.Posts.{Posts, post_journal_entry-Posts}
use trutina.Api.Handlers.{Str, Request}
use trutina.Api.Handlers.Bodies.{handle-Reports}
use trutina.Api.Routes.{pre_auth_actor, Reply, success, failure, reply, serve, created}
use trutina.Api.Accounts.{
  CreateAccountRequest, AccountResponse, to_create_account_input, to_account_data,
  to_account_response, post_account,
}
use trutina.Api.Journals.{
  CreateJournalEntryRequest, JournalEntryResponse, JournalEntryData, to_journal_line_input,
  to_create_journal_input, to_journal_line_data, to_journal_entry_data, to_journal_entry_response,
  post_entry,
}
use trutina.Api.Postings.{
  PostingItem, PostingListResponse, to_posting_item, to_posting_list_response, post_posting,
}
use trutina.Api.Container.{has_postings, chart, account_service, journal_service, posting_service}

module _ ⦃z : Str⦄ ⦃u : Platform⦄ (request : Request) where
  -- What `POST /accounts` answered, and did.
  abbrev pub CreatesAccount : CreateAccountRequest → World → Reply AccountResponse × World → Type 0
  CreatesAccount body w (success status_code response, w') =
      (status_code ≡ 201)
      × ((a : Account) × (account body.code body.name body.category ≡ pass a)
          × (response.account.code ≡ a.code)
          × (response.account.name ≡ a.name)
          × (response.account.category ≡ a.category)
          × (response.account.normal_balance ≡ normal_balance a)
          × (w' ≡ with_account a pre_auth_actor w))
      × IsChart w'.accounts
  CreatesAccount body w (failure response log, w') = (400 ≤ response.status_code) × (w' ≡ w)

  account_created :
      (body : CreateAccountRequest) (w : World) (r : Result AccountViewModel × World)
      → Creates (some has_postings) (to_create_account_input body) pre_auth_actor w r
      → CreatesAccount body w
          (reply request (resume r (λ v. pure (created (to_account_response v)))))
  unfolding to_create_account_input to_account_response to_account_data to_view_model
  account_created body w (ok v, w') (a, built, named, view, after, kept) = (
    refl,
    (
      a,
      built,
      ap (λ x. x.code) view,
      ap (λ x. x.name) view,
      ap (λ x. x.category) view,
      ap (λ x. x.normal_balance) view,
      after,
    ),
    kept,
  )
  account_created body w (raise e, w') same = ((handle-Reports request e).is_failure, same)

  -- On a chart, POST /accounts over the PostgreSQL repositories answers either 201 with the code,
  -- the name, the category and the normal balance of the account that the fields of the request
  -- make, and exactly its row, its audit row and one log line were added, and the table is still a
  -- chart, or a status of at least 400, and nothing changed.
  pub post_account-CreatesAccount :
      (body : CreateAccountRequest) (w : World)
      → IsChart w.accounts
      → CreatesAccount body w (serve request (post_account account_service body) w)
  unfolding post_account
  post_account-CreatesAccount body w chart_of_w = account_created body w _ (
      create_account_lem (some has_postings) (to_create_account_input body) pre_auth_actor w
        chart_of_w)

  -- The body for a posting.
  abbrev item : PostingViewModel → PostingItem
  item v = record {
    account = v.account;
    debit_amount = v.debit_amount;
    credit_amount = v.credit_amount;
    journal_number = v.journal_number;
    posting_date = v.posting_date;
    is_debit = view_is_debit v;
  }

  -- What `POST /postings/{journal_number}` answered, and did.
  abbrev pub PostsEntry : ℕ → World → Reply PostingListResponse × World → Type 0
  PostsEntry number w (success status_code response, w') =
      (status_code ≡ 201)
      × ((views : List PostingViewModel) × (response.postings ≡ map item views)
          × Posts chart number pre_auth_actor w (ok views, w'))
  PostsEntry number w (failure response log, w') = (400 ≤ response.status_code) × (w' ≡ w)

  posted :
      (number : ℕ) (w : World) (r : Result (List PostingViewModel) × World)
      → Posts chart number pre_auth_actor w r
      → PostsEntry number w
          (reply request (resume r (λ v. pure (created (to_posting_list_response v)))))
  unfolding to_posting_list_response to_posting_item
  posted number w (ok views, w') h = (refl, (views, refl, h))
  posted number w (raise e, w') same = ((handle-Reports request e).is_failure, same)

  -- On stored lines and a ledger, POST /postings over the PostgreSQL repositories answers either
  -- 201 with each field of the views of the postings that post_journal_entry added, and did what it
  -- does, or a status of at least 400, and nothing changed.
  pub post_posting-PostsEntry :
      (number : ℕ) (w : World)
      → HasStoredLines w
      → IsLedger w.postings
      → PostsEntry number w (serve request (post_posting posting_service number) w)
  unfolding post_posting
  post_posting-PostsEntry number w stored ledger =
      posted number w _ (post_journal_entry-Posts chart number pre_auth_actor w stored ledger)

  -- The input for a request, and the body for a view.
  abbrev input : CreateJournalEntryRequest → CreateJournalInput
  input body = record {
    posting_date = body.posting_date;
    lines =
        map
          (λ l. record {
            account = l.account;
            debit_amount = l.debit_amount;
            credit_amount = l.credit_amount;
          })
          body.lines;
    description = body.description;
  }

  abbrev entry_data : JournalViewModel → JournalEntryData
  entry_data v = record {
    journal_number = v.journal_number;
    posting_date = v.posting_date;
    description = v.description;
    lines =
        map
          (λ l. record {
            account = l.account;
            debit_amount = l.debit_amount;
            credit_amount = l.credit_amount;
          })
          v.lines;
    total_debits = v.total_debits;
    total_credits = v.total_credits;
    is_balanced = v.is_balanced;
  }

  -- What `POST /journal-entries` answered, and did: a refused entry may have drawn a number.
  abbrev pub CreatesEntry :
      CreateJournalEntryRequest → World → Reply JournalEntryResponse × World → Type 0
  CreatesEntry body w (success status_code response, w') =
      (status_code ≡ 201)
      × ((view : JournalViewModel) × (response.entry ≡ entry_data view)
          × Journals (some has_postings) (input body) pre_auth_actor w (ok view, w'))
  CreatesEntry body w (failure response log, w') =
      (400 ≤ response.status_code) × ((w' ≡ w) ⊎ (w' ≡ record w { sequence = w.sequence + 1 }))

  entered :
      (body : CreateJournalEntryRequest) (w : World) (r : Result JournalViewModel × World)
      → Journals (some has_postings) (input body) pre_auth_actor w r
      → CreatesEntry body w
          (reply request (resume r (λ v. pure (created (to_journal_entry_response v)))))
  unfolding to_journal_entry_response to_journal_entry_data to_journal_line_data
  entered body w (ok view, w') h = (refl, (view, refl, h))
  entered body w (raise e, w') same = ((handle-Reports request e).is_failure, same)

  -- POST /journal-entries over the PostgreSQL repositories answers either 201 with each field of
  -- the view of the entry that create_journal_entry stored for the date, the lines and the
  -- description of the request and the fixed actor, or a status of at least 400, and nothing
  -- changed but that a number may have been drawn.
  pub post_entry-CreatesEntry :
      (body : CreateJournalEntryRequest) (w : World)
      → CreatesEntry body w (serve request (post_entry journal_service body) w)
  unfolding post_entry to_create_journal_input to_journal_line_input
  post_entry-CreatesEntry body w =
      entered body w _
        (create_journal_entry-Journals (some has_postings) (input body) pre_auth_actor w)
