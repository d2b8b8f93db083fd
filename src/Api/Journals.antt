-- ===== src/Api/Journals.antt =====
-- apps/api/src/trutina/api/features/journal: schemas, mapper, handler, presenter and router. A route
-- is given a request whose schema has passed.
use trutina.Base.{ℕ, Bool, Option, List, map, Text, ℤ}
use trutina.Core.Journal.{
  JournalLineInput, CreateJournalInput, JournalLineViewModel, JournalViewModel,
}
use trutina.Store.{M, pure, ◌>>=◌}
use trutina.Api.Routes.{pre_auth_actor, Answer, created, answered}

pub record JournalLineRequest : Type 0 where
  pub account : Text
  pub debit_amount : ℤ
  pub credit_amount : ℤ

pub record CreateJournalEntryRequest : Type 0 where
  pub posting_date : ℕ
  pub lines : List JournalLineRequest
  pub description : Option Text

pub record JournalLineData : Type 0 where
  pub account : Text
  pub debit_amount : ℤ
  pub credit_amount : ℤ

pub record JournalEntryData : Type 0 where
  pub journal_number : ℕ
  pub posting_date : ℕ
  pub description : Option Text
  pub lines : List JournalLineData
  pub total_debits : ℤ
  pub total_credits : ℤ
  pub is_balanced : Bool

pub record JournalEntryResponse : Type 0 where
  pub entry : JournalEntryData

pub record JournalEntriesResponse : Type 0 where
  pub entries : List JournalEntryData

-- `_to_journal_line_input`
unfoldable pub to_journal_line_input : JournalLineRequest → JournalLineInput
to_journal_line_input line = record {
  account = line.account;
  debit_amount = line.debit_amount;
  credit_amount = line.credit_amount;
}

unfoldable pub to_create_journal_input : CreateJournalEntryRequest → CreateJournalInput
unfolding to_journal_line_input
to_create_journal_input request = record {
  posting_date = request.posting_date;
  lines = map to_journal_line_input request.lines;
  description = request.description;
}

-- `_to_journal_line_data`
unfoldable pub to_journal_line_data : JournalLineViewModel → JournalLineData
to_journal_line_data line = record {
  account = line.account;
  debit_amount = line.debit_amount;
  credit_amount = line.credit_amount;
}

-- `_to_journal_entry_data`
unfoldable pub to_journal_entry_data : JournalViewModel → JournalEntryData
unfolding to_journal_line_data
to_journal_entry_data view_model = record {
  journal_number = view_model.journal_number;
  posting_date = view_model.posting_date;
  description = view_model.description;
  lines = map to_journal_line_data view_model.lines;
  total_debits = view_model.total_debits;
  total_credits = view_model.total_credits;
  is_balanced = view_model.is_balanced;
}

unfoldable pub to_journal_entry_response : JournalViewModel → JournalEntryResponse
unfolding to_journal_entry_data
to_journal_entry_response view_model = record { entry = to_journal_entry_data view_model }

unfoldable pub to_journal_entries_response : List JournalViewModel → JournalEntriesResponse
unfolding to_journal_entry_data
to_journal_entries_response view_models = record { entries = map to_journal_entry_data view_models }

-- The operations of the service that the handlers call.
pub record JournalService : Type 0 where
  pub create_journal_entry : CreateJournalInput → Text → M JournalViewModel
  pub get_journal_entry : ℕ → M JournalViewModel
  pub list_journal_entries : M (List JournalViewModel)

module _ (service : JournalService) where
  -- `POST /journal-entries`
  unfoldable pub post_entry : CreateJournalEntryRequest → M (Answer JournalEntryResponse)
  unfolding to_create_journal_input to_journal_entry_response
  post_entry request = do
    view_model ← service.create_journal_entry (to_create_journal_input request) pre_auth_actor
    pure (created (to_journal_entry_response view_model))

  -- `GET /journal-entries`
  unfoldable pub get_entries : M (Answer JournalEntriesResponse)
  unfolding to_journal_entries_response
  get_entries = do
    view_models ← service.list_journal_entries
    pure (answered (to_journal_entries_response view_models))

  -- `GET /journal-entries/{journal_number}`
  unfoldable pub get_entry : ℕ → M (Answer JournalEntryResponse)
  unfolding to_journal_entry_response
  get_entry journal_number = do
    view_model ← service.get_journal_entry journal_number
    pure (answered (to_journal_entry_response view_model))
