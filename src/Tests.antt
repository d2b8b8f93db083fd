-- ===== src/Tests.antt =====
-- A platform of ASCII text, small tables, runs of the services on them, and the theorems at these
-- values.
pub mod Numeric
pub mod Names
pub mod Accounts
pub mod Books
pub mod Journals
pub mod Run
pub mod Login
pub mod Api
pub mod Cli
pub mod Routes
use trutina.Base.{
  ℕ, ◌+◌, ◌≡◌, ◌⊎◌, Bool, true, false, All, refl, arith, inl, inr, leb, length, ◌∷◌, [], List, ℤ,
  pos, Text, text, none,
}
use mathlib.Core.List.{cons≢nil}
use trutina.Tests.Numeric.{to_numeric, to_numeric-to_numeric}
use trutina.Platform.{Platform, IsVisible, ascii_space, ascii_lower}
use trutina.Core.Account.{AccountCategory, Account}
use trutina.Core.Journal.{start_of_2020}
use trutina.Store.{AccountRow, EntryRow, LineRow, PostingRow, World}

pub length_total : (a b : ℕ) → (leb a b ≡ true) ⊎ (leb b a ≡ true)
length_total a b = ground arith

pub length_trans : (a b c : ℕ) → leb a b ≡ true → leb b c ≡ true → leb a c ≡ true
length_trans a b c h k = ground arith

pub lower_space : (c : ℕ) → ascii_space c ≡ true → ascii_lower c ∷ [] ≡ c ∷ []
lower_space c h = ground arith

pub lower-IsVisible : (c : ℕ) → ascii_space c ≡ false → IsVisible ascii_space (ascii_lower c ∷ [])
lower-IsVisible c h = (λ e. cons≢nil e, (ground arith, tt))

pub lower_lower : (c : ℕ) → All (λ d. ascii_lower d ∷ [] ≡ d ∷ []) (ascii_lower c ∷ [])
lower_lower c = (ground arith, tt)

-- Text is ordered by length, and an amount counts ten-thousandths.
instance abbrev pub ascii : Platform
ascii = record {
  is_space = ascii_space;
  fold = λ c. ascii_lower c ∷ [];
  collate = λ a b. leb (length a) (length b);
  to_numeric = to_numeric;
  is_space_ascii = λ c h. refl;
  fold_ascii = λ c h. refl;
  collate_total = λ a b. length_total (length a) (length b);
  collate_trans = λ a b c. length_trans (length a) (length b) (length c);
  to_numeric_again = to_numeric-to_numeric;
  fold_space = lower_space;
  fold_visible = lower-IsVisible;
  fold_fold = lower_lower;
}

abbrev pub ann : Text
ann = text "ann"

abbrev pub cash : Text
cash = text "Cash"

abbrev pub sales : Text
sales = text "Sales"

abbrev pub cash_row : AccountRow
cash_row = record {
  code = text "1000";
  name = cash;
  name_key = text "cash";
  category = AccountCategory.asset;
}

abbrev pub monday : ℕ
monday = start_of_2020 + 86400000000

abbrev pub nothing_yet : World
nothing_yet = record {
  now = monday;
  accounts = [];
  audit_events = [];
  journal_entries = [];
  journal_lines = [];
  sequence = 0;
  postings = [];
  log = [];
}

abbrev pub line_row : ℕ → Text → ℤ → ℤ → LineRow
line_row index account debit credit = record {
  journal_number = 1;
  line_index = index;
  account = account;
  debit_amount = debit;
  credit_amount = credit;
}

-- One entry, not posted yet.
abbrev pub with_entry : World
with_entry = record nothing_yet {
  accounts = cash_row ∷ [];
  journal_entries =
      record { journal_number = 1; posting_date = monday; description = none; created_by = ann }
      ∷ [];
  journal_lines = line_row 0 cash (pos 50000) (pos 0) ∷ line_row 1 sales (pos 0) (pos 50000) ∷ [];
  sequence = 1;
}

abbrev pub posting_of : ℕ → Text → Text → ℤ → ℤ → PostingRow
posting_of index account key debit credit = record {
  account = account;
  account_key = key;
  debit_amount = debit;
  credit_amount = credit;
  journal_number = 1;
  posting_date = monday;
  line_index = index;
  created_by = ann;
}

abbrev pub posted_rows : List PostingRow
posted_rows =
    posting_of 0 cash (text "cash") (pos 50000) (pos 0)
    ∷ posting_of 1 sales (text "sales") (pos 0) (pos 50000)
    ∷ []

abbrev pub with_posted : World
with_posted = record with_entry { postings = posted_rows }
