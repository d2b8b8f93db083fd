-- ===== src/Storage.antt =====
-- packages/storage-postgres/src/trutina/storage_postgres: the repositories over the tables.
pub mod AccountRepo
pub mod JournalRepo
pub mod PostingRepo
pub mod TrialBalanceRepo
use trutina.Base.{Option, none, some, List, [], ◌∷◌}
use trutina.Errors.{unknown}
use trutina.Store.{Result, ok, raise, M, World}

-- `result.scalar_one_or_none()`: more than one row is an error.
unfoldable pub scalar_one_or_none : {A : Type 0} → List A → M (Option A)
scalar_one_or_none [] w = (ok none, w)
scalar_one_or_none (a ∷ []) w = (ok (some a), w)
scalar_one_or_none (a ∷ b ∷ rows) w = (raise unknown, w)
