-- ===== src/Auth/Attempts.antt =====
-- authentication/credentials/login/attempts.py, and its repository,
-- storage_postgres/login_attempt/repository.py.
pub mod Count
use trutina.Base.{ℕ, Bool, not, ◌&&◌, [], ◌∷◌, ◌++◌, leb, ltb, length, List, Text, same, select}
use trutina.Platform.{Platform}
use trutina.Store.{Done, ok}
use trutina.Auth.Email.{normalize_email}
use trutina.Auth.State.{LoginAttemptRow, AuthState, Auth, gets}

-- The contract `LoginAttemptRepo`.
pub record LoginAttemptRepo : Type 0 where
  pub record_failure : Text → Text → ℕ → Auth Done
  pub count_failures : Text → Text → ℕ → Auth ℕ
  pub clear : Text → Text → Auth Done
  pub purge_before : ℕ → Auth ℕ

-- `ip == … and email_key == …`
abbrev pub of_pair : Text → Text → LoginAttemptRow → Bool
of_pair ip key row = same row.ip ip && same row.email_key key

abbrev pub counted : Text → Text → ℕ → LoginAttemptRow → Bool
counted ip key since row = of_pair ip key row && leb since row.attempted_at

-- SELECT count(*) of the failures of a pair since an instant.
unfoldable pub count_rows : Text → Text → ℕ → List LoginAttemptRow → ℕ
count_rows ip key since rows = length (select (counted ip key since) rows)

-- DELETE of the failures of a pair.
unfoldable pub clear_rows : Text → Text → List LoginAttemptRow → List LoginAttemptRow
clear_rows ip key rows = select (λ row. not (of_pair ip key row)) rows

-- DELETE of the failures before an instant, and the rows that it concerns.
unfoldable pub purge_rows : ℕ → List LoginAttemptRow → List LoginAttemptRow
purge_rows cutoff rows = select (λ row. not (ltb row.attempted_at cutoff)) rows

unfoldable pub rows_before : ℕ → List LoginAttemptRow → List LoginAttemptRow
rows_before cutoff rows = select (λ row. ltb row.attempted_at cutoff) rows

module _ ⦃u : Platform⦄ where
  -- `PostgresLoginAttemptRepo`
  abbrev pub postgres_login_attempt_repo : LoginAttemptRepo
  postgres_login_attempt_repo = record {
    record_failure = λ ip email at s. (
      ok tt,
      record s {
        login_attempts =
            s.login_attempts
            ++ record { ip = ip; email_key = normalize_email email; attempted_at = at } ∷ [];
      },
    );
    count_failures =
        λ ip email since. gets (λ s. count_rows ip (normalize_email email) since s.login_attempts);
    clear = λ ip email s. (
      ok tt,
      record s { login_attempts = clear_rows ip (normalize_email email) s.login_attempts },
    );
    purge_before = λ cutoff s. (
      ok (length (rows_before cutoff s.login_attempts)),
      record s { login_attempts = purge_rows cutoff s.login_attempts },
    );
  }
