-- ===== src/Lib.antt =====
-- Verification of the double-entry accounting core of trutina, of its authentication, of their
-- PostgreSQL storage, and of the HTTP API around the core.
--
-- The program: services over repositories. AccountService keeps the chart of accounts,
-- JournalService records balanced journal entries whose lines refer to the chart, PostingService
-- turns an entry into ledger postings, once, and TrialBalanceService sums the postings up by
-- account. The schemas validate every value that enters a service, and again every row that is
-- read. Each repository write is one transaction, guarded by the constraints of its table. Apart from
-- them, RegistrationService adds users, PasswordAuthenticator checks passwords, and
-- ThrottledAuthenticator wraps it and counts failed logins in a table that it purges. The routes of
-- the API map a request to a call of a service, and its result or its exception to a response.
--
-- The files, with the source that each models (paths from the repository's root):
--   Base             shared lists, integers, text, sums, sorting
--   Schema           how Pydantic, by its documentation, checks the fields of a model: all fields are
--                    checked and their failures collected, then the model validator runs
--   Platform         what the program takes from its platform, as parameters
--   Rule             packages/shared/src/trutina/shared/rule.py: clean_account_name and the others;
--                    Rule.Name, Rule.Clean and Rule.Key have their theorems
--   Errors           packages/shared/src/trutina/shared/errors
--   Core.Account     packages/core/src/trutina/core/account: schemas and DTOs; Chart is
--                    schemas/chart.py, Repo is repo.py, Service is service.py, Valid and Lookup have the theorems
--   Core.Journal     packages/core/src/trutina/core/journal, in the same way
--   Core.Posting     packages/core/src/trutina/core/posting, in the same way
--   Core.TrialBalance  packages/core/src/trutina/core/trial_balance
--   Store            the models of packages/storage-postgres as rows, the state, and transactions
--   Storage.AccountRepo, JournalRepo, PostingRepo, TrialBalanceRepo
--                    packages/storage-postgres/src/trutina/storage_postgres/*/repository.py
--   Ledger           the services over these repositories: Accounts, Opens, Changes, Journals,
--                    Views, Postings, Posts, Settles and Report follow one call, Reading has what they
--                    share; Interleaving lets calls of several clients interleave
--   Auth             packages/authentication/src/trutina/authentication and the repositories of
--                    users and login attempts: Email, Password, Users, Attempts, Registration, Login
--                    and Throttle are the parts; State has the tables and the collaborators that are
--                    parameters (Runtime), Frame the calls that leave the login attempts alone
--   Auth.Throttle    the throttle; History is its specification without a table, Agree, Refines and
--                    Runs compare the two
--   Api              apps/api/src/trutina/api: Catalog and Handlers are shared/errors, Accounts,
--                    Journals and Postings the features, Container is composition/bootstrap.py,
--                    Effects and Reports follow a request to the tables
--   Cli              apps/cli/src/trutina/cli: Parsers is the parser.py of every feature,
--                    Messages and Hints are shared/errors, Boundary is shared/formatters/error.py and
--                    shared/boundary
--   Tests            small tables, runs, and the theorems at these values
--
-- State and operations: a service method is a function from the state (World: the tables, the
-- sequence of journal numbers, the clock, the log) to a result and a new state, with the same name
-- and order of calls as in the source. A service takes its repository as a record of operations, and
-- the other service that it calls as a function. A transaction is one function into Outcome: it
-- commits, a constraint stops it, or the database refuses a value; what does not commit changes
-- nothing. In Ledger.Interleaving every transaction is one step; a posting request keeps the view
-- that it read while others go on. The hypothesis HasStoredLines says of the table of journal lines
-- what its column type says: that each amount is one that rounding to Numeric(18, 2) leaves alone.
-- The hypothesis IsChart says of the table of accounts that its unique constraints hold and that
-- its rows were written by the service; IsLedger says of the table of postings that it is a sequence
-- of batches, each written for one entry, whose rows can be read.
--
-- Authentication has a state of its own (AuthState): its two tables, the events, the calls of the
-- hasher, and the number of draws from the clock and the random source. An answer of the clock, a
-- new id and a hash depend on that number; the laws of Runtime and the hypothesis Monotone, that the
-- clock does not go back, are all that is assumed of them. Logins follow one another; calls in flight
-- at the same time, which the source lets overshoot the limit, are not interleaved. IsUsers says of
-- the table of users that its unique constraints hold and that its addresses are normalized.
--
-- Numbers: an amount is an integer that counts a smallest unit of the run; the 28 digits of Decimal's
-- context are not modelled, so sums are exact. What a column Numeric(18, 2) keeps of an amount is a
-- parameter (Platform.to_numeric), of which it is assumed that a kept amount is kept as it is. A
-- moment counts microseconds from the first day of year 1, without a time zone, but for the date of
-- a query of the trial balance. A journal number is a natural number; the limits of bigint are not
-- modelled. Rows of a table stand in the order of their insertion, and a query without an order, or
-- with ties, returns them so. All recursion is on
-- lists, but for the digits of a number, which are made with the number itself as fuel; digits-fuel
-- in Base.Decimal shows that more changes nothing.
--
-- Text: a text that reaches the database has no character U+0000, which PostgreSQL refuses in values
-- and in queries; the repositories here take every text. A type of a failure of Pydantic is a text,
-- which the translation and the formatters look up in ErrorCode.
--
-- Not modelled: the command line but for its parsers and its errors, configuration, logging back
-- ends, the hashing library, tokens (they have no implementation), migrations, the checks of request
-- schemas, which FastAPI runs, and failures of the connection (STORAGE_UNAVAILABLE and
-- STORAGE_TIMEOUT), which leave the tables as they are. Timestamps and surrogate ids of rows are left
-- out; the program never reads them.
pub mod Base
pub mod Platform
pub mod Rule
pub mod Errors
pub mod Schema
pub mod Core
pub mod Store
pub mod Storage
pub mod Ledger
pub mod Auth
pub mod Api
pub mod Cli
pub mod Tests
