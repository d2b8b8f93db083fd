-- ===== src/Tests/Login.antt =====
-- A registration, logins that fail and succeed, and the throttle, on small tables.
use trutina.Base.{
  ◌+◌, ◌-◌, ◌*◌, ◌≤◌, ◌≡◌, ◌↔◌, refl, true, false, none, List, [], ◌∷◌, arith, Text, text, same,
  same_refl, str_of,
}
use trutina.Store.{ok}
use trutina.Rule.{lstrip, cons_unless_blank, rstrip, strip, casefold}
use trutina.Auth.Email.{is_empty, partition, contains, normalize_email, is_well_formed_email}
use trutina.Auth.Email.Shape.{IsAddress, is_well_formed_email-IsAddress}
use trutina.Auth.Password.{normalize_password, check_password}
use trutina.Auth.State.{Runtime, AuthState}
use trutina.Auth.Users.{postgres_user_repo}
use trutina.Auth.Users.Table.{IsUsers}
use trutina.Auth.Attempts.{count_rows}
use trutina.Auth.Frame.{with_attempts}
use trutina.Auth.Registration.{RegisterInput, RegisteredUser, violations, register}
use trutina.Auth.Registration.Outcome.{
  Registers, registered_row, registered, register_lem, register-returns,
}
use trutina.Auth.Registration.SignIn.{register-authenticate}
use trutina.Auth.Login.{authenticate}
use trutina.Auth.Login.Outcome.{Authenticates, authenticate_lem}
use trutina.Auth.Throttle.{Throttle, window}
use trutina.Auth.Throttle.Agree.{Monotone}
use trutina.Auth.Throttle.Runs.{Credentials, run, login, login_by_history, run-refines, run-bound}
use trutina.Tests.{ascii, monday}

-- A clock that ticks a second for each draw, and a hash that is the password.
instance abbrev pub ticking : Runtime
ticking = record {
  now = λ n. monday + n * 1000000;
  database_now = λ n. monday + n * 1000000;
  uuid4 = str_of;
  hash = λ n password. password;
  verify = same;
  needs_rehash = λ h. false;
  nfkc = λ s. s;
  is_other = λ c. false;
  verify-hash = λ n password. same_refl password;
}

abbrev pub nobody_yet : AuthState
nobody_yet = record { users = []; login_attempts = []; events = []; hasher_calls = []; draws = 0 }

pub empty-IsUsers : IsUsers []
empty-IsUsers = record { ids = tt; emails = tt; normal = tt }

abbrev pub new_user : RegisterInput
new_user = record { email = text " Ann@Mail.org"; password = text "open sesame" }

abbrev address_example : Text
address_example = text "ann@mail.org"

is_well_formed_email-IsAddress_example :
    (is_well_formed_email (λ c. false) address_example ≡ true)
    ↔ IsAddress (λ c. false) address_example
is_well_formed_email-IsAddress_example = is_well_formed_email-IsAddress (λ c. false) address_example

register_lem_example :
    Registers new_user nobody_yet (register postgres_user_repo new_user nobody_yet)
register_lem_example = register_lem new_user nobody_yet empty-IsUsers

no_violations : violations new_user ≡ []
unfolding violations normalize_email is_well_formed_email check_password normalize_password is_empty
    partition contains lstrip cons_unless_blank rstrip strip casefold
no_violations = refl

abbrev ann_registered : RegisteredUser
ann_registered = record {
  id = (registered_row new_user nobody_yet).id;
  email = normalize_email new_user.email;
}

ann_in :
    register postgres_user_repo new_user nobody_yet
    ≡ (ok ann_registered, registered new_user nobody_yet)
ann_in = register-returns new_user nobody_yet empty-IsUsers no_violations refl refl

same_address : normalize_email (text "ANN@mail.ORG ") ≡ normalize_email new_user.email
unfolding normalize_email lstrip cons_unless_blank rstrip strip casefold
same_address = refl

register-authenticate_example :
    (authenticate postgres_user_repo
      (text "x")
      (text "ANN@mail.ORG ")
      (text "open sesame")
      none
      (registered new_user nobody_yet)).0
    ≡ ok (record { subject_id = ann_registered.id })
register-authenticate_example =
    register-authenticate (text "x") (text "ANN@mail.ORG ") (text "open sesame") none new_user
      ann_registered nobody_yet (registered new_user nobody_yet) empty-IsUsers ann_in same_address
      refl (omega arith)

authenticate_lem_example :
    Authenticates (text "x") (text "bob@mail.org") (text "open sesame") nobody_yet (
      authenticate postgres_user_repo
        (text "x")
        (text "bob@mail.org")
        (text "open sesame")
        none
        nobody_yet)
authenticate_lem_example =
    authenticate_lem (text "x") (text "bob@mail.org") (text "open sesame") nobody_yet empty-IsUsers
      none

abbrev three_in_a_minute : Throttle
three_in_a_minute = record { max_failures = 3; window_seconds = 60 }

ticking-Monotone : Monotone three_in_a_minute
ticking-Monotone m n h = omega arith

abbrev guess : Credentials
guess = record { email = text "ann@mail.org"; password = text "guess"; client_ip = none }

abbrev guesses : List Credentials
guesses = guess ∷ guess ∷ guess ∷ guess ∷ []

run-refines_example :
    ((run (login three_in_a_minute (text "x")) guesses nobody_yet).0
      ≡ (run (login_by_history three_in_a_minute (text "x")) guesses (nobody_yet, [])).0)
    × (with_attempts [] (run (login three_in_a_minute (text "x")) guesses nobody_yet).1
        ≡ (run (login_by_history three_in_a_minute (text "x")) guesses (nobody_yet, [])).1.0)
run-refines_example =
    run-refines three_in_a_minute (text "x") ticking-Monotone guesses nobody_yet refl

run-bound_example :
    count_rows
      (text "unknown")
      (text "ann@mail.org")
      (ticking.now (run (login three_in_a_minute (text "x")) guesses nobody_yet).1.draws
        - window three_in_a_minute)
      (run (login three_in_a_minute (text "x")) guesses nobody_yet).1.login_attempts
    ≤ 3
run-bound_example =
    run-bound three_in_a_minute (text "x") ticking-Monotone guesses nobody_yet (text "unknown")
      (text "ann@mail.org") (run (login three_in_a_minute (text "x")) guesses nobody_yet).1.draws
      refl (omega arith)
