-- ===== src/HubAuth/Tests.antt =====
-- A login, a step-up login that replaces its session, and a logout, on concrete tables.
use sq_hub.Common.Text.{codes}
use sq_hub.HubAuth.Cookies.{read_cookie}
use sq_hub.HubAuth.Cookies.Jars.{sent, built, look_up, read_cookie-build_cookie}
use sq_hub.Common.{
  ℕ, List, ◌∷◌, ◌≡◌, ◌<◌, refl, arith, String, none, some, [], true, ok, err, eq_iff,
}
use sq_hub.Common.Identity.{Env}
use sq_hub.HubAuth.Store.{
  account, AuthTransaction, SessionIdentity, AuthDb, consume_transaction, create_transaction,
  create_session, get_session, revoke_session,
}
use sq_hub.HubAuth.Service.{
  unauthenticated, oidc_transaction_expired, oidc_identity_switch_rejected, Outside, Options,
  LoggedIn, expected_identity, get_required_session, begin_login, complete_login, logout,
  normalize_issuer,
}
use sq_hub.HubAuth.Logins.{complete_login-once}
use sq_hub.HubAuth.Entries.{Entered, complete_login-Entered}
use sq_hub.HubAuth.Sessions.{get_required_session-logout, get_session-complete_login}

abbrev ann : SessionIdentity
ann = record {
  issuer = "https://kc/";
  subject = "ann";
  display_name = "Ann";
  username = none;
  email = none;
  email_verified = some true;
}

-- a provider that always returns one person
abbrev outside : SessionIdentity → Outside
outside i = record {
  hash = λ s. s;
  seal = λ s. s;
  complete = λ callback t. some (record { identity = i; refresh_token = none });
}

abbrev options : Options
options = record { idle_seconds = 60; max_seconds = 3600; transaction_ttl_ms = 10000 }

abbrev at_time : ℕ → String → Env
at_time t id = record { node = t; db = t; uuid = λ n. id }

abbrev request : AuthTransaction
request = record {
  state = "s";
  code_verifier = "v";
  nonce = "n";
  return_path = some account;
  replace_session_token_hash = none;
  expected_issuer = none;
  expected_subject = none;
}

abbrev empty : AuthDb
empty = record { transactions = []; sessions = []; audit = [] }

runs : Unit {0}
unfolding begin_login complete_login logout get_required_session get_session revoke_session
    normalize_issuer consume_transaction create_transaction create_session expected_identity
runs = tt

abbrev begun : AuthDb
begun = (begin_login (outside ann) options (at_time 1000 "-") request "t1" none empty).0

abbrev entered : AuthDb
entered = (complete_login (outside ann) options (at_time 2000 "id1") "cb" (some "t1") "s1" begun).0

abbrev stepping : AuthDb
stepping = (begin_login (outside ann) options (at_time 3000 "-") request "t2" (some "s1") entered).0

abbrev bob : SessionIdentity
bob = record ann { subject = "bob" }

-- The issuer is compared without its trailing slashes; another person is turned away.
step_up_tests :
    ((complete_login (outside bob) options (at_time 4000 "id2") "cb" (some "t2") "s2" stepping).1
      ≡ err (oidc_identity_switch_rejected account))
    × ((complete_login
          (outside (record ann { issuer = "https://kc" }))
          options
          (at_time 4000 "id2")
          "cb"
          (some "t1")
          "s2"
          stepping).1
        ≡ err oidc_transaction_expired)
    × ((get_required_session
          (outside ann)
          options
          (at_time 5000 "-")
          (some "s1")
          (complete_login
            (outside ann)
            options
            (at_time 4000 "id2")
            "cb"
            (some "t2")
            "s2"
            stepping).0).1
        ≡ err unauthenticated)
unfolding runs consume_transaction create_transaction create_session expected_identity
step_up_tests = (refl, refl, refl)

complete_login-once_example :
    (complete_login (outside ann) options (at_time 2500 "id2") "again" (some "t1") "s9" entered).1
    ≡ err oidc_transaction_expired
complete_login-once_example =
    complete_login-once (outside ann) options (at_time 2000 "id1") (at_time 2500 "id2") "cb" "again"
      "s1" "s9" "t1" begun (λ e. ground (arith, eq_iff "t1" ""))

login_run :
    (r : LoggedIn) × (complete_login
        (outside ann)
        options
        (at_time 2000 "id1")
        "cb"
        (some "t1")
        "s1"
        begun
      ≡ (entered, ok r))
unfolding runs consume_transaction create_transaction create_session
login_run = (_, refl)

complete_login-Entered_example :
    Entered (outside ann) options (at_time 2000 "id1") "cb" "s1" "t1" begun entered login_run.0
complete_login-Entered_example =
    complete_login-Entered (outside ann) options (at_time 2000 "id1") "cb" "s1" "t1" begun entered
      login_run.0 login_run.1

lasts : 3000 < login_run.0.session.expires_at
unfolding login_run runs consume_transaction create_transaction create_session
lasts = omega arith

get_session-complete_login_example :
    (get_session (at_time 3000 "-") 60 "s1" entered).1 ≡ some login_run.0.session
get_session-complete_login_example =
    get_session-complete_login (outside ann) options (at_time 2000 "id1") (at_time 3000 "-") "cb"
      "s1" "t1" begun entered login_run.0 login_run.1 lasts (omega arith)

get_required_session-logout_example :
    (get_required_session
      (outside ann)
      options
      (at_time 3000 "-")
      (some "s1")
      (logout (outside ann) (at_time 2900 "-") (some "s1") entered)).1
    ≡ err unauthenticated
get_required_session-logout_example =
    get_required_session-logout (outside ann) options (at_time 2900 "-") (at_time 3000 "-")
      (some "s1") entered

abbrev two_cookies : List (List ℕ × List ℕ)
two_cookies = (codes "sq", codes "abc") ∷ (codes "hub", codes "x=y") ∷ []

read_cookie-build_cookie_example :
    read_cookie (sent (built (λ n. codes "60") 60 true two_cookies)) (codes "hub")
    ≡ look_up two_cookies (codes "hub")
read_cookie-build_cookie_example =
    read_cookie-build_cookie (λ n. codes "60") 60 true two_cookies (codes "hub")
      (
        (((refl, refl), ((refl, refl), tt)), (refl, (refl, (refl, tt)))),
        ((((refl, refl), ((refl, refl), ((refl, refl), tt))), (refl, (refl, (refl, tt)))), tt),
      )
