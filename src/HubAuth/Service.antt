-- ===== src/HubAuth/Service.antt =====
-- apps/api/src/modules/hub-auth/service.ts: login, session and logout. What the OIDC provider, the token vault
-- and SHA-256 answer, and the random tokens, are parameters (the record Outside). Cookies are the numbers that
-- they carry; the redirect to Keycloak and the landing page's governance lookup are left out.
use sq_hub.Common.{
  ℕ, ◌+◌, ◌-◌, ◌*◌, ◌/◌, max, min, String, Option, none, some, List, [], ◌∷◌, Bool, true, false,
  ◌&&◌, ◌||◌, ◌==◌, leb, is_some, or_else, str_eq, if◌then◌else◌, Result, ok, err,
}
use sq_hub.Common.Identity.{Env}
use sq_hub.Common.Text.{codes}
use sq_hub.HubAuth.Store.{
  ReturnPath, home, AuthTransaction, TransactionRow, SessionIdentity, SessionRow, AuthDb,
  StoreError, SessionInput, create_transaction, consume_transaction, create_session, get_session,
  revoke_session,
}

-- HubAuthError by its code; `failed` is an error of the store, which no handler of the service catches
pub data AuthError : Type 0 where
  unauthenticated : AuthError
  oidc_transaction_missing : AuthError
  oidc_transaction_expired : AuthError
  oidc_completion_failed : ReturnPath → AuthError
  oidc_identity_switch_rejected : ReturnPath → AuthError
  failed : StoreError → AuthError

pub record Completed : Type 0 where
  pub identity : SessionIdentity
  pub refresh_token : Option String

pub record Outside : Type 0 where
  pub hash : String → String
  pub seal : String → String
  -- what the provider answers to a callback; none where it throws
  pub complete : String → AuthTransaction → Option Completed

pub record Options : Type 0 where
  pub idle_seconds : ℕ
  pub max_seconds : ℕ
  pub transaction_ttl_ms : ℕ

-- `!token` is true of null and of an empty text
abbrev pub given : Option String → Option String
given none = none
given (some t) = if str_eq t "" then none else some t

unfoldable pub get_required_session :
    Outside → Options → Env → Option String → AuthDb → AuthDb × Result AuthError SessionRow
get_required_session o opt env token db = elim (given token) [
  | none ↦ (db, err unauthenticated)
  | some t ↦
      let found = get_session env opt.idle_seconds (o.hash t) db in
      (found.0, elim found.1 [ none ↦ err unauthenticated | some s ↦ ok s ])
]

-- `value.replace(/\/+$/, "")`, on code points
unfoldable pub normalize_issuer : List ℕ → List ℕ
normalize_issuer [] = []
normalize_issuer (c ∷ cs) =
    let rest = normalize_issuer cs in
    elim rest [ [] ↦ if c == b'/' then [] else c ∷ [] | d ∷ ds ↦ c ∷ d ∷ ds ]

abbrev pub same_codes : List ℕ → List ℕ → Bool
same_codes [] [] = true
same_codes [] (b ∷ bs) = false
same_codes (a ∷ as') [] = false
same_codes (a ∷ as') (b ∷ bs) = a == b && same_codes as' bs

-- `sameIdentity`, with both expectations present
unfoldable pub expected_identity : AuthTransaction → SessionIdentity → Bool
expected_identity t i = elim t.expected_issuer [
  | none ↦ false
  | some issuer ↦ elim t.expected_subject [
    | none ↦ false
    | some subject ↦
        same_codes (normalize_issuer (codes i.issuer)) (normalize_issuer (codes issuer))
        && str_eq i.subject subject
  ]
]

-- the check on an account action that another person completes
abbrev pub identity_accepted : AuthTransaction → SessionIdentity → Bool
identity_accepted t i =
    if is_some t.expected_issuer || is_some t.expected_subject then expected_identity t i else true

abbrev pub session_input :
    Outside → Options → Env → String → AuthTransaction → Completed → SessionInput
session_input o opt env token t c = record {
  token_hash = o.hash token;
  identity = c.identity;
  account_refresh_token_ciphertext = elim (given c.refresh_token) [
    | none ↦ none
    | some r ↦ some (o.seal r)
  ];
  replace_session_token_hash = t.replace_session_token_hash;
  expires_at = env.node + opt.max_seconds * 1000;
}

-- `Max-Age` of the session cookie; a session that is over by the process's clock gives 1
unfoldable pub session_cookie_max_age : Options → Env → ℕ → ℕ
session_cookie_max_age opt env expires_at =
    max 1 (min opt.max_seconds ((expires_at - env.node) / 1000))

pub record LoggedIn : Type 0 where
  pub session : SessionRow
  pub token : String
  pub max_age : ℕ
  pub return_path : ReturnPath

abbrev pub logged_in :
    Options
    → Env
    → String
    → AuthTransaction
    → Result StoreError SessionRow
    → Result AuthError LoggedIn
logged_in opt env token t (err e) = err (failed e)
logged_in opt env token t (ok s) = ok (record {
  session = s;
  token = token;
  max_age = session_cookie_max_age opt env s.expires_at;
  return_path = or_else t.return_path home;
})

-- `completeLogin` from the answer of the provider on
unfoldable pub finish_login :
    Outside
    → Options
    → Env
    → String
    → AuthTransaction
    → Completed
    → AuthDb
    → AuthDb × Result AuthError LoggedIn
finish_login o opt env token t c db =
    let made = create_session env (session_input o opt env token t c) db in
    if identity_accepted t c.identity
    then (made.0, logged_in opt env token t made.1)
    else (db, err (oidc_identity_switch_rejected (or_else t.return_path home)))

-- what `completeLogin` does with the transaction that it took from the store
unfoldable pub use_transaction :
    Outside
    → Options
    → Env
    → String
    → String
    → Option TransactionRow
    → AuthDb
    → AuthDb × Result AuthError LoggedIn
unfolding finish_login
use_transaction o opt env callback token none db = (db, err oidc_transaction_expired)
use_transaction o opt env callback token (some row) db =
    if leb row.expires_at env.node
    then (db, err oidc_transaction_expired)
    else elim (o.complete callback row.transaction) [
      | none ↦ (db, err (oidc_completion_failed (or_else row.transaction.return_path home)))
      | some c ↦ finish_login o opt env token row.transaction c db
    ]

-- `token` is the fresh token of the session; the deletion of the transaction is a statement of its own, so
-- that it stands whatever comes after it
unfoldable pub complete_login :
    Outside
    → Options
    → Env
    → String
    → Option String
    → String
    → AuthDb
    → AuthDb × Result AuthError LoggedIn
unfolding use_transaction
complete_login o opt env callback transaction_token token db = elim (given transaction_token) [
  | none ↦ (db, err oidc_transaction_missing)
  | some t ↦
      let taken = consume_transaction (o.hash t) db in
      use_transaction o opt env callback token taken.1 taken.0
]

-- what `beginLogin` stores of the session that the new one is to replace
abbrev pub with_replacement : Outside → String → SessionRow → AuthTransaction → AuthTransaction
with_replacement o token s t = record t {
  replace_session_token_hash = some (o.hash token);
  expected_issuer = some s.identity.issuer;
  expected_subject = some s.identity.subject;
}

unfoldable pub store_login :
    Outside
    → Options
    → Env
    → String
    → AuthTransaction
    → AuthDb
    → AuthDb × Result AuthError (Unit {0})
store_login o opt env token t db =
    elim (create_transaction (o.hash token) t (env.node + opt.transaction_ttl_ms) db) [
      | err e ↦ (db, err (failed e))
      | ok r ↦ (r.1, ok tt)
    ]

-- `beginLogin`: `request` is the transaction of the provider's request with the return path, `token` the
-- fresh token of the transaction
unfoldable pub begin_login :
    Outside
    → Options
    → Env
    → AuthTransaction
    → String
    → Option String
    → AuthDb
    → AuthDb × Result AuthError (Unit {0})
unfolding get_required_session store_login
begin_login o opt env request token replace db = elim (given replace) [
  | none ↦ store_login o opt env token request db
  | some r ↦
      let found = get_required_session o opt env (some r) db in
      elim found.1 [
        | err e ↦ (found.0, err e)
        | ok s ↦ store_login o opt env token (with_replacement o r s request) found.0
      ]
]

unfoldable pub logout : Outside → Env → Option String → AuthDb → AuthDb
logout o env token db = elim (given token) [ none ↦ db | some t ↦ revoke_session env (o.hash t) db ]
