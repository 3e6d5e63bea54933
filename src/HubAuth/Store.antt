-- ===== src/HubAuth/Store.antt =====
-- apps/api/src/modules/hub-auth/repository.ts: login transactions and sessions. The columns ip_address and
-- user_agent are left out; blank texts, which CHECKs refuse, are taken as not given.
use sq_hub.Common.{
  ℕ, ◌+◌, ◌*◌, String, Option, none, some, List, [], ◌∷◌, ◌++◌, Bool, not, ◌&&◌, ◌||◌, any, find?,
  keep, ltb, str_eq, update_where, is_some, if◌then◌else◌, Tx, pure, throw, ◌>>=◌, ◌>>◌, guard,
  modify, gets, transaction, Result,
}
use sq_hub.Common.Identity.{Env}

pub data ReturnPath : Type 0 where
  home account : ReturnPath

-- HubOidcAuthorizationTransaction; a field that is absent is none
pub record AuthTransaction : Type 0 where
  pub state : String
  pub code_verifier : String
  pub nonce : String
  pub return_path : Option ReturnPath
  pub replace_session_token_hash : Option String
  pub expected_issuer : Option String
  pub expected_subject : Option String

pub record TransactionRow : Type 0 where
  pub token_hash : String
  pub transaction : AuthTransaction
  pub expires_at : ℕ

pub record SessionIdentity : Type 0 where
  pub issuer : String
  pub subject : String
  pub display_name : String
  pub username : Option String
  pub email : Option String
  pub email_verified : Option Bool

pub record SessionRow : Type 0 where
  pub id : String
  pub token_hash : String
  pub identity : SessionIdentity
  pub account_refresh_token_ciphertext : Option String
  pub created_at : ℕ
  pub last_seen_at : ℕ
  pub expires_at : ℕ
  pub revoked_at : Option ℕ

-- the entries of platform_audit_events on sessions
pub data SessionEvent : Type 0 where
  created : (subject session_id issuer : String) → SessionEvent
  replaced : (subject session_id issuer replacement_session_id : String) → SessionEvent
  logout : (subject session_id issuer : String) → SessionEvent

pub record AuthDb : Type 0 where
  pub transactions : List TransactionRow
  pub sessions : List SessionRow
  pub audit : List SessionEvent

pub data StoreError : Type 0 where
  -- "Hub session selected for replacement is no longer active or changed identity"
  replacement_inactive : StoreError
  -- a unique index refuses the row
  storage : StoreError

abbrev pub has_token : String → SessionRow → Bool
has_token h s = str_eq s.token_hash h

abbrev pub transaction_of : String → TransactionRow → Bool
transaction_of h t = str_eq t.token_hash h

unfoldable pub create_transaction : String → AuthTransaction → ℕ → Tx AuthDb StoreError (Unit {0})
create_transaction token_hash t expires_at = do
  rows ← gets (λ db. db.transactions)
  guard (not (any (transaction_of token_hash) rows)) storage
  modify (λ db. record db {
    transactions =
        db.transactions
        ++ record { token_hash = token_hash; transaction = t; expires_at = expires_at } ∷ [];
  })

-- `...(row.field ? { field: row.field } : {})`
abbrev pub truthy : Option String → Option String
truthy none = none
truthy (some v) = if str_eq v "" then none else some v

abbrev pub read_transaction : AuthTransaction → AuthTransaction
read_transaction t = record t {
  replace_session_token_hash = truthy t.replace_session_token_hash;
  expected_issuer = truthy t.expected_issuer;
  expected_subject = truthy t.expected_subject;
}

-- DELETE … RETURNING: the row with the transaction as it is read back
unfoldable pub consume_transaction : String → AuthDb → AuthDb × Option TransactionRow
consume_transaction token_hash db = (
  record db { transactions = keep (λ t. not (transaction_of token_hash t)) db.transactions },
  elim (find? (transaction_of token_hash) db.transactions) [
    | none ↦ none
    | some t ↦ some (record t { transaction = read_transaction t.transaction })
  ],
)

pub record SessionInput : Type 0 where
  pub token_hash : String
  pub identity : SessionIdentity
  pub account_refresh_token_ciphertext : Option String
  pub replace_session_token_hash : Option String
  pub expires_at : ℕ

abbrev pub revoked_row : Env → SessionRow → SessionRow
revoked_row env s = record s { revoked_at = some env.db; account_refresh_token_ciphertext = none }

-- the WHERE of the replacement
abbrev pub replaceable : Env → String → SessionIdentity → SessionRow → Bool
replaceable env h i s =
    has_token h s
    && (str_eq s.identity.issuer i.issuer
        && (str_eq s.identity.subject i.subject
            && (not (is_some s.revoked_at) && ltb env.db s.expires_at)))

-- the UPDATE of the session to be replaced, with the row it returns
unfoldable pub replace_session : Env → SessionInput → Tx AuthDb StoreError (Option SessionRow)
replace_session env input db = elim (truthy input.replace_session_token_hash) [
  | none ↦ pure none db
  | some h ↦ elim (find? (replaceable env h input.identity) db.sessions) [
    | none ↦ throw replacement_inactive db
    | some s ↦ pure (some s) (record db {
      sessions = update_where (replaceable env h input.identity) (revoked_row env) db.sessions;
    })
  ]
]

abbrev pub new_session : Env → SessionInput → Option SessionRow → SessionRow
new_session env input old = record {
  id = env.uuid 0;
  token_hash = input.token_hash;
  identity = input.identity;
  account_refresh_token_ciphertext = input.account_refresh_token_ciphertext;
  created_at = env.db;
  last_seen_at = env.db;
  expires_at = elim old [ none ↦ input.expires_at | some s ↦ s.expires_at ];
  revoked_at = none;
}

unfoldable pub insert_session : SessionRow → Tx AuthDb StoreError (Unit {0})
insert_session row = do
  rows ← gets (λ db. db.sessions)
  guard (not (any (λ s. has_token row.token_hash s || str_eq s.id row.id) rows)) storage
  modify (λ db. record db { sessions = db.sessions ++ row ∷ [] })

abbrev pub creation_events : Env → SessionInput → Option SessionRow → List SessionEvent
creation_events env input none =
    created input.identity.subject (env.uuid 0) input.identity.issuer ∷ []
creation_events env input (some s) =
    created input.identity.subject (env.uuid 0) input.identity.issuer
    ∷ replaced s.identity.subject s.id s.identity.issuer (env.uuid 0)
    ∷ []

unfoldable pub create_session_task : Env → SessionInput → Tx AuthDb StoreError SessionRow
unfolding replace_session insert_session
create_session_task env input = do
  old ← replace_session env input
  insert_session (new_session env input old)
  modify (λ db. record db { audit = db.audit ++ creation_events env input old })
  pure (new_session env input old)

unfoldable pub create_session : Env → SessionInput → AuthDb → AuthDb × Result StoreError SessionRow
unfolding create_session_task
create_session env input = transaction (create_session_task env input)

-- the WHERE of `getSession`
abbrev pub live : Env → ℕ → String → SessionRow → Bool
live env idle_seconds h s =
    has_token h s
    && (not (is_some s.revoked_at)
        && (ltb env.db s.expires_at && ltb env.db (s.last_seen_at + idle_seconds * 1000)))

unfoldable pub get_session : Env → ℕ → String → AuthDb → AuthDb × Option SessionRow
get_session env idle_seconds h db = elim (find? (live env idle_seconds h) db.sessions) [
  | none ↦ (db, none)
  | some s ↦ (
    record db {
      sessions =
          update_where (λ x. str_eq x.id s.id) (λ x. record x { last_seen_at = env.db })
            db.sessions;
    },
    some s,
  )
]

unfoldable pub update_account_refresh_token : String → String → AuthDb → AuthDb
update_account_refresh_token id ciphertext db = record db {
  sessions =
      update_where (λ s. str_eq s.id id && not (is_some s.revoked_at))
        (λ s. record s { account_refresh_token_ciphertext = some ciphertext }) db.sessions;
}

abbrev pub open_session : String → SessionRow → Bool
open_session h s = has_token h s && not (is_some s.revoked_at)

unfoldable pub revoke_session : Env → String → AuthDb → AuthDb
revoke_session env h db = elim (find? (open_session h) db.sessions) [
  | none ↦ db
  | some s ↦ record db {
    sessions = update_where (open_session h) (revoked_row env) db.sessions;
    audit = db.audit ++ logout s.identity.subject s.id s.identity.issuer ∷ [];
  }
]
