-- ===== src/HubAuth/Logins.antt =====
-- A login transaction serves one login, and the session that it makes belongs to the right person.
use sq_hub.Common.{
  ◌≡◌, ◌≢◌, ◌<◌, refl, sym, ◌∙◌, ap, subst, arith, String, Option, none, some, true, false, not,
  leb, find?, find?-keep-none, str_eq, eq_iff, inl, inr, Bool-cases, Option-cases, Result-cases, ok,
  err, transaction_lem,
}
use sq_hub.Common.Identity.{Env}
use sq_hub.HubAuth.Store.{
  AuthTransaction, TransactionRow, SessionRow, AuthDb, SessionInput, transaction_of,
  consume_transaction, create_session, create_session_task,
}
use sq_hub.HubAuth.Creation.{Replaced, Created, create_session_inv}
use sq_hub.HubAuth.Service.{
  oidc_transaction_expired, Completed, Outside, Options, LoggedIn, session_input, identity_accepted,
  finish_login, use_transaction, complete_login,
}

-- no transaction has this token
abbrev Taken : String → AuthDb → Type 0
Taken h db = find? (transaction_of h) db.transactions ≡ none

consume_transaction-Taken : (h : String) (db : AuthDb) → Taken h (consume_transaction h db).0
unfolding consume_transaction
consume_transaction-Taken h db =
    find?-keep-none (λ t. not (transaction_of h t)) (transaction_of h) db.transactions
      (λ t e. ground (arith, e))

transactions-Replaced :
    (env : Env) (input : SessionInput) (db mid : AuthDb) (old : Option SessionRow)
    → Replaced env input db old mid
    → mid.transactions ≡ db.transactions
transactions-Replaced env input db mid old (inl (a, b, c)) = ap (λ d. d.transactions) c
transactions-Replaced env input db mid old (inr (x, y, a, b, c, d)) = ap (λ d. d.transactions) d

Taken-create_session :
    (env : Env) (input : SessionInput) (h : String) (db : AuthDb)
    → Taken h db
    → Taken h (create_session env input db).0
unfolding create_session
Taken-create_session env input h db t =
    transaction_lem (Taken h) (create_session_task env input) db t (λ row db' e.
      let c = create_session_inv env input db db' row e in
      subst (λ rows. find? (transaction_of h) rows ≡ none)
        (sym (c.transactions ∙ transactions-Replaced env input db c.mid c.old c.before)) t)

Taken-finish_login :
    (o : Outside) (opt : Options) (env : Env) (token : String) (t : AuthTransaction) (c : Completed)
    (h : String) (db : AuthDb)
    → Taken h db
    → Taken h (finish_login o opt env token t c db).0
unfolding finish_login
Taken-finish_login o opt env token t c h db k = elim (Bool-cases (identity_accepted t c.identity)) [
  | inl e ↦
      rw (e, finish_login) (Taken-create_session env (session_input o opt env token t c) h db k)
  | inr e ↦ rw (e, finish_login) k
]

Taken-use_transaction :
    (o : Outside) (opt : Options) (env : Env) (callback token h : String)
    (r : Option TransactionRow) (db : AuthDb)
    → Taken h db
    → Taken h (use_transaction o opt env callback token r db).0
unfolding use_transaction
Taken-use_transaction o opt env callback token h none db k = k
Taken-use_transaction o opt env callback token h (some r) db k =
    elim (Bool-cases (leb r.expires_at env.node)) [
      | inl e ↦ rw (e, use_transaction) k
      | inr e ↦ elim (Option-cases (o.complete callback r.transaction)) [
        | inl f ↦ rw (e, f, use_transaction) k
        | inr (c, f) ↦
            rw (e, f, use_transaction) (Taken-finish_login o opt env token r.transaction c h db k)
      ]
    ]

missing : (h : String) (db : AuthDb) → Taken h db → (consume_transaction h db).1 ≡ none
unfolding consume_transaction
missing h db k = rw (k, consume_transaction) refl

Taken-complete_login :
    (o : Outside) (opt : Options) (env : Env) (callback token t : String) (db : AuthDb)
    → str_eq t "" ≡ false
    → Taken (o.hash t) (complete_login o opt env callback (some t) token db).0
unfolding complete_login
Taken-complete_login o opt env callback token t db e =
    rw (e, complete_login)
      (Taken-use_transaction o opt env callback token (o.hash t)
        (consume_transaction (o.hash t) db).1 (consume_transaction (o.hash t) db).0
        (consume_transaction-Taken (o.hash t) db))

told_over :
    (o : Outside) (opt : Options) (env : Env) (callback token t : String) (db : AuthDb)
    → str_eq t "" ≡ false
    → Taken (o.hash t) db
    → (complete_login o opt env callback (some t) token db).1 ≡ err oidc_transaction_expired
unfolding complete_login use_transaction
told_over o opt env callback token t db e k = rw (e, complete_login, missing (o.hash t) db k) refl

-- A login transaction serves one callback: whatever a first callback with its token, a text that is not empty,
-- came to, a second with the same token is told that the transaction is over, at any time and with any answer of the provider.
pub complete_login-once :
    (o : Outside) (opt : Options) (env env' : Env) (callback callback' token token' t : String)
    (db : AuthDb)
    → t ≢ ""
    → (complete_login o opt env' callback'
        (some t)
        token'
        (complete_login o opt env callback (some t) token db).0).1
      ≡ err oidc_transaction_expired
complete_login-once o opt env env' callback callback' token token' t db g =
    told_over o opt env' callback' token' t (complete_login o opt env callback (some t) token db).0
      filled (Taken-complete_login o opt env callback token t db filled)
  where
    filled : str_eq t "" ≡ false
    filled = ground (arith, eq_iff t "")

-- the session that a login hands out, with what led to it
pub record Accepted (o : Outside) (opt : Options) (env : Env) (callback token h : String)
    (db db' : AuthDb) (r : LoggedIn) : Type 0 where
  pub row : TransactionRow
  pub taken : (consume_transaction h db).1 ≡ some row
  pub in_time : env.node < row.expires_at
  pub completed : Completed
  pub answered : o.complete callback row.transaction ≡ some completed
  pub right_person : identity_accepted row.transaction completed.identity ≡ true
  pub created :
      Created env
        (session_input o opt env token row.transaction completed)
        (consume_transaction h db).0
        db'
        r.session

finish_login_inv :
    (o : Outside) (opt : Options) (env : Env) (token : String) (t : AuthTransaction) (c : Completed)
    (db db' : AuthDb) (r : LoggedIn)
    → finish_login o opt env token t c db ≡ (db', ok r)
    → (identity_accepted t c.identity ≡ true)
      × Created env (session_input o opt env token t c) db db' r.session
unfolding finish_login create_session
finish_login_inv o opt env token t c db db' r h =
    elim (Bool-cases (identity_accepted t c.identity)) [
      | inl e ↦
          elim (Result-cases (create_session_task env (session_input o opt env token t c) db)) [
            | inl ((s, x), f) ↦
                let same_row : r.session ≡ s = ground (arith, h, e, f) in
                let same_db : db' ≡ x = ground (arith, h, e, f) in
                (
                  e,
                  rw (same_row, same_db)
                      (create_session_inv env (session_input o opt env token t c) db x s f),
                )
            | inr (x, f) ↦ absurd (ground (arith, h, e, f))
          ]
      | inr e ↦ absurd (ground (arith, h, e))
    ]

-- A login that succeeds took an unexpired transaction of its token from the store, the provider accepted the
-- callback for it, the person is the one that the transaction expects where it expects one, and the session
-- handed out was created for that person, replacing the session that the transaction names.
pub complete_login_inv :
    (o : Outside) (opt : Options) (env : Env) (callback token t : String) (db db' : AuthDb)
    (r : LoggedIn)
    → complete_login o opt env callback (some t) token db ≡ (db', ok r)
    → Accepted o opt env callback token (o.hash t) db db' r
unfolding complete_login use_transaction
complete_login_inv o opt env callback token t db db' r h = elim (Bool-cases (str_eq t "")) [
  | inl e ↦ absurd (ground (arith, h, e))
  | inr e ↦ elim (Option-cases (consume_transaction (o.hash t) db).1) [
    | inl f ↦ absurd (ground (arith, h, e, f))
    | inr (row, f) ↦ elim (Bool-cases (leb row.expires_at env.node)) [
      | inl g ↦ absurd (ground (arith, h, e, f, g))
      | inr g ↦ elim (Option-cases (o.complete callback row.transaction)) [
        | inl k ↦ absurd (ground (arith, h, e, f, g, k))
        | inr (c, k) ↦
            let (right, made) =
              finish_login_inv o opt env token row.transaction c
                (consume_transaction (o.hash t) db).0 db' r
                (rw (e, complete_login, f, g, k, use_transaction) at h) in
            record {
              row = row;
              taken = f;
              in_time = ground arith;
              completed = c;
              answered = k;
              right_person = right;
              created = made;
            }
      ]
    ]
  ]
]
