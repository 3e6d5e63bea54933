-- ===== src/HubAuth/Entries.antt =====
-- Whom a login lets in, and the session that it makes: apps/api/src/modules/hub-auth/service.ts and repository.ts.
use sq_hub.Common.{
  ◌+◌, ◌*◌, ◌≡◌, ◌≢◌, ◌<◌, refl, sym, ◌∙◌, ap, subst, arith, String, Option, none, some, List, [],
  ◌∷◌, ◌++◌, true, find?, inl, inr, Option-cases, ok, Some,
}
use sq_hub.Common.Identity.{Env}
use sq_hub.HubAuth.Store.{
  TransactionRow, SessionRow, AuthDb, truthy, transaction_of, read_transaction, consume_transaction,
  SessionInput, new_session,
}
use sq_hub.HubAuth.Service.{
  Completed, Outside, Options, LoggedIn, identity_accepted, complete_login, session_input,
}
use sq_hub.HubAuth.Creation.{Replaced}
use sq_hub.HubAuth.Logins.{Accepted, complete_login_inv}
use sq_hub.HubAuth.Issuers.{Expected, truthy-some, accepted-Expected}
use sq_hub.HubAuth.Replacements.{Replacing, replacing}

-- what a login that succeeds found, and the session that it leaves
pub record Entered (o : Outside) (opt : Options) (env : Env) (callback token h : String)
    (db db' : AuthDb) (r : LoggedIn) : Type 0 where
  pub row : TransactionRow
  pub found : find? (transaction_of h) db.transactions ≡ some row
  pub in_time : env.node < row.expires_at
  pub completed : Completed
  pub answered : o.complete callback (read_transaction row.transaction) ≡ some completed
  pub expected : Expected row.transaction completed.identity
  pub theirs : r.session.identity ≡ completed.identity
  pub of_token : r.session.token_hash ≡ o.hash token
  pub opened : r.session.revoked_at ≡ none
  pub stored : Some (λ y. y ≡ r.session) db'.sessions
  pub lasts :
      row.transaction.replace_session_token_hash ≡ none
      → r.session.expires_at ≡ env.node + opt.max_seconds * 1000
  pub replaces :
      (x : String)
      → row.transaction.replace_session_token_hash ≡ some x
      → x ≢ ""
      → Replacing env x completed.identity db.sessions db' r.session

taken_row :
    (h : String) (db : AuthDb) (read : TransactionRow)
    → (consume_transaction h db).1 ≡ some read
    → (row : TransactionRow) × (find? (transaction_of h) db.transactions ≡ some row)
      × (read ≡ record row { transaction = read_transaction row.transaction })
unfolding consume_transaction
taken_row h db read e = elim (Option-cases (find? (transaction_of h) db.transactions)) [
  | inl f ↦ absurd (ground (arith, e, f))
  | inr (row, f) ↦ (row, f, ground (arith, e, f))
]

Some-last : (xs : List SessionRow) (x : SessionRow) → Some (λ y. y ≡ x) (xs ++ x ∷ [])
Some-last [] x = inl refl
Some-last (y ∷ xs) x = inr (Some-last xs x)

sessions-consume_transaction :
    (h : String) (db : AuthDb) → (consume_transaction h db).0.sessions ≡ db.sessions
unfolding consume_transaction
sessions-consume_transaction h db = refl

full_time :
    (env : Env) (input : SessionInput) (db mid : AuthDb) (old : Option SessionRow)
    → truthy input.replace_session_token_hash ≡ none
    → Replaced env input db old mid
    → (new_session env input old).expires_at ≡ input.expires_at
full_time env input db mid old e (inl (a, b, c)) = rw b refl
full_time env input db mid old e (inr (h, s, a, b, c, d)) = absurd (differ e a)
  where
    differ : {v : Option String} → v ≡ none → v ≡ some h → ⊥
    differ p q = cc

-- A login that succeeds used an unexpired transaction of its token, which the provider accepted with the callback. The
-- person is the one that the transaction expects, where it names an issuer, trailing slashes aside, or a subject, by a text that is
-- not empty. The session handed out is stored for that person and the fresh token, and is not revoked. Where the transaction names no
-- session to replace, it lasts the longest time allowed. Where it names one by such a text, that session was open and of the same
-- person, the new one ends when it would have ended, and no session of that token and person stays open.
pub complete_login-Entered :
    (o : Outside) (opt : Options) (env : Env) (callback token t : String) (db db' : AuthDb)
    (r : LoggedIn)
    → complete_login o opt env callback (some t) token db ≡ (db', ok r)
    → Entered o opt env callback token (o.hash t) db db' r
complete_login-Entered o opt env callback token t db db' r h =
    entered (complete_login_inv o opt env callback token t db db' r h)
  where
    entered :
        Accepted o opt env callback token (o.hash t) db db' r
        → Entered o opt env callback token (o.hash t) db db' r
    entered a =
        let (row, found, read) = taken_row (o.hash t) db a.row a.taken in
        let c = a.created in
        let same : a.row.transaction ≡ read_transaction row.transaction =
          ap (λ y. y.transaction) read in
        record {
          row = row;
          found = found;
          in_time = subst (λ n. env.node < n) (ap (λ y. y.expires_at) read) a.in_time;
          completed = a.completed;
          answered = subst (λ y. o.complete callback y ≡ some a.completed) same a.answered;
          expected =
              accepted-Expected row.transaction a.completed.identity
                (subst (λ y. identity_accepted y a.completed.identity ≡ true) same a.right_person);
          theirs = ap (λ y. y.identity) c.made;
          of_token = ap (λ y. y.token_hash) c.made;
          opened = ap (λ y. y.revoked_at) c.made;
          stored =
              subst (λ ys. Some (λ y. y ≡ r.session) ys) (sym c.sessions)
                (Some-last c.mid.sessions r.session);
          lasts = λ e.
              ap (λ y. y.expires_at) c.made
              ∙ full_time env (session_input o opt env token a.row.transaction a.completed)
                  (consume_transaction (o.hash t) db).0 c.mid c.old
                  (ap (λ y. truthy y.replace_session_token_hash) same
                    ∙ none_wanted row.transaction.replace_session_token_hash e)
                  c.before;
          replaces = λ x e filled.
              subst (λ ys. Replacing env x a.completed.identity ys db' r.session)
                (sessions-consume_transaction (o.hash t) db)
                (replacing env (session_input o opt env token a.row.transaction a.completed) x
                  (consume_transaction (o.hash t) db).0 db' c.mid r.session c.old
                  (ap (λ y. truthy y.replace_session_token_hash) same
                    ∙ twice row.transaction.replace_session_token_hash x e filled)
                  c.before c.fresh c.made c.sessions);
        }
      where
        none_wanted : (v : Option String) → v ≡ none → truthy (truthy v) ≡ none
        none_wanted v e = rw e refl

        twice : (v : Option String) (x : String) → v ≡ some x → x ≢ "" → truthy (truthy v) ≡ some x
        twice v x e filled = rw (truthy-some v x e filled) (truthy-some (some x) x refl filled)
