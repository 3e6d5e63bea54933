-- ===== src/HubAuth/Sessions.antt =====
-- Which sessions a token opens after a login, a replacement and a logout.
use sq_hub.Common.{
  ℕ, ◌+◌, ◌*◌, ◌≡◌, ◌<◌, refl, sym, subst, arith, String, Option, none, some, List, [], ◌∷◌, ◌++◌,
  Bool, true, false, ◌||◌, find?, str_eq, eq_iff, inl, inr, Bool-cases, Option-cases, All, All-any,
  All-map, ok, err, All-failed_update_where,
}
use sq_hub.Common.Identity.{Env}
use sq_hub.HubAuth.Store.{
  SessionRow, AuthDb, consume_transaction, has_token, live, get_session, revoke_session,
  open_session, revoked_row,
}
use sq_hub.HubAuth.Service.{
  Outside, Options, given, get_required_session, unauthenticated, logout, LoggedIn, complete_login,
  session_input,
}
use sq_hub.HubAuth.Creation.{Created}
use sq_hub.HubAuth.Logins.{Accepted, complete_login_inv}

find?-none :
    {A : Type 0} (p : A → Bool) (xs : List A) → All (λ x. p x ≡ false) xs → find? p xs ≡ none
find?-none p [] h = refl
find?-none p (x ∷ xs) h = rw h.0 (find?-none p xs h.1)

failed-find? :
    {A : Type 0} (p : A → Bool) (xs : List A) → find? p xs ≡ none → All (λ x. p x ≡ false) xs
failed-find? p [] h = tt
failed-find? p (x ∷ xs) h = elim (Bool-cases (p x)) [
  | inl e ↦ absurd (ground (arith, h, e))
  | inr e ↦ (e, failed-find? p xs (rw e at h))
]

-- no open session has the token
closed :
    (env env' : Env) (idle : ℕ) (h : String) (db : AuthDb)
    → All (λ s. live env' idle h s ≡ false) (revoke_session env h db).sessions
unfolding revoke_session
closed env env' idle h db = elim (Option-cases (find? (open_session h) db.sessions)) [
  | inl e ↦
      rw (e, revoke_session)
        (All-map _ _ db.sessions (λ s k. ground (arith, k))
          (failed-find? (open_session h) db.sessions e))
  | inr (s, e) ↦
      rw (e, revoke_session)
        (All-failed_update_where (open_session h) (live env' idle h) (revoked_row env) db.sessions
          (λ x k. ground arith) (λ x k. ground (arith, k)))
]

get_session-revoke_session :
    (env env' : Env) (idle : ℕ) (h : String) (db : AuthDb)
    → (get_session env' idle h (revoke_session env h db)).1 ≡ none
unfolding get_session
get_session-revoke_session env env' idle h db =
    rw
      (
        find?-none (live env' idle h) (revoke_session env h db).sessions
            (closed env env' idle h db),
        get_session,
      )
      refl

logout_lem :
    (o : Outside) (env : Env) (token : Option String) (t : String) (db : AuthDb)
    → given token ≡ some t
    → logout o env token db ≡ revoke_session env (o.hash t) db
unfolding logout
logout_lem o env token t db e = rw (e, logout) refl

-- After a logout its token opens no session, at any time and however long sessions may idle.
pub get_required_session-logout :
    (o : Outside) (opt : Options) (env env' : Env) (token : Option String) (db : AuthDb)
    → (get_required_session o opt env' token (logout o env token db)).1 ≡ err unauthenticated
unfolding get_required_session
get_required_session-logout o opt env env' token db = elim (Option-cases (given token)) [
  | inl e ↦ rw (e, get_required_session) refl
  | inr (t, e) ↦
      subst (λ d. (get_required_session o opt env' token d).1 ≡ err unauthenticated)
        (sym (logout_lem o env token t db e))
        (rw
          (
            e,
            get_required_session,
            get_session-revoke_session env env' opt.idle_seconds (o.hash t) db,
          )
          refl)
]

-- Where no row of xs passes p, the first that does in xs and one more row is that row.
find?-last :
    {A : Type 0} (p : A → Bool) (xs : List A) (x : A)
    → All (λ y. p y ≡ false) xs
    → p x ≡ true
    → find? p (xs ++ x ∷ []) ≡ some x
find?-last p [] x h e = rw e refl
find?-last p (y ∷ xs) x h e = rw h.0 (find?-last p xs x h.1 e)

-- The token that a login hands out opens the session that it made, in the state that it leaves, until the
-- session expires or the idle time has passed since its creation.
pub get_session-complete_login :
    (o : Outside) (opt : Options) (env env' : Env) (callback token t : String) (db db' : AuthDb)
    (r : LoggedIn)
    → complete_login o opt env callback (some t) token db ≡ (db', ok r)
    → env'.db < r.session.expires_at
    → env'.db < env.db + opt.idle_seconds * 1000
    → (get_session env' opt.idle_seconds (o.hash token) db').1 ≡ some r.session
unfolding get_session
get_session-complete_login o opt env env' callback token t db db' r h early idle =
    rw (found, get_session) refl
  where
    a : Accepted o opt env callback token (o.hash t) db db' r
    a = complete_login_inv o opt env callback token t db db' r h

    c :
        Created env
          (session_input o opt env token a.row.transaction a.completed)
          (consume_transaction (o.hash t) db).0
          db'
          r.session
    c = a.created

    p : SessionRow → Bool
    p = live env' opt.idle_seconds (o.hash token)

    none_before : All (λ s. p s ≡ false) c.mid.sessions
    none_before =
        All-map _ _ c.mid.sessions (λ s k. ground (arith, k))
          (All-any (λ s. has_token (o.hash token) s || str_eq s.id (env.uuid 0)) c.mid.sessions
            c.fresh)

    passes : p r.session ≡ true
    passes = rw c.made (
        let soon = rw c.made at early in
        ground (arith, soon, idle, eq_iff (o.hash token) (o.hash token)))

    found : find? p db'.sessions ≡ some r.session
    found = rw c.sessions (find?-last p c.mid.sessions r.session none_before passes)
