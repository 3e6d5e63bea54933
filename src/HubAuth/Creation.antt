-- ===== src/HubAuth/Creation.antt =====
-- What a creation of a session that does not throw found and left.
use sq_hub.Common.{
  ◌≡◌, ◌⊎◌, arith, String, Option, none, some, [], ◌∷◌, ◌++◌, false, ◌||◌, find?, any, str_eq, inl,
  inr, Option-cases, Result-cases, ok, update_where,
}
use sq_hub.Common.Identity.{Env}
use sq_hub.HubAuth.Store.{
  SessionRow, AuthDb, SessionInput, create_session_task, replace_session, insert_session,
  new_session, replaceable, truthy, has_token, revoked_row,
}

-- the state after session s gave way to another
abbrev pub swapped : Env → SessionInput → String → AuthDb → AuthDb
swapped env input h db = record db {
  sessions = update_where (replaceable env h input.identity) (revoked_row env) db.sessions;
}

-- what a replacement that does not throw found and left
abbrev pub Replaced : Env → SessionInput → AuthDb → Option SessionRow → AuthDb → Type 0
Replaced env input db old mid =
    ((truthy input.replace_session_token_hash ≡ none) × (old ≡ none) × (mid ≡ db))
    ⊎ ((h : String) × (s : SessionRow) × (truthy input.replace_session_token_hash ≡ some h)
        × (find? (replaceable env h input.identity) db.sessions ≡ some s)
        × (old ≡ some s)
        × (mid ≡ swapped env input h db))

replace_inv :
    (env : Env) (input : SessionInput) (db mid : AuthDb) (old : Option SessionRow)
    → replace_session env input db ≡ ok (old, mid)
    → Replaced env input db old mid
unfolding replace_session
replace_inv env input db mid old h = elim (Option-cases (truthy input.replace_session_token_hash)) [
  | inl e ↦ inl (e, ground arith, ground arith)
  | inr (t, e) ↦ elim (Option-cases (find? (replaceable env t input.identity) db.sessions)) [
    | inl f ↦ absurd (ground arith)
    | inr (s, f) ↦ inr (t, s, e, f, ground arith, ground arith)
  ]
]

-- what a creation that does not throw found and left
pub record Created (env : Env) (input : SessionInput) (db db' : AuthDb) (row : SessionRow)
    : Type 0 where
  pub old : Option SessionRow
  pub mid : AuthDb
  pub before : Replaced env input db old mid
  pub fresh :
      any (λ s. has_token input.token_hash s || str_eq s.id (env.uuid 0)) mid.sessions ≡ false
  pub made : row ≡ new_session env input old
  pub sessions : db'.sessions ≡ mid.sessions ++ row ∷ []
  pub transactions : db'.transactions ≡ mid.transactions

pub create_session_inv :
    (env : Env) (input : SessionInput) (db db' : AuthDb) (row : SessionRow)
    → create_session_task env input db ≡ ok (row, db')
    → Created env input db db' row
unfolding create_session_task insert_session
create_session_inv env input db db' row h = elim (Result-cases (replace_session env input db)) [
  | inl ((old, mid), e) ↦ record {
    old = old;
    mid = mid;
    before = replace_inv env input db mid old e;
    fresh = ground (arith, h, e);
    made = ground (arith, h, e);
    sessions = ground (arith, h, e);
    transactions = ground (arith, h, e);
  }
  | inr (x, e) ↦ absurd (ground (arith, h, e))
]
