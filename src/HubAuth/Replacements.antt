-- ===== src/HubAuth/Replacements.antt =====
-- The session that a login replaces: apps/api/src/modules/hub-auth/repository.ts.
use sq_hub.Common.{
  ℕ, ◌≡◌, ◌≢◌, ◌<◌, ◌≤◌, ◌⊎◌, refl, sym, ◌∙◌, ap, subst, arith, String, Option, none, some, List,
  [], ◌∷◌, ◌++◌, Bool, true, false, find?, str_eq, eq_iff, inl, inr, Bool-cases, Option-cases, All,
  All-append, All-map, All-any, Some, any, ◌||◌, update_where, find?-test,
}
use sq_hub.Common.Identity.{Env}
use sq_hub.HubAuth.Store.{
  SessionIdentity, SessionRow, AuthDb, truthy, SessionInput, replaceable, revoked_row, has_token,
  new_session,
}
use sq_hub.HubAuth.Creation.{Replaced}

-- a session that this login may not leave open
abbrev pub Closed : Env → String → SessionIdentity → SessionRow → Type 0
Closed env x i y =
    y.token_hash ≡ x
    → y.identity.issuer ≡ i.issuer
    → y.identity.subject ≡ i.subject
    → (y.revoked_at ≢ none) ⊎ (y.expires_at ≤ env.db)

module _ (env : Env) (x : String) (i : SessionIdentity) where
  Closed-swapped :
      (ys : List SessionRow)
      → All (Closed env x i) (update_where (replaceable env x i) (revoked_row env) ys)
  Closed-swapped [] = tt
  Closed-swapped (y ∷ ys) = elim (Bool-cases (replaceable env x i y)) [
    | inl e ↦ rw e (λ h a b. inl (λ k. cc), Closed-swapped ys)
    | inr e ↦ rw e (λ h a b. shut h a b e, Closed-swapped ys)
  ]
    where
      shut :
          y.token_hash ≡ x
          → y.identity.issuer ≡ i.issuer
          → y.identity.subject ≡ i.subject
          → replaceable env x i y ≡ false
          → (y.revoked_at ≢ none) ⊎ (y.expires_at ≤ env.db)
      shut h a b e = elim (Option-cases y.revoked_at) [
        | inr (t, f) ↦ inl (λ k. differ f k)
        | inl f ↦ inr (
            ground (
              arith,
              h,
              a,
              b,
              e,
              f,
              eq_iff y.token_hash x,
              eq_iff y.identity.issuer i.issuer,
              eq_iff y.identity.subject i.subject,
            ))
      ]
        where
          differ : {t : ℕ} {v : Option ℕ} → v ≡ some t → v ≡ none → ⊥
          differ p q = cc

  nothing_swapped :
      (ys : List SessionRow)
      → All (λ y. has_token x y ≡ false) (update_where (replaceable env x i) (revoked_row env) ys)
      → find? (replaceable env x i) ys ≡ none
  nothing_swapped [] h = refl
  nothing_swapped (y ∷ ys) h = elim (Bool-cases (replaceable env x i y)) [
    | inl e ↦ absurd (clash (rw e at h).0 e)
    | inr e ↦ rw e (nothing_swapped ys (rw e at h).1)
  ]
    where
      clash : has_token x y ≡ false → replaceable env x i y ≡ true → ⊥
      clash a b = ground (arith, a, b)

-- the session that a login replaces, before it and after it
pub record Replacing (env : Env) (x : String) (i : SessionIdentity) (before : List SessionRow)
    (db' : AuthDb) (new : SessionRow) : Type 0 where
  pub old : SessionRow
  pub stood : Some (λ y. y ≡ old) before
  pub token : old.token_hash ≡ x
  pub issuer : old.identity.issuer ≡ i.issuer
  pub subject : old.identity.subject ≡ i.subject
  pub not_revoked : old.revoked_at ≡ none
  pub alive : env.db < old.expires_at
  pub no_longer : new.expires_at ≡ old.expires_at
  pub closed : All (Closed env x i) db'.sessions

Some-find? :
    (p : SessionRow → Bool) (xs : List SessionRow) {s : SessionRow}
    → find? p xs ≡ some s
    → Some (λ y. y ≡ s) xs
Some-find? p [] h = absurd (cc)
Some-find? p (x ∷ xs) {s} h = elim (Bool-cases (p x)) [
  | inl e ↦ inl (first (rw e at h))
  | inr e ↦ inr (Some-find? p xs (rw e at h))
]
  where
    first : some x ≡ some s → x ≡ s
    first k = cc

pub replacing :
    (env : Env) (input : SessionInput) (x : String) (db db' mid : AuthDb) (new : SessionRow)
    (old : Option SessionRow)
    → truthy input.replace_session_token_hash ≡ some x
    → Replaced env input db old mid
    → any (λ s. has_token input.token_hash s || str_eq s.id (env.uuid 0)) mid.sessions ≡ false
    → new ≡ new_session env input old
    → db'.sessions ≡ mid.sessions ++ new ∷ []
    → Replacing env x input.identity db.sessions db' new
replacing env input x db db' mid new old wanted (inl (a, b, c)) fresh made stored =
    absurd (differ a wanted)
  where
    differ : {v : Option String} → v ≡ none → v ≡ some x → ⊥
    differ p q = cc
replacing env input x db db' mid new old wanted (inr (h, s, a, found, b, c)) fresh made stored =
    record {
      old = s;
      stood = Some-find? (replaceable env h i) db.sessions found;
      token = ground (arith, passed, same, eq_iff s.token_hash h);
      issuer = ground (arith, passed, eq_iff s.identity.issuer i.issuer);
      subject = ground (arith, passed, eq_iff s.identity.subject i.subject);
      not_revoked = ground (arith, passed);
      alive = ground (arith, passed);
      no_longer = rw (made, b) refl;
      closed =
          subst (λ ys. All (Closed env x i) ys) (sym stored)
            (All-append (Closed env x i) mid.sessions (new ∷ [])
              (subst (λ d. All (Closed env x i) d.sessions) (sym c)
                (subst
                  (λ k.
                    All (Closed env x i)
                      (update_where (replaceable env k i) (revoked_row env) db.sessions))
                  (sym same) (Closed-swapped env x i db.sessions)))
              (λ t _ _. absurd (other t), tt));
    }
  where
    i : SessionIdentity
    i = input.identity

    passed : replaceable env h i s ≡ true
    passed = find?-test (replaceable env h i) db.sessions found

    inner : some h ≡ some x → h ≡ x
    inner k = cc

    same : h ≡ x
    same = inner (sym a ∙ wanted)

    differ : {v : Option SessionRow} → v ≡ none → v ≡ some s → ⊥
    differ p q = cc

    without : All (λ y. has_token input.token_hash y ≡ false) mid.sessions
    without =
        All-map _ _ mid.sessions (λ y k. ground (arith, k))
          (All-any (λ y. has_token input.token_hash y || str_eq y.id (env.uuid 0)) mid.sessions
            fresh)

    other : new.token_hash ≡ x → ⊥
    other t =
        let token : input.token_hash ≡ h = sym (ap (λ y. y.token_hash) made) ∙ t ∙ sym same in
        differ
          (nothing_swapped env h i db.sessions (
            subst (λ d. All (λ y. has_token h y ≡ false) d.sessions) c
              (subst (λ k. All (λ y. has_token k y ≡ false) mid.sessions) token without)))
          found
