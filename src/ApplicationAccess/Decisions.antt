-- ===== src/ApplicationAccess/Decisions.antt =====
-- Who may use an application, after each operation.
use sq_hub.Common.{
  ◌≡◌, ◌≢◌, ◌↔◌, refl, sym, ◌∙◌, ap, subst, arith, String, Option, none, some, Bool, true, false,
  ◌&&◌, find?, str_eq, eq_iff, find?-upsert, find?-upsert-other, Option-cases, Bool-cases, inl, inr,
  transaction,
}
use sq_hub.Common.Identity.{Identity, Env, same_identity, same_identity_iff, same_identity_refl}
use sq_hub.ApplicationAccess.{
  ApplicationStatus, AccessStatus, active, revoked, ApplicationRow, ApplicationUpsertInput,
  AccessRow, AccessInput, AccessDb, has_key, new_application, updated_application,
  upsert_application, access_of, new_access, updated_access, write_access, set_access_task,
  set_access, AccessDecision, active_grant, grant_revoked, application_inactive, allowed, on_access,
  on_application, check_access,
}

-- A person may use an application exactly when it is known and active and their row for it is active.
pub check_access_iff :
    (i : Identity) (key : String) (db : AccessDb)
    → (allowed (check_access i key db) ≡ true) ↔ (
        (a : ApplicationRow) × (r : AccessRow) × (find? (has_key key) db.applications ≡ some a)
        × (a.status ≡ ApplicationStatus.active)
        × (find? (access_of i a.id) db.access ≡ some r)
        × (r.status ≡ AccessStatus.active))
unfolding check_access
check_access_iff i key db = (forward, backward)
  where
    forward :
        allowed (check_access i key db) ≡ true
        → (a : ApplicationRow) × (r : AccessRow) × (find? (has_key key) db.applications ≡ some a)
          × (a.status ≡ ApplicationStatus.active)
          × (find? (access_of i a.id) db.access ≡ some r)
          × (r.status ≡ AccessStatus.active)
    forward h = elim (Option-cases (find? (has_key key) db.applications)) [
      | inl e ↦ absurd (ground (arith, h, e))
      | inr (a, e) ↦ elim (Option-cases (find? (access_of i a.id) db.access)) [
        | inl f ↦ absurd (ground (arith, h, e, f))
        | inr (r, f) ↦ (a, r, e, ground (arith, h, e, f), f, ground (arith, h, e, f))
      ]
    ]

    backward :
        (a : ApplicationRow) × (r : AccessRow) × (find? (has_key key) db.applications ≡ some a)
          × (a.status ≡ ApplicationStatus.active)
          × (find? (access_of i a.id) db.access ≡ some r)
          × (r.status ≡ AccessStatus.active)
        → allowed (check_access i key db) ≡ true
    backward (a, r, e, live, f, on) = ground (arith, e, live, f, on)

abbrev pub granted : AccessStatus → AccessDecision
granted active = active_grant
granted revoked = grant_revoked

set_access_of :
    (env : Env) (input : AccessInput) (db : AccessDb) (a : ApplicationRow)
    → find? (has_key input.application_key) db.applications ≡ some a
    → (set_access env input db).0 ≡ write_access env input a.id db
unfolding set_access set_access_task
set_access_of env input db a h = rw (h, transaction) refl

access-hit :
    (env : Env) (input : AccessInput) (id : String) (db : AccessDb)
    → find? (access_of input.identity id) (write_access env input id db).access
      ≡ some (elim (find? (access_of input.identity id) db.access) [
        | none ↦ new_access env input id
        | some r ↦ updated_access env input r
      ])
unfolding write_access
access-hit env input id db =
    find?-upsert (access_of input.identity id) (new_access env input id) (updated_access env input)
      db.access (ground (arith, same_identity_refl input.identity, eq_iff id id)) (λ r e. e)

access-other :
    (env : Env) (input : AccessInput) (id id' : String) (j : Identity) (db : AccessDb)
    → j ≢ input.identity
    → find? (access_of j id') (write_access env input id db).access
      ≡ find? (access_of j id') db.access
unfolding write_access
access-other env input id id' j db other =
    find?-upsert-other (access_of input.identity id) (access_of j id') (new_access env input id)
      (updated_access env input) db.access (foreign input.identity (str_eq id id') refl)
      (λ r e. (
        foreign r.identity (str_eq r.application_id id') (theirs r e),
        foreign r.identity (str_eq r.application_id id') (theirs r e),
      ))
  where
    foreign : (k : Identity) (b : Bool) → k ≡ input.identity → (same_identity k j && b) ≡ false
    foreign k b e = elim (Bool-cases (same_identity k j)) [
      | inl f ↦ absurd (other (sym ((same_identity_iff k j).0 f) ∙ e))
      | inr f ↦ rw f refl
    ]

    theirs : (r : AccessRow) → access_of input.identity id r ≡ true → r.identity ≡ input.identity
    theirs r e = (same_identity_iff r.identity input.identity).0 (ground (arith, e))

decided-access :
    (env : Env) (input : AccessInput) (db : AccessDb) (a : ApplicationRow)
    → find? (has_key input.application_key) db.applications ≡ some a
    → check_access input.identity input.application_key (write_access env input a.id db)
      ≡ on_application a.status (granted input.status)
unfolding check_access write_access
decided-access env input db a h =
    rw (h, check_access, access-hit env input a.id db)
      (on_hit (find? (access_of input.identity a.id) db.access))
  where
    on_hit :
        (old : Option AccessRow)
        → on_application a.status (
            on_access (
              some (elim old [
                | none ↦ new_access env input a.id
                | some r ↦ updated_access env input r
              ])))
          ≡ on_application a.status (granted input.status)
    on_hit none = ground arith
    on_hit (some r) = ground arith

same-access :
    (env : Env) (input : AccessInput) (id : String) (j : Identity) (key : String) (db : AccessDb)
    → j ≢ input.identity
    → check_access j key (write_access env input id db) ≡ check_access j key db
unfolding check_access write_access
same-access env input id j key db other =
    elim (Option-cases (find? (has_key key) db.applications)) [
      | inl e ↦ rw (e, check_access) refl
      | inr (a, e) ↦ rw (e, check_access, access-other env input id a.id j db other) refl
    ]

-- On a known application `setAccess` decides for its person and application, and changes no decision about
-- anybody else.
pub check_access-set_access :
    (env : Env) (input : AccessInput) (db : AccessDb) (a : ApplicationRow)
    → find? (has_key input.application_key) db.applications ≡ some a
    → (check_access input.identity input.application_key (set_access env input db).0
        ≡ on_application a.status (granted input.status))
      × ((j : Identity) (key : String)
          → j ≢ input.identity
          → check_access j key (set_access env input db).0 ≡ check_access j key db)
check_access-set_access env input db a h = (for_them, for_others)
  where
    i : Identity
    i = input.identity

    written : (set_access env input db).0 ≡ write_access env input a.id db
    written = rw (set_access_of env input db a h) refl

    for_them :
        check_access i input.application_key (set_access env input db).0
        ≡ on_application a.status (granted input.status)
    for_them =
        subst
          (λ d.
            check_access i input.application_key d ≡ on_application a.status (granted input.status))
          (sym written) (decided-access env input db a h)

    for_others :
        (j : Identity) (key : String)
        → j ≢ input.identity
        → check_access j key (set_access env input db).0 ≡ check_access j key db
    for_others j key other =
        subst (λ d. check_access j key d ≡ check_access j key db) (sym written)
          (same-access env input a.id j key db other)

applications-upsert :
    (env : Env) (input : ApplicationUpsertInput) (db : AccessDb)
    → find? (has_key input.application_key) (upsert_application env input db).applications
      ≡ some (elim (find? (has_key input.application_key) db.applications) [
        | none ↦ new_application env input
        | some a ↦ updated_application input a
      ])
unfolding upsert_application
applications-upsert env input db =
    find?-upsert (has_key input.application_key) (new_application env input)
      (updated_application input) db.applications
      (ground (arith, eq_iff input.application_key input.application_key)) (λ a e. e)

check_access-known :
    (i : Identity) (key : String) (db : AccessDb) (a : ApplicationRow)
    → find? (has_key key) db.applications ≡ some a
    → check_access i key db
      ≡ on_application a.status (on_access (find? (access_of i a.id) db.access))
unfolding check_access
check_access-known i key db a e = rw (e, check_access) refl

upserted :
    (env : Env) (input : ApplicationUpsertInput) (db : AccessDb) (a : ApplicationRow)
    → find? (has_key input.application_key) db.applications ≡ some a
    → find? (has_key input.application_key) (upsert_application env input db).applications
      ≡ some (updated_application input a)
upserted env input db a e = rw (applications-upsert env input db, e) refl

-- An application that is switched off admits nobody, and switching it on again by another upsert brings back
-- the decisions that stood before for everybody; neither touches a row of access.
pub check_access-upsert_application :
    (env env' : Env) (off on : ApplicationUpsertInput) (db : AccessDb) (a : ApplicationRow)
    (i : Identity)
    → find? (has_key off.application_key) db.applications ≡ some a
    → a.status ≡ ApplicationStatus.active
    → off.status ≡ ApplicationStatus.inactive
    → on.status ≡ ApplicationStatus.active
    → on.application_key ≡ off.application_key
    → (check_access i off.application_key (upsert_application env off db) ≡ application_inactive)
      × (check_access i off.application_key
            (upsert_application env' on (upsert_application env off db))
          ≡ check_access i off.application_key db)
      × ((upsert_application env off db).access ≡ db.access)
      × ((upsert_application env' on (upsert_application env off db)).access ≡ db.access)
unfolding upsert_application
check_access-upsert_application env env' off on db a i h live closed opened same = (
  check_access-known i off.application_key mid (updated_application off a) first
      ∙ ap (λ s. on_application s (on_access (find? (access_of i a.id) db.access))) closed,
  check_access-known i off.application_key last (updated_application on (updated_application off a))
        second
      ∙ ap (λ s. on_application s (on_access (find? (access_of i a.id) db.access)))
          (opened ∙ sym live)
      ∙ sym (check_access-known i off.application_key db a h),
  refl,
  refl,
)
  where
    mid : AccessDb
    mid = upsert_application env off db

    last : AccessDb
    last = upsert_application env' on mid

    first : find? (has_key off.application_key) mid.applications ≡ some (updated_application off a)
    first = upserted env off db a h

    second :
        find? (has_key off.application_key) last.applications
        ≡ some (updated_application on (updated_application off a))
    second =
        subst
          (λ k.
            find? (has_key k) last.applications
            ≡ some (updated_application on (updated_application off a)))
          same
          (upserted env' on mid (updated_application off a) (
            subst (λ k. find? (has_key k) mid.applications ≡ some (updated_application off a))
              (sym same) first))
