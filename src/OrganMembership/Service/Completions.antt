-- ===== src/OrganMembership/Service/Completions.antt =====
-- What `completeMembership` and `addExistingStaff` of apps/api/src/modules/organ-membership/service.ts achieve.
use sq_hub.Common.{
  ℕ, suc, String, some, List, [], ◌∷◌, ◌++◌, Bool, true, false, ◌≡◌, refl, sym, subst, inl, inr,
  any, find?, All, All-map, Bool-cases, Option-cases, is_some, arith, Result, ok,
}
use sq_hub.Common.Identity.{Identity, Env}
use sq_hub.ApplicationAccess.{
  AccessStatus, ApplicationRow, AccessRow, AccessDb, has_key, check_access, allowed, get_access,
  grant_access,
}
use sq_hub.ApplicationAccess.Grants.{
  grant-applications, grant-allowed, grant-given, get_access-allowed,
}
use sq_hub.OrganMembership.Service.{
  OrganStep, application_access, all_done, Reply, OrganSystem, CompletionInput, has_active,
  grant_input, on_grant, is_failed, grant_one, grant_all, finish, OrganError,
}
use sq_hub.OrganMembership.Store.{MembershipRow, get_active}
use sq_hub.OrganMembership.Service.Selections.{Registered}

-- Access to an application that one turn of the loop gives, or finds given; it fails for none registered.
Served : CompletionInput → ApplicationRow → AccessDb × OrganStep → Type 0
Served input a r =
    (allowed (check_access input.identity a.application_key r.0) ≡ true) × (is_failed r.1 ≡ false)

grant_one-Served :
    (env : Env) (input : CompletionInput) (a : ApplicationRow) (db : AccessDb)
    → Registered db a
    → Served input a (grant_one env input a db)
unfolding grant_one Served
grant_one-Served env input a db (known, live) =
    elim (Option-cases (get_access input.identity a.application_key db)) [
      | inl e ↦ rw (e, grant_one) (given (grant-given env (grant_input input a) db a known live))
      | inr (r, e) ↦ elim (Bool-cases (has_active (some r))) [
        | inl t ↦
            rw (e, t, grant_one)
              (
                get_access-allowed input.identity a.application_key db a r known live e (on r t),
                refl,
              )
        | inr t ↦
            rw (e, t, grant_one) (given (grant-given env (grant_input input a) db a known live))
      ]
    ]
  where
    on : (r : AccessRow) → has_active (some r) ≡ true → r.status ≡ AccessStatus.active
    on r t = active_status r.status t
      where
        active_status :
            (s : AccessStatus)
            → elim s [ AccessStatus.active ↦ true | AccessStatus.revoked ↦ false ] ≡ true
            → s ≡ AccessStatus.active
        active_status AccessStatus.active k = refl
        active_status AccessStatus.revoked k = cc

    given :
        ((grant_access env (grant_input input a) db).1 ≡ ok tt)
          × (allowed (
                check_access input.identity a.application_key
                  (grant_access env (grant_input input a) db).0)
              ≡ true)
        → Served input a (
          (grant_access env (grant_input input a) db).0,
          record {
            kind = application_access;
            target = a.application_key;
            status = on_grant (grant_access env (grant_input input a) db).1;
          },
        )
    given (done, has) = (has, rw done refl)

grant_one-applications :
    (env : Env) (input : CompletionInput) (a : ApplicationRow) (db : AccessDb)
    → (grant_one env input a db).0.applications ≡ db.applications
unfolding grant_one
grant_one-applications env input a db =
    elim (Bool-cases (has_active (get_access input.identity a.application_key db))) [
      | inl t ↦ rw (t, grant_one) refl
      | inr t ↦ rw (t, grant_one) (grant-applications env (grant_input input a) db)
    ]

grant_one-allowed :
    (env : Env) (input : CompletionInput) (a : ApplicationRow) (db : AccessDb) (i : Identity)
    (key : String)
    → allowed (check_access i key db) ≡ true
    → allowed (check_access i key (grant_one env input a db).0) ≡ true
unfolding grant_one
grant_one-allowed env input a db i key h =
    elim (Bool-cases (has_active (get_access input.identity a.application_key db))) [
      | inl t ↦ rw (t, grant_one) h
      | inr t ↦ rw (t, grant_one) (grant-allowed env (grant_input input a) db i key h)
    ]

grant_all-allowed :
    (envs : ℕ → Env) (input : CompletionInput) (as' : List ApplicationRow) (db : AccessDb)
    (i : Identity) (key : String)
    → allowed (check_access i key db) ≡ true
    → allowed (check_access i key (grant_all envs input as' db).0) ≡ true
unfolding grant_all
grant_all-allowed envs input [] db i key h = h
grant_all-allowed envs input (a ∷ as') db i key h =
    grant_all-allowed (λ n. envs (suc n)) input as' (grant_one (envs 0) input a db).0 i key
      (grant_one-allowed (envs 0) input a db i key h)

-- The loop gives access to each of its applications, and none of its steps fails.
grant_all-Served :
    (envs : ℕ → Env) (input : CompletionInput) (as' : List ApplicationRow) (db : AccessDb)
    → All (Registered db) as'
    → All
        (λ a.
          allowed (check_access input.identity a.application_key (grant_all envs input as' db).0)
          ≡ true)
        as'
      × (any is_failed (grant_all envs input as' db).1 ≡ false)
unfolding grant_all Served
grant_all-Served envs input [] db h = (tt, refl)
grant_all-Served envs input (a ∷ as') db (r, rs) =
    let next : AccessDb = (grant_one (envs 0) input a db).0 in
    let (has, fine) = grant_one-Served (envs 0) input a db r in
    let kept : All (Registered next) as' =
      All-map (Registered db) (Registered next) as'
        (λ b (known, live). (
          subst (λ xs. find? (has_key b.application_key) xs ≡ some b)
              (sym (grant_one-applications (envs 0) input a db)) known,
          live,
        ))
        rs in
    let (others, none_failed) = grant_all-Served (λ n. envs (suc n)) input as' next kept in
    (
      (
        grant_all-allowed (λ n. envs (suc n)) input as' next input.identity a.application_key has,
        others,
      ),
      rw (fine, none_failed) refl,
    )

pub any-append :
    {A : Type 0} (p : A → Bool) (xs ys : List A)
    → any p xs ≡ false
    → any p ys ≡ false
    → any p (xs ++ ys) ≡ false
any-append p [] ys h k = k
any-append p (x ∷ xs) ys h k = ground (arith, h, any-append p xs ys, k)

-- What a completed request has brought about.
abbrev pub Done : CompletionInput → OrganSystem × Result OrganError Reply → Type 0
Done input r =
    (reply : Reply) × (r.1 ≡ ok reply)
    × (reply.outcome ≡ all_done)
    × (is_some (get_active input.identity r.0.organ) ≡ true)
    × All (λ a. allowed (check_access input.identity a.application_key r.0.access) ≡ true)
        input.applications

pub finish-Done :
    (envs : ℕ → Env) (input : CompletionInput) (steps : List OrganStep) (m : MembershipRow)
    (sys : OrganSystem)
    → any is_failed steps ≡ false
    → is_some (get_active input.identity sys.organ) ≡ true
    → All (Registered sys.access) input.applications
    → Done input (finish envs input steps m sys)
unfolding finish
finish-Done envs input steps m sys fine seated known =
    let (has, none_failed) = grant_all-Served envs input input.applications sys.access known in
    (
      _,
      refl,
      rw
          (any-append is_failed steps (grant_all envs input input.applications sys.access).1 fine
            none_failed)
          refl,
      seated,
      has,
    )
