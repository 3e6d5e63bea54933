-- ===== src/PlatformAdmin/Sessions.antt =====
-- What a change of the membership table means for the sessions that are open.
use sq_hub.Common.{
  ℕ, ◌≤◌, ◌≡◌, ◌↔◌, arith, true, false, some, none, find?, find?-test, find?-upsert, All-find?,
  All-failed_update_where, update_where, Option-cases, inl, inr, ltb, ok, err, if◌then◌else◌,
  String,
}
use sq_hub.Common.Identity.{Env, same_identity, same_identity_refl}
use sq_hub.PlatformAdmin.Store.{
  active, Membership, Db, GrantInput, is_active, of_identity, active_of, activated_row,
  reactivated_row, revoked_row, get_membership, grant, revoke,
}
use sq_hub.PlatformAdmin.Service.{Session, admin_forbidden, admin_reauth_required, authorize}

-- A session may use the Admin Center exactly when its identity has an active membership that was
-- granted no later than the session began.
pub authorize_iff :
    (s : Session) (db : Db)
    → (authorize s db ≡ ok tt) ↔ (
        (m : Membership) × (get_membership s.identity db ≡ some m)
        × (m.status ≡ active)
        × ((g : ℕ) × (m.granted_at ≡ some g) × (g ≤ s.created_at)))
unfolding authorize
authorize_iff s db = (forth, back)
  where
    forth :
        authorize s db ≡ ok tt
        → (m : Membership) × (get_membership s.identity db ≡ some m)
          × (m.status ≡ active)
          × ((g : ℕ) × (m.granted_at ≡ some g) × (g ≤ s.created_at))
    forth h = elim (Option-cases (get_membership s.identity db)) [
      | inl missing ↦ absurd (ground arith)
      | inr (m, found) ↦ elim (Option-cases m.granted_at) [
        | inl never ↦ absurd (ground arith)
        | inr (g, granted) ↦ (m, found, ground arith, (g, granted, ground arith))
      ]
    ]

    back :
        (m : Membership) × (get_membership s.identity db ≡ some m)
          × (m.status ≡ active)
          × ((g : ℕ) × (m.granted_at ≡ some g) × (g ≤ s.created_at))
        → authorize s db ≡ ok tt
    back (m, found, on, (g, granted, old)) = ground arith

-- After a grant a session of the identity may use the Admin Center exactly when it began no earlier
-- than the grant; an earlier one is asked to sign in again.
pub authorize-grant :
    (sha256 : String → String) (env : Env) (input : GrantInput) (s : Session) (db : Db)
    → s.identity ≡ input.identity
    → authorize s (grant sha256 env input db).0
      ≡ (if ltb s.created_at env.node then err admin_reauth_required else ok tt)
unfolding authorize grant
authorize-grant sha256 env input s db same =
    elim (Option-cases (find? (of_identity input.identity) db.admins)) [
      | inl fresh ↦ ground (arith, found)
      | inr (m, old) ↦ ground (arith, found)
    ]
  where
    found :
        find? (of_identity s.identity) (grant sha256 env input db).0.admins
        ≡ some (elim (find? (of_identity input.identity) db.admins) [
          | none ↦ activated_row env (env.uuid 0) input
          | some m ↦ reactivated_row env input m
        ])
    found = rw same (
        find?-upsert (of_identity input.identity) (activated_row env (env.uuid 0) input)
          (reactivated_row env input) db.admins (same_identity_refl input.identity) (λ m e. e))

-- After a revocation no session of the identity may use the Admin Center, however it began.
pub authorize-revoke :
    (sha256 : String → String) (env : Env) (input : GrantInput) (s : Session) (db : Db)
    → s.identity ≡ input.identity
    → authorize s (revoke sha256 env input db).0 ≡ err admin_forbidden
unfolding authorize revoke get_membership
authorize-revoke sha256 env input s db same =
    elim (Option-cases (get_membership s.identity (revoke sha256 env input db).0)) [
      | inl missing ↦ ground arith
      | inr (m, found) ↦ ground (arith, revoked_now m found)
    ]
  where
    revoked_now :
        (m : Membership)
        → get_membership s.identity (revoke sha256 env input db).0 ≡ some m
        → is_active m.status ≡ false
    revoked_now m found =
        let off : active_of input.identity m ≡ false =
          All-find? (λ x. active_of input.identity x ≡ false) (of_identity s.identity)
            (update_where (active_of input.identity) (revoked_row env input) db.admins)
            (All-failed_update_where (active_of input.identity) (active_of input.identity)
              (revoked_row env input) db.admins (λ x e. ground arith) (λ x e. e))
            found in
        let on : same_identity m.identity s.identity ≡ true =
          find?-test (of_identity s.identity)
            (update_where (active_of input.identity) (revoked_row env input) db.admins) found in
        ground arith
