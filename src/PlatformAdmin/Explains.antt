-- ===== src/PlatformAdmin/Explains.antt =====
-- Who is a platform administrator after one operation, and why.
use sq_hub.Common.{
  ◌≡◌, ◌⊎◌, refl, sym, ◌∙◌, arith, true, List, [], ◌∷◌, Some, Some-of_upsert, Some-of_update_where,
  Some-update_where, Some-hit_update_where, eq_iff, Some-append, All, inl, String,
}
use sq_hub.Common.Identity.{Identity, Env, same_identity_iff}
use sq_hub.PlatformAdmin.Store.{
  active, revoked, confirmed, cancelled, ProposalRow, Db, GrantInput, of_identity, active_of,
  activated_row, reactivated_row, revoked_row, revoke,
}
use sq_hub.PlatformAdmin.Proposals.{
  DecideInput, ProposeInput, has_id, lapsed_of, expire_row, decided_row, granted_input,
}
use sq_hub.PlatformAdmin.Invariant.{WellFormed}
use sq_hub.PlatformAdmin.Inversion.{Confirmed, Cancelled, Proposed, swept}
use sq_hub.PlatformAdmin.Preserved.{only_row}
use sq_hub.PlatformAdmin.FourEyes.{IsAdmin}

-- a confirmed proposal for the identity
abbrev pub IsConfirmedFor : Identity → ProposalRow → Type 0
IsConfirmedFor i p = (p.identity ≡ i) × (p.status ≡ confirmed)

abbrev pub HasConfirmed : Identity → Db → Type 0
HasConfirmed i db = Some (IsConfirmedFor i) db.proposals

-- One step: confirmed proposals stay, and a new administrator has one.
pub record Explains (i : Identity) (db db' : Db) : Type 0 where
  pub keeps : HasConfirmed i db → HasConfirmed i db'
  pub explains : IsAdmin i db' → IsAdmin i db ⊎ HasConfirmed i db'

pub Explains-refl : (i : Identity) (db : Db) → Explains i db db
Explains-refl i db = record { keeps = λ h. h; explains = λ h. inl h }

pub Confirmed-Explains :
    (i : Identity) (env : Env) (input : DecideInput) (db db' : Db)
    → WellFormed db
    → Confirmed env input db db'
    → Explains i db db'
Confirmed-Explains i env input db db' w c = record {
  keeps = λ h. rw c.proposals (
      Some-update_where (IsConfirmedFor i) (λ x. has_id p.id x ≡ true → x ≡ p) (has_id p.id)
        (decided_row env confirmed input.decider) db.proposals (λ x e _ k. (k.0, refl))
        (only_row input.proposal_id db.proposals p w.ids_unique c.found) h);
  explains = λ h.
      Some-of_upsert (λ m. (m.identity ≡ i) × (m.status ≡ active)) (HasConfirmed i db')
        (of_identity p.identity) (activated_row env (env.uuid 0) (granted_input p input.actor))
        (reactivated_row env (granted_input p input.actor)) db.admins (λ k. made k.0)
        (λ m e k. made (sym ((same_identity_iff m.identity p.identity).0 e) ∙ k.0))
        (rw c.admins at h);
}
  where
    p : ProposalRow
    p = c.proposal

    made : p.identity ≡ i → HasConfirmed i db'
    made e = rw c.proposals (
        Some-hit_update_where (IsConfirmedFor i) (has_id input.proposal_id) (has_id p.id)
          (decided_row env confirmed input.decider) db.proposals c.found ((eq_iff p.id p.id).1 refl)
          (e, refl))

-- A row that is still pending is no confirmed one.
pub Cancelled-Explains :
    (i : Identity) (env : Env) (input : DecideInput) (db db' : Db)
    → WellFormed db
    → Cancelled env input db db'
    → Explains i db db'
Cancelled-Explains i env input db db' w c = record {
  keeps = λ h. rw c.proposals (
      Some-update_where (IsConfirmedFor i) (λ x. has_id c.proposal.id x ≡ true → x ≡ c.proposal)
        (has_id c.proposal.id) (decided_row env cancelled input.decider) db.proposals
        (λ x e same k. absurd (differ (same e) k.1))
        (only_row input.proposal_id db.proposals c.proposal w.ids_unique c.found) h);
  explains = λ h. inl (rw c.admins at h);
}
  where
    differ : {x : ProposalRow} → x ≡ c.proposal → x.status ≡ confirmed → ⊥
    differ e k = ground (arith, c.waiting)

pub Proposed-Explains :
    (i : Identity) (env : Env) (input : ProposeInput) (db db' : Db)
    → Proposed env input db db'
    → Explains i db db'
Proposed-Explains i env input db db' c = record {
  keeps = λ h. rw c.proposals (
      Some-append (IsConfirmedFor i) (swept env input db) _ (
        Some-update_where (IsConfirmedFor i) (λ x. Unit {0}) (lapsed_of env input.identity)
          (expire_row env) db.proposals (λ x e _ k. absurd (differ x e k.1)) (units db.proposals)
          h));
  explains = λ h. inl (rw c.admins at h);
}
  where
    differ : (x : ProposalRow) → lapsed_of env input.identity x ≡ true → x.status ≡ confirmed → ⊥
    differ x e k = ground arith

    units : (xs : List ProposalRow) → All (λ x. Unit {0}) xs
    units [] = tt
    units (x ∷ xs) = (tt, units xs)

pub revoke-Explains :
    (sha256 : String → String) (i : Identity) (env : Env) (input : GrantInput) (db : Db)
    → Explains i db (revoke sha256 env input db).0
unfolding revoke
revoke-Explains sha256 i env input db = record {
  keeps = λ h. h;
  explains = λ h. inl (
      Some-of_update_where (λ m. (m.identity ≡ i) × (m.status ≡ active)) (active_of input.identity)
        (revoked_row env input) db.admins (λ m e k. absurd (off k.1)) h);
}
  where
    off : revoked ≡ active → ⊥
    off e = cc
