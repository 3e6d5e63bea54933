-- ===== src/PlatformAdmin/FourEyes.antt =====
-- The four-eyes rule: through the Hub an identity becomes a platform administrator only when a second
-- active administrator, who is neither the proposer nor the candidate, confirms.
use sq_hub.Common.{
  ◌<◌, ◌≡◌, ◌≢◌, refl, arith, true, some, List, [], ◌∷◌, Some, Some-map, Some-of_keep, Some-upsert,
  All, All-find?, All-keep, keep, map, eq_iff, Option-cases, Result-cases, inl, inr, find?, String,
  ok, Bool, false, subst,
}
use sq_hub.Common.Identity.{Identity, Env, same_identity_iff}
use sq_hub.PlatformAdmin.Store.{
  AdminStatus, active, pending, Membership, ProposalRow, Db, of_identity, activated_row,
  reactivated_row,
}
use sq_hub.PlatformAdmin.Proposals.{
  identity_key, map_get, lock_memberships, holds_role, among, DecideInput, Proposal, confirm,
  confirm_task, granted_input, has_id,
}
use sq_hub.PlatformAdmin.Inversion.{Confirmed, confirm_inv}
use sq_hub.PlatformAdmin.Keys.{NoBreak, identity_key-injective}

-- the identity is an active administrator
abbrev pub IsAdmin : Identity → Db → Type 0
IsAdmin i db = Some (λ m. (m.identity ≡ i) × (m.status ≡ active)) db.admins

abbrev row_entry : Membership → String × AdminStatus
row_entry m = (identity_key m.identity, m.status)

map_get_inv :
    (k : String) (rows : List Membership) {s : AdminStatus}
    → map_get k (map row_entry rows) ≡ some s
    → Some (λ m. (identity_key m.identity ≡ k) × (m.status ≡ s)) rows
unfolding map_get
map_get_inv k [] h = absurd (cc)
map_get_inv k (m ∷ rows) {s} h = elim (Option-cases (map_get k (map row_entry rows))) [
  | inl missing ↦ inl (ground (arith, eq_iff (identity_key m.identity) k), ground arith)
  | inr (w, later) ↦ inr (map_get_inv k rows (ground arith))
]

-- No issuer of the tables holds a line break.
pub record Plain (db : Db) : Type 0 where
  pub admins : All (λ m. NoBreak m.identity.issuer) db.admins
  pub proposers : All (λ p. NoBreak p.proposer.issuer) db.proposals

locked_active :
    (i : Identity) (ids : List Identity) (db : Db)
    → NoBreak i.issuer
    → All (λ m. NoBreak m.identity.issuer) db.admins
    → holds_role (map_get (identity_key i) (lock_memberships ids db)) ≡ true
    → IsAdmin i db
unfolding lock_memberships
locked_active i ids db plain plain_rows h =
    elim (Option-cases (map_get (identity_key i) (map row_entry (keep (among ids) db.admins)))) [
      | inl missing ↦ absurd (ground arith)
      | inr (s, found) ↦
          Some-of_keep (λ m. (m.identity ≡ i) × (m.status ≡ active)) (among ids) db.admins
            (Some-map (λ m. (identity_key m.identity ≡ identity_key i) × (m.status ≡ s))
              (λ m. (m.identity ≡ i) × (m.status ≡ active)) (λ m. NoBreak m.identity.issuer)
              (keep (among ids) db.admins)
              (λ m p (k, t). (identity_key-injective m.identity i p plain k, ground arith))
              (All-keep (λ m. NoBreak m.identity.issuer) (among ids) db.admins plain_rows)
              (map_get_inv (identity_key i) (keep (among ids) db.admins) found))
    ]

-- What a confirmation rests on.
pub record FourEyes (env : Env) (input : DecideInput) (db db' : Db) : Type 0 where
  pub proposal : ProposalRow
  pub found : find? (has_id input.proposal_id) db.proposals ≡ some proposal
  pub waiting : proposal.status ≡ pending
  pub in_time : env.node < proposal.expires_at
  pub second_person : input.decider ≢ proposal.proposer
  pub not_candidate : input.decider ≢ proposal.identity
  pub proposer_not_candidate : proposal.proposer ≢ proposal.identity
  pub confirmer_active : IsAdmin input.decider db
  pub proposer_active : IsAdmin proposal.proposer db
  pub candidate_active : IsAdmin proposal.identity db'

Confirmed-FourEyes :
    (env : Env) (input : DecideInput) (db db' : Db)
    → Plain db
    → NoBreak input.decider.issuer
    → Confirmed env input db db'
    → FourEyes env input db db'
Confirmed-FourEyes env input db db' plain line c = record {
  proposal = p;
  found = c.found;
  waiting = c.checked.waiting;
  in_time = c.checked.in_time;
  second_person = c.checked.not_proposer;
  not_candidate = c.checked.not_candidate;
  proposer_not_candidate = λ e. other e;
  confirmer_active = locked_active input.decider _ db line plain.admins c.checked.confirmer_active;
  proposer_active =
      locked_active p.proposer _ db
        (All-find? (λ q. NoBreak q.proposer.issuer) (has_id input.proposal_id) db.proposals
          plain.proposers c.found)
        plain.admins c.checked.proposer_active;
  candidate_active = rw c.admins (
      Some-upsert (λ m. (m.identity ≡ p.identity) × (m.status ≡ active)) (of_identity p.identity)
        (activated_row env (env.uuid 0) (granted_input p input.actor))
        (reactivated_row env (granted_input p input.actor)) db.admins (refl, refl)
        (λ m e. ((same_identity_iff m.identity p.identity).0 e, refl)));
}
  where
    p : ProposalRow
    p = c.proposal

    clash : {b : Bool} → b ≡ true → b ≡ false → ⊥
    clash h k = cc

    other : p.proposer ≡ p.identity → ⊥
    other e =
        clash
          (subst
            (λ i.
              holds_role (
                map_get (identity_key i)
                  (lock_memberships (input.decider ∷ p.proposer ∷ p.identity ∷ []) db))
              ≡ true)
            e c.checked.proposer_active)
          c.checked.candidate_inactive

-- A confirmation that succeeds was made in time on a pending proposal by an active administrator who is
-- neither its proposer nor its candidate, while the proposer, who is not the candidate either, was still an active
-- administrator; and it makes the candidate an active administrator. The issuers involved hold no line break.
pub confirm-FourEyes :
    (sha256 : String → String) (env : Env) (input : DecideInput) (db db' : Db)
    (r : Proposal × Membership)
    → Plain db
    → NoBreak input.decider.issuer
    → confirm sha256 env input db ≡ (db', ok r)
    → FourEyes env input db db'
unfolding confirm
confirm-FourEyes sha256 env input db db' r plain line h =
    elim (Result-cases (confirm_task sha256 env input db)) [
      | inl ((r', after), e) ↦
          Confirmed-FourEyes env input db db' plain line
            (confirm_inv sha256 env input db {r = r'} (ground arith))
      | inr (x, e) ↦ absurd (ground arith)
    ]
