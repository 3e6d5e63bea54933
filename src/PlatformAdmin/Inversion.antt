-- ===== src/PlatformAdmin/Inversion.antt =====
-- What a success of `confirm`, `cancel` and `propose` tells about the tables before and after it.
use sq_hub.Common.{
  ◌<◌, some, List, [], ◌∷◌, ◌++◌, true, false, ◌≡◌, ◌≢◌, arith, Option-cases, Result-cases, any,
  find?, update_where, upsert, ok, String, inl, inr,
}
use sq_hub.Common.Identity.{Identity, Env, same_identity_iff}
use sq_hub.PlatformAdmin.Store.{
  AdminStatus, Membership, ProposalRow, pending, confirmed, cancelled, Db, of_identity, is_active,
  activated_row, reactivated_row, activate, insert_audit, get_membership,
}
use sq_hub.PlatformAdmin.Proposals.{
  Proposal, ProposeInput, DecideInput, has_id, pending_of, lapsed_of, expire_row, proposed_row,
  granted_input, decided_row, holds_role, map_get, identity_key, lock_memberships, check_confirm,
  confirm_task, cancel_task, propose_task, insert_proposal, lock_proposal,
}

-- the statuses that `confirm` locks
abbrev pub locked : Identity → ProposalRow → Db → List (String × AdminStatus)
locked c p db = lock_memberships (c ∷ p.proposer ∷ p.identity ∷ []) db

pub record Checked (env : Env) (c : Identity) (p : ProposalRow) (db : Db) : Type 0 where
  pub waiting : p.status ≡ pending
  pub in_time : env.node < p.expires_at
  pub not_proposer : c ≢ p.proposer
  pub not_candidate : c ≢ p.identity
  pub confirmer_active : holds_role (map_get (identity_key c) (locked c p db)) ≡ true
  pub proposer_active : holds_role (map_get (identity_key p.proposer) (locked c p db)) ≡ true
  pub candidate_inactive : holds_role (map_get (identity_key p.identity) (locked c p db)) ≡ false

check_confirm_inv :
    (env : Env) (c : Identity) (p : ProposalRow) (db : Db) {u : Unit {0}} {db' : Db}
    → check_confirm env c p db ≡ ok (u, db')
    → Checked env c p db × (db' ≡ db)
unfolding check_confirm
check_confirm_inv env c p db h = (
  record {
    waiting = ground arith;
    in_time = ground arith;
    not_proposer = ground (arith, same_identity_iff c p.proposer);
    not_candidate = ground (arith, same_identity_iff c p.identity);
    confirmer_active = ground arith;
    proposer_active = ground arith;
    candidate_inactive = ground arith;
  },
  ground arith,
)

-- The administrators and the proposals after a confirmation.
pub record Confirmed (env : Env) (input : DecideInput) (db db' : Db) : Type 0 where
  pub proposal : ProposalRow
  pub found : find? (has_id input.proposal_id) db.proposals ≡ some proposal
  pub checked : Checked env input.decider proposal db
  pub admins :
      db'.admins
      ≡ upsert
          (of_identity proposal.identity)
          (activated_row env (env.uuid 0) (granted_input proposal input.actor))
          (reactivated_row env (granted_input proposal input.actor))
          db.admins
  pub proposals :
      db'.proposals
      ≡ update_where (has_id proposal.id) (decided_row env confirmed input.decider) db.proposals

pub confirm_inv :
    (sha256 : String → String) (env : Env) (input : DecideInput) (db : Db) {db' : Db}
    {r : Proposal × Membership}
    → confirm_task sha256 env input db ≡ ok (r, db')
    → Confirmed env input db db'
unfolding confirm_task lock_proposal activate insert_audit
confirm_inv sha256 env input db {db'} {r} h =
    elim (Option-cases (find? (has_id input.proposal_id) db.proposals)) [
      | inl missing ↦ absurd (ground arith)
      | inr (p, found) ↦ elim (Result-cases (check_confirm env input.decider p db)) [
        | inl (done, passed) ↦
            let (checked, same) = check_confirm_inv env input.decider p db passed in
            record {
              proposal = p;
              found = found;
              checked = checked;
              admins = ground arith;
              proposals = ground arith;
            }
        | inr (e, refused) ↦ absurd (ground arith)
      ]
    ]

-- The tables after a cancellation.
pub record Cancelled (env : Env) (input : DecideInput) (db db' : Db) : Type 0 where
  pub proposal : ProposalRow
  pub found : find? (has_id input.proposal_id) db.proposals ≡ some proposal
  pub waiting : proposal.status ≡ pending
  pub admins : db'.admins ≡ db.admins
  pub proposals :
      db'.proposals
      ≡ update_where (has_id proposal.id) (decided_row env cancelled input.decider) db.proposals

pub cancel_inv :
    (sha256 : String → String) (env : Env) (input : DecideInput) (db : Db) {db' : Db} {r : Proposal}
    → cancel_task sha256 env input db ≡ ok (r, db')
    → Cancelled env input db db'
unfolding cancel_task lock_proposal insert_audit
cancel_inv sha256 env input db h =
    elim (Option-cases (find? (has_id input.proposal_id) db.proposals)) [
      | inl missing ↦ absurd (ground arith)
      | inr (p, found) ↦ record {
        proposal = p;
        found = found;
        waiting = ground arith;
        admins = ground arith;
        proposals = ground arith;
      }
    ]

-- the proposals without those of the candidate that have lapsed
abbrev pub swept : Env → ProposeInput → Db → List ProposalRow
swept env input db = update_where (lapsed_of env input.identity) (expire_row env) db.proposals

-- The tables after a proposal.
pub record Proposed (env : Env) (input : ProposeInput) (db db' : Db) : Type 0 where
  pub candidate_inactive :
      (m : Membership) → get_membership input.identity db ≡ some m → is_active m.status ≡ false
  pub lasts : env.db < input.expires_at
  pub not_self : input.proposer ≢ input.identity
  pub fresh : any (has_id (env.uuid 0)) (swept env input db) ≡ false
  pub alone : any (pending_of input.identity) (swept env input db) ≡ false
  pub admins : db'.admins ≡ db.admins
  pub proposals : db'.proposals ≡ swept env input db ++ proposed_row env (env.uuid 0) input ∷ []

pub propose_inv :
    (sha256 : String → String) (env : Env) (input : ProposeInput) (db : Db) {db' : Db}
    {r : Proposal}
    → propose_task sha256 env input db ≡ ok (r, db')
    → Proposed env input db db'
unfolding propose_task insert_proposal insert_audit
propose_inv sha256 env input db h = record {
  candidate_inactive = λ m e. ground arith;
  lasts = ground arith;
  not_self = ground (arith, same_identity_iff input.proposer input.identity);
  fresh = ground arith;
  alone = ground arith;
  admins = ground arith;
  proposals = ground arith;
}
