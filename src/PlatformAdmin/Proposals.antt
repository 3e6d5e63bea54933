-- ===== src/PlatformAdmin/Proposals.antt =====
-- apps/api/src/modules/platform-admin/proposals.ts: propose, confirm and cancel of
-- PgPlatformAdminProposalRepository, each one database transaction over locked rows.
use Prim.Native.String
use sq_hub.Common.{
  ℕ, String, Option, none, some, List, [], ◌∷◌, ◌++◌, map, Bool, true, false, not, ◌&&◌, ◌||◌, ltb,
  leb, any, keep, find?, update_where, str_eq, if◌then◌else◌, Result, ok, err, Tx, pure, ◌>>=◌,
  ◌>>◌, guard, modify, gets, transaction,
}
use sq_hub.Common.Identity.{Identity, ActorRef, succeeded, Env, same_identity}
use sq_hub.PlatformAdmin.Store.{
  AdminStatus, Membership, ProposalStatus, pending, confirmed, cancelled, expired, ProposalRow, Db,
  GrantInput, is_active, get_membership, activate, insert_audit, make_platform_admin_target_ref,
}

pub data ProposalError : Type 0 where
  self_proposal_forbidden already_active proposal_pending : ProposalError
  proposal_not_found proposal_not_pending proposal_expired : ProposalError
  same_admin_forbidden self_confirm_forbidden : ProposalError
  proposer_not_active confirmer_not_active : ProposalError
  -- any other error of the database, such as a failed CHECK
  storage : ProposalError

-- PlatformAdminProposalError.statusCode
abbrev pub status_code : ProposalError → ℕ
status_code proposal_not_found = 404
status_code self_proposal_forbidden = 403
status_code same_admin_forbidden = 403
status_code self_confirm_forbidden = 403
status_code storage = 500
status_code _ = 409

pub record Proposal : Type 0 where
  pub id : String
  pub identity : Identity
  pub proposer : Identity
  pub reason : String
  pub status : ProposalStatus
  pub created_at : ℕ
  pub expires_at : ℕ
  pub decided_by : Option Identity
  pub decided_at : Option ℕ

-- `row.decidedIssuer && row.decidedSubject ? … : null`; an empty text is falsy
abbrev pub decided_pair : Option String → Option String → Option Identity
decided_pair (some i) (some s) =
    if str_eq i "" || str_eq s "" then none else some (record { issuer = i; subject = s })
decided_pair _ _ = none

unfoldable pub to_proposal : ProposalRow → Proposal
to_proposal row = record {
  id = row.id;
  identity = row.identity;
  proposer = row.proposer;
  reason = row.reason;
  status = row.status;
  created_at = row.created_at;
  expires_at = row.expires_at;
  decided_by = decided_pair row.decided_issuer row.decided_subject;
  decided_at = row.decided_at;
}

pub record ProposeInput : Type 0 where
  pub identity : Identity
  pub proposer : Identity
  pub reason : String
  pub expires_at : ℕ
  pub actor : ActorRef

pub record DecideInput : Type 0 where
  pub proposal_id : String
  -- the confirmer or the canceller
  pub decider : Identity
  pub actor : ActorRef

abbrev pub is_pending : ProposalStatus → Bool
is_pending pending = true
is_pending _ = false

abbrev pub pending_of : Identity → ProposalRow → Bool
pending_of i p = same_identity p.identity i && is_pending p.status

abbrev pub has_id : String → ProposalRow → Bool
has_id id p = str_eq p.id id

-- The first statement of `propose`: a pending proposal past its date no longer blocks a new one.
abbrev pub lapsed_of : Env → Identity → ProposalRow → Bool
lapsed_of env i p = pending_of i p && leb p.expires_at env.db

abbrev pub expire_row : Env → ProposalRow → ProposalRow
expire_row env p = record p { status = expired; decided_at = some env.db }

abbrev pub proposed_row : Env → String → ProposeInput → ProposalRow
proposed_row env id input = record {
  id = id;
  identity = input.identity;
  proposer = input.proposer;
  reason = input.reason;
  status = pending;
  created_at = env.db;
  expires_at = input.expires_at;
  decided_issuer = none;
  decided_subject = none;
  decided_at = none;
}

-- The INSERT under the table's constraints (migrations/0012): the primary key and the unique index on
-- pending proposals raise 23505; `expires_at > created_at` and proposer ≠ identity are CHECKs.
unfoldable pub insert_proposal : ProposalRow → Tx Db ProposalError (Unit {0})
insert_proposal row = do
  rows ← gets λ db. db.proposals
  guard (ltb row.created_at row.expires_at && not (same_identity row.proposer row.identity)) storage
  guard (not (any (has_id row.id) rows || any (pending_of row.identity) rows)) proposal_pending
  modify λ db. record db { proposals = db.proposals ++ row ∷ [] }

unfoldable pub lock_proposal : String → Tx Db ProposalError ProposalRow
lock_proposal id db = elim (find? (has_id id) db.proposals) [
  | none ↦ err proposal_not_found
  | some row ↦ ok (row, db)
]

unfoldable pub identity_key : Identity → String
identity_key i = String.◌++◌ i.issuer (String.◌++◌ "\n" i.subject)

-- `new Map(entries)` and `map.get(key)`: the last entry of a key counts.
unfoldable pub map_get : String → List (String × AdminStatus) → Option AdminStatus
map_get k [] = none
map_get k ((j, v) ∷ m) = elim (map_get k m) [
  | some w ↦ some w
  | none ↦ if str_eq j k then some v else none
]

-- `WHERE (identity_issuer, identity_subject) IN (…)`
abbrev pub among : List Identity → Membership → Bool
among ids m = any (same_identity m.identity) ids

unfoldable pub lock_memberships : List Identity → Db → List (String × AdminStatus)
unfolding identity_key
lock_memberships ids db =
    map (λ m. (identity_key m.identity, m.status)) (keep (among ids) db.admins)

abbrev pub holds_role : Option AdminStatus → Bool
holds_role none = false
holds_role (some s) = is_active s

-- the UPDATE that ends `confirm` and `cancel`
abbrev pub decided_row : Env → ProposalStatus → Identity → ProposalRow → ProposalRow
decided_row env status by p = record p {
  status = status;
  decided_issuer = some by.issuer;
  decided_subject = some by.subject;
  decided_at = some env.db;
}

abbrev pub decide : Env → String → ProposalStatus → Identity → Tx Db ProposalError (Unit {0})
decide env id status by = modify λ db. record db {
  proposals = update_where (has_id id) (decided_row env status by) db.proposals;
}

-- The checks of `confirm`, in their order, on the locked rows.
unfoldable pub check_confirm : Env → Identity → ProposalRow → Tx Db ProposalError (Unit {0})
unfolding lock_memberships map_get identity_key
check_confirm env confirmer p = do
  guard (is_pending p.status) proposal_not_pending
  guard (ltb env.node p.expires_at) proposal_expired
  guard (not (same_identity confirmer p.proposer)) same_admin_forbidden
  guard (not (same_identity confirmer p.identity)) self_confirm_forbidden
  statuses ← gets (lock_memberships (confirmer ∷ p.proposer ∷ p.identity ∷ []))
  guard (holds_role (map_get (identity_key confirmer) statuses)) confirmer_not_active
  guard (holds_role (map_get (identity_key p.proposer) statuses)) proposer_not_active
  guard (not (holds_role (map_get (identity_key p.identity) statuses))) already_active

-- what `confirm` hands to `activate`
abbrev pub granted_input : ProposalRow → ActorRef → GrantInput
granted_input p actor = record { identity = p.identity; reason = p.reason; actor = actor }

module _ (sha256 : String → String) where
  -- `propose`: the task of the transaction, after the check that stands before BEGIN
  unfoldable pub propose_task : Env → ProposeInput → Tx Db ProposalError Proposal
  unfolding insert_proposal insert_audit to_proposal get_membership
  propose_task env input = do
    current ← gets (get_membership input.identity)
    guard (not (holds_role (elim current [ none ↦ none | some m ↦ some m.status ]))) already_active
    modify λ db. record db {
      proposals = update_where (lapsed_of env input.identity) (expire_row env) db.proposals;
    }
    let row = proposed_row env (env.uuid 0) input
    insert_proposal row
    insert_audit sha256 env (env.uuid 1) input.actor "platform_admin.propose" input.identity
        succeeded
        (("status", some "pending")
          ∷ ("reason", some input.reason)
          ∷ ("proposalId", some row.id)
          ∷ [])
    pure (to_proposal row)

  unfoldable pub propose : Env → ProposeInput → Db → Db × Result ProposalError Proposal
  unfolding propose_task
  propose env input db =
      if same_identity input.identity input.proposer
      then (db, err self_proposal_forbidden)
      else transaction (propose_task env input) db

  unfoldable pub confirm_task : Env → DecideInput → Tx Db ProposalError (Proposal × Membership)
  unfolding lock_proposal check_confirm activate insert_audit to_proposal
  confirm_task env input = do
    p ← lock_proposal input.proposal_id
    check_confirm env input.decider p
    membership ← activate env (env.uuid 0) (granted_input p input.actor)
    decide env p.id confirmed input.decider
    insert_audit sha256 env (env.uuid 1) input.actor "platform_admin.grant" p.identity succeeded (
        ("status", some "active")
        ∷ ("reason", some p.reason)
        ∷ ("proposalId", some p.id)
        ∷ ("proposedBy", some (make_platform_admin_target_ref sha256 p.proposer))
        ∷ [])
    pure (to_proposal (decided_row env confirmed input.decider p), membership)

  unfoldable pub confirm :
      Env → DecideInput → Db → Db × Result ProposalError (Proposal × Membership)
  unfolding confirm_task
  confirm env input = transaction (confirm_task env input)

  unfoldable pub cancel_task : Env → DecideInput → Tx Db ProposalError Proposal
  unfolding lock_proposal insert_audit to_proposal
  cancel_task env input = do
    p ← lock_proposal input.proposal_id
    guard (is_pending p.status) proposal_not_pending
    decide env p.id cancelled input.decider
    insert_audit sha256 env (env.uuid 0) input.actor "platform_admin.proposal_cancel" p.identity
        succeeded
        (("status", some "cancelled") ∷ ("reason", some p.reason) ∷ ("proposalId", some p.id) ∷ [])
    pure (to_proposal (decided_row env cancelled input.decider p))

  unfoldable pub cancel : Env → DecideInput → Db → Db × Result ProposalError Proposal
  unfolding cancel_task
  cancel env input = transaction (cancel_task env input)
