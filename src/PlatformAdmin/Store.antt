-- ===== src/PlatformAdmin/Store.antt =====
-- apps/api/src/modules/platform-admin/repository.ts: the tables, and grant, revoke and the audit
-- list of PgPlatformAdminRepository. A SQL statement is a function of the lists of rows.
use Prim.Native.String
use sq_hub.Common.{
  ℕ, String, Option, none, some, List, [], ◌∷◌, ◌++◌, Bool, true, false, ◌&&◌, find?, update_where,
  upsert, is_some, if◌then◌else◌, Result, ok, Tx, pure, ◌>>=◌, ◌>>◌, modify, gets, transaction,
}
use sq_hub.Common.Identity.{
  Identity, ActorRef, Outcome, succeeded, noop, AuditEvent, Env, same_identity,
}

pub data AdminStatus : Type 0 where
  active revoked : AdminStatus

-- PlatformAdminMembership and MembershipRow have the same content; `toMembership` renames columns.
pub record Membership : Type 0 where
  pub id : String
  pub identity : Identity
  pub status : AdminStatus
  pub reason : Option String
  pub actor : ActorRef
  pub granted_at : Option ℕ
  pub revoked_at : Option ℕ
  pub updated_at : ℕ

pub data ProposalStatus : Type 0 where
  pending confirmed cancelled expired : ProposalStatus

-- ProposalRow of proposals.ts
pub record ProposalRow : Type 0 where
  pub id : String
  pub identity : Identity
  pub proposer : Identity
  pub reason : String
  pub status : ProposalStatus
  pub created_at : ℕ
  pub expires_at : ℕ
  pub decided_issuer : Option String
  pub decided_subject : Option String
  pub decided_at : Option ℕ

-- platform_administrators, platform_admin_proposals and platform_audit_events
pub record Db : Type 0 where
  pub admins : List Membership
  pub proposals : List ProposalRow
  pub audit : List AuditEvent

pub record GrantInput : Type 0 where
  pub identity : Identity
  pub reason : String
  pub actor : ActorRef

abbrev pub is_active : AdminStatus → Bool
is_active active = true
is_active revoked = false

-- `WHERE identity_issuer = $1 AND identity_subject = $2`
abbrev pub of_identity : Identity → Membership → Bool
of_identity i m = same_identity m.identity i

unfoldable pub get_membership : Identity → Db → Option Membership
get_membership i db = find? (of_identity i) db.admins

-- The row that `activate` inserts, and the row that its ON CONFLICT branch makes of an old one.
abbrev pub activated_row : Env → String → GrantInput → Membership
activated_row env id input = record {
  id = id;
  identity = input.identity;
  status = active;
  reason = some input.reason;
  actor = input.actor;
  granted_at = some env.node;
  revoked_at = none;
  updated_at = env.db;
}

abbrev pub reactivated_row : Env → GrantInput → Membership → Membership
reactivated_row env input m = record m {
  status = active;
  reason = some input.reason;
  actor = input.actor;
  granted_at = some env.node;
  revoked_at = none;
  updated_at = env.db;
}

unfoldable pub activate : {E : Type 0} → Env → String → GrantInput → Tx Db E Membership
activate env id input db =
    let new = activated_row env id input in
    ok (
      elim (find? (of_identity input.identity) db.admins) [
        | none ↦ new
        | some m ↦ reactivated_row env input m
      ],
      record db {
        admins = upsert (of_identity input.identity) new (reactivated_row env input) db.admins;
      },
    )

-- the UPDATE of `revoke`
abbrev pub revoked_row : Env → GrantInput → Membership → Membership
revoked_row env input m = record m {
  status = revoked;
  reason = some input.reason;
  actor = input.actor;
  revoked_at = some env.node;
  updated_at = env.db;
}

abbrev pub active_of : Identity → Membership → Bool
active_of i m = of_identity i m && is_active m.status

pub data RevokeError : Type 0 where
  no_row : RevokeError

module _ (sha256 : String → String) where
  unfoldable pub make_platform_admin_target_ref : Identity → String
  make_platform_admin_target_ref i =
      String.◌++◌ "platform-admin:" (sha256 (String.◌++◌ i.issuer (String.◌++◌ "\n" i.subject)))

  unfoldable pub insert_audit :
      {E : Type 0}
      → Env
      → String
      → ActorRef
      → String
      → Identity
      → Outcome
      → List (String × Option String)
      → Tx Db E (Unit {0})
  unfolding make_platform_admin_target_ref
  insert_audit env id actor action target outcome payload = modify λ db. record db {
    audit =
        db.audit
        ++ record {
          id = id;
          actor = actor;
          action = action;
          target_type = "platform_administrator";
          target_ref = make_platform_admin_target_ref target;
          outcome = outcome;
          payload = payload;
          occurred_at = env.db;
        }
          ∷ [];
  }

  -- PgPlatformAdminRepository.grant; its statements do not fail in the model
  unfoldable pub grant :
      Env → GrantInput → Db → Db × Result RevokeError (Outcome × Option Membership)
  unfolding activate insert_audit
  grant env input = transaction do
    row ← activate env (env.uuid 0) input
    insert_audit env (env.uuid 1) input.actor "platform_admin.grant" input.identity succeeded
        (("status", some "active") ∷ ("reason", some input.reason) ∷ [])
    pure (succeeded, some row)

  -- PgPlatformAdminRepository.revoke
  unfoldable pub revoke :
      Env → GrantInput → Db → Db × Result RevokeError (Outcome × Option Membership)
  unfolding insert_audit get_membership
  revoke env input = transaction do
    found ← gets λ db. find? (active_of input.identity) db.admins
    modify λ db. record db {
      admins = update_where (active_of input.identity) (revoked_row env input) db.admins;
    }
    existing ← gets (get_membership input.identity)
    let outcome = if is_some found then succeeded else noop
    insert_audit env (env.uuid 0) input.actor "platform_admin.revoke" input.identity outcome
        (("status", some "revoked") ∷ ("reason", some input.reason) ∷ [])
    pure (outcome, elim found [ some m ↦ some (revoked_row env input m) | none ↦ existing ])
