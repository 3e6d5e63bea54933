-- ===== src/ApplicationAccess.antt =====
-- apps/api/src/modules/application-access/repository.ts: the applications and who may use them. CHECKs on
-- texts and governance columns are taken to hold of what the caller passes; the rows that the operations return
-- and listAudit are left out.
pub mod Decisions
pub mod Grants
mod Tests
use sq_hub.Common.{
  ℕ, String, Option, none, some, List, [], ◌∷◌, ◌++◌, Bool, true, false, ◌&&◌, find?, upsert,
  str_eq, is_some, if◌then◌else◌, Tx, pure, throw, ◌>>=◌, ◌>>◌, modify, gets, transaction, Result,
}
use sq_hub.Common.Identity.{Identity, ActorRef, Env, same_identity}

pub data ApplicationStatus : Type 0 where
  active inactive : ApplicationStatus

pub data AccessStatus : Type 0 where
  active revoked : AccessStatus

pub record Governance : Type 0 where
  pub summary_path : Option String
  pub audience : Option String
  pub order : ℕ

pub record ApplicationRow : Type 0 where
  pub id : String
  pub application_key : String
  pub name : String
  pub canonical_url : String
  pub status : ApplicationStatus
  pub governance : Governance

pub record ApplicationUpsertInput : Type 0 where
  pub application_key : String
  pub name : String
  pub canonical_url : String
  pub status : ApplicationStatus
  pub governance : Option Governance
  pub actor : ActorRef

pub record AccessRow : Type 0 where
  pub id : String
  pub identity : Identity
  pub application_id : String
  pub status : AccessStatus
  pub reason : Option String
  pub actor : ActorRef
  pub granted_at : Option ℕ
  pub revoked_at : Option ℕ
  pub updated_at : ℕ

pub record AccessInput : Type 0 where
  pub identity : Identity
  pub application_key : String
  pub status : AccessStatus
  pub reason : Option String
  pub actor : ActorRef

-- rows of platform_audit_events
pub data AccessEvent : Type 0 where
  application_upsert :
      (id : String) (actor : ActorRef) (key canonical_url : String) (status : ApplicationStatus)
      (governance : Option Governance)
      → AccessEvent
  access_change :
      (id : String) (actor : ActorRef) (status : AccessStatus) (target_ref key : String)
      (reason : Option String)
      → AccessEvent

pub record AccessDb : Type 0 where
  pub applications : List ApplicationRow
  pub access : List AccessRow
  pub audit : List AccessEvent

pub data UnknownApplicationError : Type 0 where
  unknown_application : (key : String) → UnknownApplicationError

abbrev pub has_key : String → ApplicationRow → Bool
has_key key a = str_eq a.application_key key

abbrev pub no_governance : Governance
no_governance = record { summary_path = none; audience = none; order = 0 }

abbrev pub new_application : Env → ApplicationUpsertInput → ApplicationRow
new_application env input = record {
  id = env.uuid 0;
  application_key = input.application_key;
  name = input.name;
  canonical_url = input.canonical_url;
  status = input.status;
  governance = elim input.governance [ none ↦ no_governance | some g ↦ g ];
}

-- ON CONFLICT: governance that is not given keeps its stored values
abbrev pub updated_application : ApplicationUpsertInput → ApplicationRow → ApplicationRow
updated_application input a = record a {
  name = input.name;
  canonical_url = input.canonical_url;
  status = input.status;
  governance = elim input.governance [ none ↦ a.governance | some g ↦ g ];
}

unfoldable pub upsert_application : Env → ApplicationUpsertInput → AccessDb → AccessDb
upsert_application env input db = record db {
  applications =
      upsert (has_key input.application_key) (new_application env input) (updated_application input)
        db.applications;
  audit =
      db.audit
      ++ application_upsert (env.uuid 1) input.actor input.application_key input.canonical_url
          input.status input.governance
        ∷ [];
}

-- the unique index of application_access
abbrev pub access_of : Identity → String → AccessRow → Bool
access_of i application_id r = same_identity r.identity i && str_eq r.application_id application_id

abbrev pub since : AccessStatus → AccessStatus → ℕ → Option ℕ
since active active now = some now
since revoked revoked now = some now
since _ _ now = none

abbrev pub new_access : Env → AccessInput → String → AccessRow
new_access env input application_id = record {
  id = env.uuid 0;
  identity = input.identity;
  application_id = application_id;
  status = input.status;
  reason = input.reason;
  actor = input.actor;
  granted_at = since active input.status env.node;
  revoked_at = since revoked input.status env.node;
  updated_at = env.db;
}

abbrev pub updated_access : Env → AccessInput → AccessRow → AccessRow
updated_access env input r = record r {
  status = input.status;
  reason = input.reason;
  actor = input.actor;
  granted_at = since active input.status env.node;
  revoked_at = since revoked input.status env.node;
  updated_at = env.db;
}

unfoldable pub make_access_target_ref : Identity → String → String
make_access_target_ref i key = Prim.Native.String.◌++◌ i.issuer (
    Prim.Native.String.◌++◌ "|"
      (Prim.Native.String.◌++◌ i.subject (Prim.Native.String.◌++◌ "|" key)))

-- the two statements of `setAccess` on a known application
unfoldable pub write_access : Env → AccessInput → String → AccessDb → AccessDb
unfolding make_access_target_ref
write_access env input application_id db = record db {
  access =
      upsert (access_of input.identity application_id) (new_access env input application_id)
        (updated_access env input) db.access;
  audit =
      db.audit
      ++ access_change (env.uuid 1) input.actor input.status
          (make_access_target_ref input.identity input.application_key) input.application_key
          input.reason
        ∷ [];
}

unfoldable pub set_access_task : Env → AccessInput → Tx AccessDb UnknownApplicationError (Unit {0})
unfolding write_access
set_access_task env input = do
  applications ← gets (λ db. db.applications)
  elim (find? (has_key input.application_key) applications) [
    | none ↦ throw (unknown_application input.application_key)
    | some a ↦ modify (write_access env input a.id)
  ]

unfoldable pub set_access :
    Env → AccessInput → AccessDb → AccessDb × Result UnknownApplicationError (Unit {0})
unfolding set_access_task
set_access env input = transaction (set_access_task env input)

pub data AccessDecision : Type 0 where
  active_grant no_grant grant_revoked application_inactive unknown_application : AccessDecision

-- `allowed` of a decision
abbrev pub allowed : AccessDecision → Bool
allowed active_grant = true
allowed _ = false

abbrev pub on_access : Option AccessRow → AccessDecision
on_access none = no_grant
on_access (some r) = elim r.status [ active ↦ active_grant | revoked ↦ grant_revoked ]

abbrev pub on_application : ApplicationStatus → AccessDecision → AccessDecision
on_application active d = d
on_application inactive d = application_inactive

unfoldable pub check_access : Identity → String → AccessDb → AccessDecision
check_access i key db = elim (find? (has_key key) db.applications) [
  | none ↦ unknown_application
  | some a ↦ on_application a.status (on_access (find? (access_of i a.id) db.access))
]

-- `getAccess`: the row of the identity for the application of the key
unfoldable pub get_access : Identity → String → AccessDb → Option AccessRow
get_access i key db = elim (find? (has_key key) db.applications) [
  | none ↦ none
  | some a ↦ find? (access_of i a.id) db.access
]

pub record GrantInput : Type 0 where
  pub identity : Identity
  pub application_key : String
  pub reason : Option String
  pub actor : ActorRef

abbrev pub access_input : AccessStatus → GrantInput → AccessInput
access_input status input = record {
  identity = input.identity;
  application_key = input.application_key;
  status = status;
  reason = input.reason;
  actor = input.actor;
}

-- `grant` and `revoke` of service.ts, on an input that its schema accepts
unfoldable pub grant_access :
    Env → GrantInput → AccessDb → AccessDb × Result UnknownApplicationError (Unit {0})
unfolding set_access
grant_access env input = set_access env (access_input active input)

unfoldable pub revoke_access :
    Env → GrantInput → AccessDb → AccessDb × Result UnknownApplicationError (Unit {0})
unfolding set_access
revoke_access env input = set_access env (access_input revoked input)
