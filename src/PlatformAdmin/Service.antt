-- ===== src/PlatformAdmin/Service.antt =====
-- apps/api/src/modules/platform-admin/service.ts: every operation of the Admin Center authorizes the
-- session first. The schemas that parse the inputs are taken as done by the caller.
use Prim.Native.String
use sq_hub.Common.{
  ℕ, ◌+◌, ◌*◌, String, Option, none, some, Bool, true, false, ltb, Result, ok, err, Result-cases,
  inl, inr, if◌then◌else◌,
}
use sq_hub.Common.Identity.{Identity, ActorRef, human, Outcome, Env}
use sq_hub.PlatformAdmin.Store.{Membership, Db, is_active, get_membership, revoke, RevokeError}
use sq_hub.PlatformAdmin.Proposals.{ProposalError, Proposal, propose, confirm, cancel}

-- the fields of HubSessionRecord that the service reads
pub record Session : Type 0 where
  pub identity : Identity
  pub created_at : ℕ

pub data AuthorizationError : Type 0 where
  admin_forbidden admin_reauth_required : AuthorizationError

-- The error of an Admin Center operation: the authorization's, or the operation's own.
pub data HubError (E : Type 0) : Type 0 where
  unauthorized : AuthorizationError → HubError E
  failed : E → HubError E

abbrev pub proposal_ttl_ms : ℕ
proposal_ttl_ms = 7 * 24 * 60 * 60 * 1000

abbrev pub authorize_granted : Session → Option ℕ → Result AuthorizationError (Unit {0})
authorize_granted session none = err admin_forbidden
authorize_granted session (some granted_at) =
    if ltb session.created_at granted_at then err admin_reauth_required else ok tt

unfoldable pub authorize : Session → Db → Result AuthorizationError (Unit {0})
unfolding get_membership
authorize session db = elim (get_membership session.identity db) [
  | none ↦ err admin_forbidden
  | some m ↦
      if is_active m.status then authorize_granted session m.granted_at else err admin_forbidden
]

unfoldable pub can_use_admin : Session → Db → Bool
unfolding authorize
can_use_admin session db = elim (authorize session db) [ ok _ ↦ true | err _ ↦ false ]

abbrev pub lift_result : {E A : Type 0} → Db × Result E A → Db × Result (HubError E) A
lift_result (db, ok a) = (db, ok a)
lift_result (db, err e) = (db, err (failed e))

-- `await this.authorize(session)` before an operation
abbrev pub authorized :
    {E A : Type 0} → Session → (Db → Db × Result E A) → Db → Db × Result (HubError E) A
authorized session op db = elim (authorize session db) [
  | ok _ ↦ lift_result (op db)
  | err e ↦ (db, err (unauthorized e))
]

-- A property of the tables holds after an operation of the Admin Center if it holds before it and
-- after the operation itself.
pub authorized_lem :
    {E A : Type 0} (P : Db → Type 0) (session : Session) (op : Db → Db × Result E A) (db : Db)
    → P db
    → P (op db).0
    → P (authorized session op db).0
authorized_lem {E} {A} P session op db before after = elim (Result-cases (authorize session db)) [
  | inl (u, e) ↦ rw (e, authorized) (lifted (op db) after)
  | inr (x, e) ↦ rw (e, authorized) before
]
  where
    lifted : (r : Db × Result E A) → P r.0 → P (lift_result r).0
    lifted (d, ok a) h = h
    lifted (d, err e) h = h

module _ (sha256 : String → String) where
  unfoldable pub session_actor : Session → ActorRef
  session_actor s = record {
    kind = human;
    ref =
        String.◌++◌ "staff:"
          (sha256 (String.◌++◌ s.identity.issuer (String.◌++◌ "\n" s.identity.subject)));
  }

  -- PlatformAdminService.propose
  unfoldable pub hub_propose :
      Env → Session → Identity → String → Db → Db × Result (HubError ProposalError) Proposal
  unfolding authorize session_actor
  hub_propose env session identity reason = authorized session (
      propose sha256 env (record {
        identity = identity;
        proposer = session.identity;
        reason = reason;
        expires_at = env.node + proposal_ttl_ms;
        actor = session_actor session;
      }))

  -- PlatformAdminService.confirm
  unfoldable pub hub_confirm :
      Env → Session → String → Db → Db × Result (HubError ProposalError) (Proposal × Membership)
  unfolding authorize session_actor
  hub_confirm env session id = authorized session (
      confirm sha256 env
        (record { proposal_id = id; decider = session.identity; actor = session_actor session }))

  -- PlatformAdminService.cancel
  unfoldable pub hub_cancel :
      Env → Session → String → Db → Db × Result (HubError ProposalError) Proposal
  unfolding authorize session_actor
  hub_cancel env session id = authorized session (
      cancel sha256 env
        (record { proposal_id = id; decider = session.identity; actor = session_actor session }))

  -- PlatformAdminService.revokeBySession
  unfoldable pub hub_revoke :
      Env
      → Session
      → Identity
      → String
      → Db
      → Db × Result (HubError RevokeError) (Outcome × Option Membership)
  unfolding authorize session_actor
  hub_revoke env session identity reason = authorized session (
      revoke sha256 env
        (record { identity = identity; reason = reason; actor = session_actor session }))
