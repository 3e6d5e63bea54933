-- ===== src/PlatformAdmin/Tests.antt =====
-- Platform administrators on concrete tables: runs, and the theorems applied to them.
use sq_hub.Common.{
  ℕ, ◌≡◌, ◌⊎◌, ◌↔◌, ◌≤◌, refl, arith, some, none, [], ◌∷◌, Some, String, ok, err, eq_iff,
}
use sq_hub.Common.Identity.{Identity, ActorRef, human, Env, same_identity}
use sq_hub.PlatformAdmin.Store.{
  active, pending, confirmed, Membership, ProposalRow, Db, GrantInput, get_membership, grant,
  revoke,
}
use sq_hub.PlatformAdmin.Proposals.{
  DecideInput, ProposeInput, Proposal, confirm, cancel, propose, same_admin_forbidden,
  self_confirm_forbidden, proposal_pending, proposal_expired,
}
use sq_hub.PlatformAdmin.Service.{
  Session, authorize, admin_forbidden, admin_reauth_required, hub_confirm, can_use_admin,
}
use sq_hub.PlatformAdmin.Invariant.{WellFormed, DecidedByThird}
use sq_hub.PlatformAdmin.Keys.{NoBreak, identity_key-injective}
use sq_hub.PlatformAdmin.FourEyes.{IsAdmin, FourEyes, confirm-FourEyes}
use sq_hub.PlatformAdmin.Sessions.{authorize_iff, authorize-grant, authorize-revoke}
use sq_hub.PlatformAdmin.Traces.{HubStep, Reach, Reach-explained}

abbrev digest : String → String
digest s = s

abbrev person : String → Identity
person name = record { issuer = "https://login.example"; subject = name }

abbrev ann : Identity
ann = person "ann"

abbrev bob : Identity
bob = person "bob"

abbrev cid : Identity
cid = person "cid"

abbrev clerk : ActorRef
clerk = record { kind = human; ref = "clerk" }

abbrev admin_row : String → Identity → Membership
admin_row id i = record {
  id = id;
  identity = i;
  status = active;
  reason = some "founder";
  actor = clerk;
  granted_at = some 100;
  revoked_at = none;
  updated_at = 100;
}

abbrev waiting_row : ProposalRow
waiting_row = record {
  id = "p1";
  identity = cid;
  proposer = ann;
  reason = "helps";
  status = pending;
  created_at = 200;
  expires_at = 900;
  decided_issuer = none;
  decided_subject = none;
  decided_at = none;
}

abbrev tables : Db
tables = record {
  admins = admin_row "m1" ann ∷ admin_row "m2" bob ∷ [];
  proposals = waiting_row ∷ [];
  audit = [];
}

abbrev request : Env
request = record { node = 500; db = 501; uuid = λ n. "u" }

abbrev decide_as : Identity → DecideInput
decide_as i = record { proposal_id = "p1"; decider = i; actor = clerk }

runs : Unit {0}
unfolding confirm cancel propose grant revoke authorize same_identity hub_confirm can_use_admin
runs = tt

confirm_tests :
    ((confirm digest request (decide_as ann) tables).1 ≡ err same_admin_forbidden)
    × ((confirm digest request (decide_as cid) tables).1 ≡ err self_confirm_forbidden)
    × ((confirm digest (record request { node = 900 }) (decide_as bob) tables).1
        ≡ err proposal_expired)
    × (authorize
          (record { identity = cid; created_at = 600 })
          (confirm digest request (decide_as bob) tables).0
        ≡ ok tt)
    × (authorize
          (record { identity = cid; created_at = 400 })
          (confirm digest request (decide_as bob) tables).0
        ≡ err admin_reauth_required)
unfolding runs
confirm_tests = (refl, refl, refl, refl, refl)

abbrev propose_again : ProposeInput
propose_again = record {
  identity = cid;
  proposer = bob;
  reason = "again";
  expires_at = 2000;
  actor = clerk;
}

-- A second pending proposal is refused, unless the first has lapsed.
propose_tests :
    ((propose digest request propose_again tables).1 ≡ err proposal_pending)
    × ((propose digest (record request { db = 900 }) propose_again tables).1
        ≡ (propose digest
            (record request { db = 900 })
            propose_again
            (record tables { proposals = [] })).1)
unfolding runs
propose_tests = (refl, refl)

tables-WellFormed : WellFormed tables
unfolding same_identity
tables-WellFormed = record {
  admins_unique = ((refl, tt), (tt, tt));
  admins_checked = (ground arith, (ground arith, tt));
  ids_unique = (tt, tt);
  one_pending = (tt, tt);
  proposals_checked = (
    record {
      lasts = omega arith;
      not_self = λ e. ground (arith, eq_iff "ann" "cid");
      undecided = λ _. (refl, refl, refl);
      decided = λ h. absurd (h refl);
      cancelled_by = λ e. absurd (cc);
      confirmed_by = λ e. absurd (cc);
    },
    tt,
  );
}

abbrev after_bob : Db
after_bob = (confirm digest request (decide_as bob) tables).0

bob_confirms :
    (r : Proposal × Membership) × (confirm digest request (decide_as bob) tables
      ≡ (after_bob, ok r))
unfolding runs
bob_confirms = (_, refl)

confirm-FourEyes_example : FourEyes request (decide_as bob) tables after_bob
confirm-FourEyes_example =
    confirm-FourEyes digest request (decide_as bob) tables after_bob bob_confirms.0 (omega arith)
      (omega arith) bob_confirms.1

abbrev bob_session : Session
bob_session = record { identity = bob; created_at = 300 }

authorize_iff_example : (authorize bob_session tables ≡ ok tt) ↔ (
    (m : Membership) × (get_membership bob tables ≡ some m)
    × (m.status ≡ active)
    × ((g : ℕ) × (m.granted_at ≡ some g) × (g ≤ 300)))
authorize_iff_example = authorize_iff bob_session tables

abbrev about_bob : GrantInput
about_bob = record { identity = bob; reason = "left"; actor = clerk }

authorize-grant_example :
    authorize bob_session (grant digest request about_bob tables).0 ≡ err admin_reauth_required
authorize-grant_example = authorize-grant digest request about_bob bob_session tables refl

authorize-revoke_example :
    authorize bob_session (revoke digest request about_bob tables).0 ≡ err admin_forbidden
authorize-revoke_example = authorize-revoke digest request about_bob bob_session tables refl

abbrev after_hub : Db
after_hub = (hub_confirm digest request bob_session "p1" tables).0

hub_run : Reach digest tables after_hub
hub_run = Reach.next Reach.here (HubStep.confirms request bob_session "p1" refl)

Reach-explained_example :
    WellFormed after_hub
    × (IsAdmin cid after_hub
        → IsAdmin cid tables
          ⊎ Some
              (λ p. (p.identity ≡ cid) × (p.status ≡ confirmed) × DecidedByThird p)
              after_hub.proposals)
Reach-explained_example = Reach-explained digest tables after_hub cid tables-WellFormed hub_run

abbrev local : Identity
local = record { issuer = "kc"; subject = "a\nb" }

kc-NoBreak : NoBreak "kc"
kc-NoBreak = (λ e. omega (arith, e), (λ e. omega (arith, e), tt))

identity_key-injective_example : local ≡ local
identity_key-injective_example = identity_key-injective local local kc-NoBreak kc-NoBreak refl
