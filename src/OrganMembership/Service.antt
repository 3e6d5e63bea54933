-- ===== src/OrganMembership/Service.antt =====
-- apps/api/src/modules/organ-membership/service.ts: what an administrator does to memberships, over the store and
-- the applications (apps/api/src/modules/application-access). A request is parsed by zod before; the identity
-- provider answers from outside, and `envs` gives each of the store's calls its own clock and identifiers. Failures
-- of the database are left out, and so are the messages of the steps.
pub mod Staff
mod Selections
pub mod Completions
pub mod Progress
pub mod Refusals
mod Tests
use sq_hub.Common.{
  ℕ, zero, suc, String, Option, none, some, List, [], ◌∷◌, ◌++◌, map, Bool, true, false, not, ◌&&◌,
  ◌||◌, any, find?, keep, str_eq, is_some, if◌then◌else◌, Result, ok, err,
}
use sq_hub.Common.Identity.{Identity, ActorRef, Outcome, succeeded, failed, noop, Env}
use sq_hub.Common.Text.{codes}
use sq_hub.HubAuth.Service.{normalize_issuer, same_codes}
use sq_hub.ApplicationAccess.{
  ApplicationStatus, AccessStatus, ApplicationRow, AccessRow, AccessDb, GrantInput, has_key,
  get_access, grant_access,
}
use sq_hub.OrganMembership.Store.{
  ProvisioningPath, existing_staff, organ_identity, MembershipStatus, active, ended, Terms,
  MembershipRow, OrganDb, OrganStoreError, conflict, not_found, is_active, get_by_id, get_active,
  CreateInput, ChangeInput, EndInput, create, change, end_membership, audit, is_organ_identity,
  is_hub_provisioned_organ_identity,
}

pub data StepKind : Type 0 where
  totp_requirement identity_step activation_email organ_membership application_access : StepKind

pub record OrganStep : Type 0 where
  pub kind : StepKind
  pub target : String
  pub status : Outcome

pub data OrganError : Type 0 where
  self_mutation_forbidden membership_exists membership_not_found membership_ended staff_not_found :
      OrganError
  provisioning_unavailable not_governance_application path_b_only : OrganError

pub data Completion : Type 0 where
  all_done partial_failure not_made : Completion

pub record Reply : Type 0 where
  pub outcome : Completion
  pub membership : Option MembershipRow
  pub steps : List OrganStep
  pub reminders : List String

pub record OrganSystem : Type 0 where
  pub organ : OrganDb
  pub access : AccessDb

abbrev pub truthy : Option String → Bool
truthy none = false
truthy (some t) = not (str_eq t "")

abbrev pub is_live : ApplicationStatus → Bool
is_live ApplicationStatus.active = true
is_live ApplicationStatus.inactive = false

-- the filter of `sortGovernance`; the order of the list is left out
abbrev pub is_governance : ApplicationRow → Bool
is_governance a =
    is_live a.status && (truthy a.governance.summary_path && truthy a.governance.audience)

-- `[...new Set(keys)]`, after the keys seen
abbrev pub unique_keys : List String → List String → List String
unique_keys seen [] = []
unique_keys seen (k ∷ ks) =
    let rest = unique_keys (k ∷ seen) ks in
    let same = unique_keys seen ks in if any (str_eq k) seen then same else k ∷ rest

abbrev pub selected : List ApplicationRow → List String → Option (List ApplicationRow)
selected governance [] = some []
selected governance (k ∷ ks) = elim (find? (has_key k) governance) [
  | none ↦ none
  | some a ↦ elim (selected governance ks) [ none ↦ none | some as' ↦ some (a ∷ as') ]
]

unfoldable pub selected_governance_applications :
    List String → AccessDb → Option (List ApplicationRow)
selected_governance_applications keys db =
    selected (keep is_governance db.applications) (unique_keys [] keys)

abbrev pub same_issuer : String → String → Bool
same_issuer a b = same_codes (normalize_issuer (codes a)) (normalize_issuer (codes b))

-- `assertNotSelf` throws on this
abbrev pub is_self : Identity → Identity → Bool
is_self identity session =
    same_issuer identity.issuer session.issuer && str_eq identity.subject session.subject

abbrev pub is_failed : OrganStep → Bool
is_failed s = elim s.status [ failed ↦ true | succeeded ↦ false | noop ↦ false ]

pub record CompletionInput : Type 0 where
  pub identity : Identity
  pub terms : Terms
  pub reason : String
  pub provisioning_path : ProvisioningPath
  pub applications : List ApplicationRow
  pub actor : ActorRef

abbrev pub has_active : Option AccessRow → Bool
has_active none = false
has_active (some r) = elim r.status [ AccessStatus.active ↦ true | AccessStatus.revoked ↦ false ]

abbrev pub grant_input : CompletionInput → ApplicationRow → GrantInput
grant_input input a = record {
  identity = input.identity;
  application_key = a.application_key;
  reason = some input.reason;
  actor = input.actor;
}

abbrev pub on_grant : {E A : Type 0} → Result E A → Outcome
on_grant (ok a) = succeeded
on_grant (err e) = failed

-- one turn of the loop over the applications
unfoldable pub grant_one : Env → CompletionInput → ApplicationRow → AccessDb → AccessDb × OrganStep
unfolding get_access grant_access
grant_one env input a db =
    if has_active (get_access input.identity a.application_key db)
    then (db, record { kind = application_access; target = a.application_key; status = noop })
    else (
      (grant_access env (grant_input input a) db).0,
      record {
        kind = application_access;
        target = a.application_key;
        status = on_grant (grant_access env (grant_input input a) db).1;
      },
    )

unfoldable pub grant_all :
    (ℕ → Env) → CompletionInput → List ApplicationRow → AccessDb → AccessDb × List OrganStep
unfolding grant_one
grant_all envs input [] db = (db, [])
grant_all envs input (a ∷ as') db =
    let rest = grant_all (λ n. envs (suc n)) input as' (grant_one (envs 0) input a db).0 in
    (rest.0, (grant_one (envs 0) input a db).1 ∷ rest.1)

abbrev pub membership_step : Outcome → OrganStep
membership_step o = record { kind = organ_membership; target = "organ-membership"; status = o }

-- the part of `completeMembership` after the membership
unfoldable pub finish :
    (ℕ → Env)
    → CompletionInput
    → List OrganStep
    → MembershipRow
    → OrganSystem
    → OrganSystem × Result OrganError Reply
unfolding grant_all
finish envs input steps m sys =
    let granted = grant_all envs input input.applications sys.access in
    (
      record sys { access = granted.0 },
      ok (record {
        outcome = if any is_failed (steps ++ granted.1) then partial_failure else all_done;
        membership = some m;
        steps = steps ++ granted.1;
        reminders = map (λ a. a.application_key) input.applications;
      }),
    )

abbrev pub create_input : CompletionInput → CreateInput
create_input input = record {
  identity = input.identity;
  terms = input.terms;
  reason = input.reason;
  provisioning_path = input.provisioning_path;
  actor = input.actor;
}

abbrev pub not_yet_made : Completion → List OrganStep → Reply
not_yet_made outcome steps = record {
  outcome = outcome;
  membership = none;
  steps = steps;
  reminders = [];
}

abbrev pub later : (ℕ → Env) → ℕ → Env
later envs n = envs (suc n)

-- what `completeMembership` does after its call of `create`
unfoldable pub on_created :
    (ℕ → Env)
    → CompletionInput
    → List OrganStep
    → AccessDb
    → OrganDb × Result OrganStoreError MembershipRow
    → OrganSystem × Result OrganError Reply
unfolding finish
on_created envs input steps access (organ, ok m) =
    finish (later envs) input (steps ++ membership_step succeeded ∷ []) m
      (record { organ = organ; access = access })
on_created envs input steps access (organ, err conflict) =
    (record { organ = organ; access = access }, err membership_exists)
on_created envs input steps access (organ, err not_found) = (
  record { organ = organ; access = access },
  ok (not_yet_made partial_failure (steps ++ membership_step failed ∷ [])),
)

module _ (digest : String → String) where
  unfoldable pub complete_membership :
      (ℕ → Env)
      → CompletionInput
      → List OrganStep
      → OrganSystem
      → OrganSystem × Result OrganError Reply
  unfolding on_created finish get_active create
  complete_membership envs input steps sys = elim (get_active input.identity sys.organ) [
    | some m ↦ finish (later envs) input (steps ++ membership_step noop ∷ []) m sys
    | none ↦
        on_created envs input steps sys.access
          (create digest (envs 0) (create_input input) sys.organ)
  ]
