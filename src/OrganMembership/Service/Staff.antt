-- ===== src/OrganMembership/Service/Staff.antt =====
-- apps/api/src/modules/organ-membership/service.ts: adding somebody of the staff. What the directory knows of the
-- person is given, and so is the answer of the identity provider where it is asked.
use sq_hub.Common.{
  ℕ, String, Option, none, some, List, [], ◌∷◌, Bool, true, false, if◌then◌else◌, Result, ok, err,
}
use sq_hub.Common.Identity.{Identity, ActorRef, Outcome, succeeded, failed, noop, Env}
use sq_hub.ApplicationAccess.{ApplicationRow}
use sq_hub.OrganMembership.Store.{existing_staff, Terms, audit}
use sq_hub.OrganMembership.Service.{
  totp_requirement, OrganStep, OrganError, staff_not_found, self_mutation_forbidden,
  not_governance_application, provisioning_unavailable, not_made, Reply, not_yet_made, OrganSystem,
  CompletionInput, later, same_issuer, is_self, selected_governance_applications,
  complete_membership,
}

-- `requireTotpSetup` of the identity provider: set now, already required, or an exception
pub data TotpAnswer : Type 0 where
  totp_set totp_required totp_failed : TotpAnswer

pub record StaffPerson : Type 0 where
  pub identity : Identity
  pub totp_configured : Option Bool

pub record ExistingStaffInput : Type 0 where
  pub terms : Terms
  pub reason : String
  pub application_keys : List String
  pub actor : ActorRef

abbrev pub totp_step : Outcome → OrganStep
totp_step o = record { kind = totp_requirement; target = "akun-sq"; status = o }

-- the person that the directory found, in the realm of the directory
abbrev pub known_person : String → Option StaffPerson → Option StaffPerson
known_person issuer none = none
known_person issuer (some p) = if same_issuer p.identity.issuer issuer then some p else none

abbrev pub is_true : Option Bool → Bool
is_true (some true) = true
is_true _ = false

abbrev pub completion_of : ExistingStaffInput → Identity → List ApplicationRow → CompletionInput
completion_of input identity applications = record {
  identity = identity;
  terms = input.terms;
  reason = input.reason;
  provisioning_path = existing_staff;
  applications = applications;
  actor = input.actor;
}

module _ (digest : String → String) where
  abbrev pub totp_audit : Env → ExistingStaffInput → Identity → Outcome → OrganSystem → OrganSystem
  totp_audit env input identity outcome sys = record sys {
    organ =
        audit digest env (env.uuid 0) input.actor "organ_identity.require_totp" (some identity) none
          outcome (("reason", some input.reason) ∷ []) sys.organ;
  }

  -- the answer of the identity provider, none where there is no such provider
  unfoldable pub on_totp :
      (ℕ → Env)
      → ExistingStaffInput
      → Identity
      → List ApplicationRow
      → Option TotpAnswer
      → OrganSystem
      → OrganSystem × Result OrganError Reply
  unfolding complete_membership audit
  on_totp envs input identity applications none sys = (sys, err provisioning_unavailable)
  on_totp envs input identity applications (some totp_set) sys =
      complete_membership digest (later envs) (completion_of input identity applications)
        (totp_step succeeded ∷ []) (totp_audit (envs 0) input identity succeeded sys)
  on_totp envs input identity applications (some totp_required) sys =
      complete_membership digest (later envs) (completion_of input identity applications)
        (totp_step noop ∷ []) (totp_audit (envs 0) input identity noop sys)
  on_totp envs input identity applications (some totp_failed) sys = (
    totp_audit (envs 0) input identity failed sys,
    ok (not_yet_made not_made (totp_step failed ∷ [])),
  )

  unfoldable pub with_applications :
      (ℕ → Env)
      → ExistingStaffInput
      → StaffPerson
      → Option TotpAnswer
      → List ApplicationRow
      → OrganSystem
      → OrganSystem × Result OrganError Reply
  unfolding on_totp complete_membership
  with_applications envs input p management applications sys =
      if is_true p.totp_configured
      then complete_membership digest (later envs) (completion_of input p.identity applications)
          (totp_step noop ∷ []) sys
      else on_totp envs input p.identity applications management sys

  unfoldable pub add_existing_staff :
      (ℕ → Env)
      → ExistingStaffInput
      → Option StaffPerson
      → String
      → Option TotpAnswer
      → Identity
      → OrganSystem
      → OrganSystem × Result OrganError Reply
  unfolding with_applications selected_governance_applications
  add_existing_staff envs input person issuer management session sys =
      elim (known_person issuer person) [
        | none ↦ (sys, err staff_not_found)
        | some p ↦
            let applications : Option (List ApplicationRow) =
              selected_governance_applications input.application_keys sys.access in
            if is_self p.identity session
            then (sys, err self_mutation_forbidden)
            else elim applications [
              | none ↦ (sys, err not_governance_application)
              | some as' ↦ with_applications envs input p management as' sys
            ]
      ]
