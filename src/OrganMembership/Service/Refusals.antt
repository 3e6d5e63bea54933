-- ===== src/OrganMembership/Service/Refusals.antt =====
-- What `addExistingStaff` of apps/api/src/modules/organ-membership/service.ts refuses.
use sq_hub.Common.{
  ℕ, String, Option, none, some, List, [], ◌∷◌, true, false, ◌≡◌, refl, ◌⊎◌, inl, inr, Result, ok,
  Bool-cases, Option-cases,
}
use sq_hub.Common.Identity.{Identity, failed, Env}
use sq_hub.ApplicationAccess.{ApplicationRow}
use sq_hub.OrganMembership.Store.{audit}
use sq_hub.OrganMembership.Service.{
  all_done, Reply, OrganError, OrganSystem, is_self, not_made, not_yet_made,
  selected_governance_applications,
}
use sq_hub.OrganMembership.Service.Staff.{
  TotpAnswer, totp_failed, StaffPerson, ExistingStaffInput, known_person, is_true, totp_step,
  on_totp, with_applications, add_existing_staff,
}

-- no person, the administrator's own, an application that is none of governance, or no two-step verification
abbrev pub Refusable :
    ExistingStaffInput
    → Option StaffPerson
    → String
    → Option TotpAnswer
    → Identity
    → OrganSystem
    → Type 0
Refusable input person issuer management session sys =
    (known_person issuer person ≡ none)
    ⊎ ((p : StaffPerson) × (known_person issuer person ≡ some p)
        × ((is_self p.identity session ≡ true)
            ⊎ ((selected_governance_applications input.application_keys sys.access ≡ none)
                ⊎ ((is_true p.totp_configured ≡ false)
                    × ((management ≡ none) ⊎ (management ≡ some totp_failed))))))

-- nobody is seated and nobody gets access, and the answer is not that all is done
abbrev pub Untouched : OrganSystem → OrganSystem × Result OrganError Reply → Type 0
Untouched sys r =
    (r.0.organ.memberships ≡ sys.organ.memberships)
    × (r.0.access ≡ sys.access)
    × ((reply : Reply) → r.1 ≡ ok reply → reply.outcome ≡ all_done → ⊥)

module _ (digest : String → String) where
  unverified :
      (envs : ℕ → Env) (input : ExistingStaffInput) (p : StaffPerson)
      (management : Option TotpAnswer) (applications : List ApplicationRow) (sys : OrganSystem)
      → is_true p.totp_configured ≡ false
      → (management ≡ none) ⊎ (management ≡ some totp_failed)
      → Untouched sys (with_applications digest envs input p management applications sys)
  unfolding with_applications on_totp audit
  unverified envs input p management applications sys t (inl m) =
      rw (t, m, with_applications) (refl, refl, λ reply e k. cc)
  unverified envs input p management applications sys t (inr m) =
      rw (t, m, with_applications) (refl, refl, λ reply e k. not_done reply e k)
    where
      not_done :
          (reply : Reply)
          → ◌≡◌ {A = Result OrganError Reply}
              (ok (not_yet_made not_made (totp_step failed ∷ [])))
              (ok reply)
          → reply.outcome ≡ all_done
          → ⊥
      not_done reply e k = cc

  -- A request for nobody known, for the administrator's own account, for an application that is none of governance,
  -- or for somebody whose two-step verification is neither set up nor asked for, changes no membership and no
  -- access, and is never answered as done.
  pub add_existing_staff-refused :
      (envs : ℕ → Env) (input : ExistingStaffInput) (person : Option StaffPerson) (issuer : String)
      (management : Option TotpAnswer) (session : Identity) (sys : OrganSystem)
      → Refusable input person issuer management session sys
      → Untouched sys (add_existing_staff digest envs input person issuer management session sys)
  unfolding add_existing_staff
  add_existing_staff-refused envs input person issuer management session sys (inl e) =
      rw (e, add_existing_staff) (refl, refl, λ reply e k. cc)
  add_existing_staff-refused envs input person issuer management session sys (inr (p, e, inl s)) =
      rw (e, s, add_existing_staff) (refl, refl, λ reply e k. cc)
  add_existing_staff-refused envs input person issuer management session sys
        (inr (p, e, inr (inl c))) =
      elim (Bool-cases (is_self p.identity session)) [
        | inl s ↦ rw (e, s, add_existing_staff) (refl, refl, λ reply e k. cc)
        | inr s ↦ rw (e, c, s, add_existing_staff) (refl, refl, λ reply e k. cc)
      ]
  add_existing_staff-refused envs input person issuer management session sys
        (inr (p, e, inr (inr (t, m)))) =
      elim (Bool-cases (is_self p.identity session)) [
        | inl s ↦ rw (e, s, add_existing_staff) (refl, refl, λ reply e k. cc)
        | inr s ↦
            elim (Option-cases
              (selected_governance_applications input.application_keys sys.access)) [
                | inl c ↦ rw (e, c, s, add_existing_staff) (refl, refl, λ reply e k. cc)
                | inr (as', c) ↦
                    rw (e, c, s, add_existing_staff)
                      (unverified envs input p management as' sys t m)
              ]
      ]
