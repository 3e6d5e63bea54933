-- ===== src/OrganMembership/Service/Progress.antt =====
-- `addExistingStaff` of apps/api/src/modules/organ-membership/service.ts, where its conditions hold.
use sq_hub.Common.{
  ℕ, suc, String, Option, none, some, List, [], ◌∷◌, ◌++◌, Bool, true, false, ◌≡◌, refl, sym, subst,
  ◌⊎◌, inl, inr, any, find?, find?-append, All, Some, Apart, Bool-cases, Option-cases, str_eq,
  is_some, arith, ok,
}
use sq_hub.Common.Identity.{Identity, succeeded, noop, Env, same_identity_refl}
use sq_hub.ApplicationAccess.{ApplicationRow, AccessDb, check_access, allowed}
use sq_hub.OrganMembership.Store.{
  MembershipRow, OrganDb, audit, has_row_id, active_of, get_active, collides, new_membership,
}
use sq_hub.OrganMembership.Seats.Outcomes.{create-cases}
use sq_hub.OrganMembership.Service.{
  OrganStep, all_done, Reply, OrganSystem, CompletionInput, is_failed, membership_step,
  create_input, on_created, later, complete_membership, is_self, selected_governance_applications,
}
use sq_hub.OrganMembership.Service.Staff.{
  TotpAnswer, totp_set, totp_required, StaffPerson, ExistingStaffInput, known_person, is_true,
  completion_of, on_totp, with_applications, add_existing_staff, totp_step, totp_audit,
}
use sq_hub.OrganMembership.Service.Selections.{
  same_key, Registered, selected_governance_applications_inv,
}
use sq_hub.OrganMembership.Service.Completions.{any-append, Done, finish-Done}

-- No membership has an identifier that one of the calls will make.
abbrev pub Fresh : (ℕ → Env) → OrganDb → Type 0
Fresh envs db = (n : ℕ) → any (has_row_id ((envs n).uuid 0)) db.memberships ≡ false

find?-none-collides :
    (new : MembershipRow) (rows : List MembershipRow)
    → any (has_row_id new.id) rows ≡ false
    → find? (active_of new.identity) rows ≡ none
    → any (λ r. collides r new) rows ≡ false
find?-none-collides new [] h k = refl
find?-none-collides new (r ∷ rows) h k = elim (Bool-cases (active_of new.identity r)) [
  | inl e ↦ absurd (no (rw e at k))
  | inr e ↦
      let rest = find?-none-collides new rows (ground (arith, h)) (rw e at k) in
      ground (arith, h, e, rest)
]
  where
    no : {a : MembershipRow} → some a ≡ none → ⊥
    no e = cc

seated_after :
    (new : MembershipRow) (rows : List MembershipRow)
    → active_of new.identity new ≡ true
    → is_some (find? (active_of new.identity) (rows ++ new ∷ [])) ≡ true
seated_after new rows h =
    rw (find?-append (active_of new.identity) rows (new ∷ []))
      (either (find? (active_of new.identity) rows))
  where
    either :
        (o : Option MembershipRow)
        → is_some (elim o [ some x ↦ some x | none ↦ find? (active_of new.identity) (new ∷ []) ])
          ≡ true
    either (some x) = refl
    either none = rw h refl

module _ (digest : String → String) where
  -- Whoever has a seat keeps it, whoever has none gets one, and the applications follow.
  complete_membership-Done :
      (envs : ℕ → Env) (input : CompletionInput) (steps : List OrganStep) (sys : OrganSystem)
      → any is_failed steps ≡ false
      → Fresh envs sys.organ
      → All (Registered sys.access) input.applications
      → Done input (complete_membership digest envs input steps sys)
  unfolding complete_membership on_created get_active
  complete_membership-Done envs input steps sys fine fresh known =
      elim (Option-cases (get_active input.identity sys.organ)) [
        | inr (m, e) ↦
            rw (e, complete_membership)
              (finish-Done (later envs) input (steps ++ membership_step noop ∷ []) m sys
                (any-append is_failed steps (membership_step noop ∷ []) fine refl) (rw e refl)
                known)
        | inl e ↦ elim (create-cases digest (envs 0) (create_input input) sys.organ) [
          | inl (c, g) ↦ absurd (
              no c (
                find?-none-collides (new_membership (envs 0) (create_input input))
                  sys.organ.memberships (fresh 0) e))
          | inr (g, (events, c)) ↦
              rw (e, complete_membership)
                (subst (λ r. Done input (on_created envs input steps sys.access r)) (sym c)
                  (finish-Done (later envs) input (steps ++ membership_step succeeded ∷ [])
                    (new_membership (envs 0) (create_input input))
                    (record {
                      organ = record {
                        memberships =
                            sys.organ.memberships
                            ++ new_membership (envs 0) (create_input input) ∷ [];
                        audit = events;
                      };
                      access = sys.access;
                    })
                    (any-append is_failed steps (membership_step succeeded ∷ []) fine refl)
                    (seated_after (new_membership (envs 0) (create_input input))
                      sys.organ.memberships (rw (same_identity_refl input.identity) refl))
                    known))
        ]
      ]
    where
      no : {b : Bool} → b ≡ true → b ≡ false → ⊥
      no h k = cc

  -- two-step verification is set up, or the identity provider has been made to ask for it
  abbrev pub Verified : StaffPerson → Option TotpAnswer → Type 0
  Verified p management =
      (is_true p.totp_configured ≡ true)
      ⊎ ((management ≡ some totp_set) ⊎ (management ≡ some totp_required))

  with_applications-Done :
      (envs : ℕ → Env) (input : ExistingStaffInput) (p : StaffPerson)
      (management : Option TotpAnswer) (applications : List ApplicationRow) (sys : OrganSystem)
      → Verified p management
      → Fresh envs sys.organ
      → All (Registered sys.access) applications
      → Done
          (completion_of input p.identity applications)
          (with_applications digest envs input p management applications sys)
  unfolding with_applications on_totp audit
  with_applications-Done envs input p management applications sys verified fresh known =
      elim (Bool-cases (is_true p.totp_configured)) [
        | inl t ↦
            rw (t, with_applications)
              (complete_membership-Done (later envs) (completion_of input p.identity applications)
                (totp_step noop ∷ []) sys refl (λ n. fresh (suc n)) known)
        | inr t ↦ rw (t, with_applications) (asked management (answered t verified))
      ]
    where
      answered :
          is_true p.totp_configured ≡ false
          → Verified p management
          → (management ≡ some totp_set) ⊎ (management ≡ some totp_required)
      answered t (inl h) = cc
      answered t (inr h) = h

      asked :
          (m : Option TotpAnswer)
          → (m ≡ some totp_set) ⊎ (m ≡ some totp_required)
          → Done
              (completion_of input p.identity applications)
              (on_totp digest envs input p.identity applications m sys)
      asked m (inl h) =
          subst
            (λ k.
              Done (completion_of input p.identity applications)
                (on_totp digest envs input p.identity applications k sys))
            (sym h)
            (complete_membership-Done (later envs) (completion_of input p.identity applications)
              (totp_step succeeded ∷ []) (totp_audit digest (envs 0) input p.identity succeeded sys)
              refl (λ n. fresh (suc n)) known)
      asked m (inr h) =
          subst
            (λ k.
              Done (completion_of input p.identity applications)
                (on_totp digest envs input p.identity applications k sys))
            (sym h)
            (complete_membership-Done (later envs) (completion_of input p.identity applications)
              (totp_step noop ∷ []) (totp_audit digest (envs 0) input p.identity noop sys) refl
              (λ n. fresh (suc n)) known)

  -- Adding a person of the staff reaches its end: if the directory knows the person, who is somebody else than the
  -- administrator, with two-step verification set up or asked for, if the keys of applications are unique and
  -- those requested are of governance, and the identifiers made are new, then the answer is that all is done,
  -- the person has an active membership, and access to each application requested.
  pub add_existing_staff-progress :
      (envs : ℕ → Env) (input : ExistingStaffInput) (person : Option StaffPerson) (issuer : String)
      (management : Option TotpAnswer) (session : Identity) (sys : OrganSystem) (p : StaffPerson)
      (applications : List ApplicationRow)
      → known_person issuer person ≡ some p
      → is_self p.identity session ≡ false
      → selected_governance_applications input.application_keys sys.access ≡ some applications
      → Apart same_key sys.access.applications
      → Verified p management
      → Fresh envs sys.organ
      → (reply : Reply) × ((add_existing_staff digest envs input person issuer management session
            sys).1
          ≡ ok reply)
        × (reply.outcome ≡ all_done)
        × (is_some (
              get_active p.identity
                (add_existing_staff digest envs input person issuer management session sys).0.organ)
            ≡ true)
        × ((key : String)
            → any (str_eq key) input.application_keys ≡ true
            → allowed (
                check_access p.identity key
                  (add_existing_staff digest envs input person issuer management session
                    sys).0.access)
              ≡ true)
  unfolding add_existing_staff
  add_existing_staff-progress envs input person issuer management session sys p applications found
        other chosen unique verified fresh =
      let (known, named) =
        selected_governance_applications_inv input.application_keys sys.access unique chosen in
      let (reply, answer, outcome, seated, served) =
        with_applications-Done envs input p management applications sys verified fresh known in
      rw (found, chosen, other, add_existing_staff)
        (reply, answer, outcome, seated, λ key k. reached _ key applications (named key k) served)
    where
      reached :
          (db : AccessDb) (key : String) (as' : List ApplicationRow)
          → Some (λ a. a.application_key ≡ key) as'
          → All (λ a. allowed (check_access p.identity a.application_key db) ≡ true) as'
          → allowed (check_access p.identity key db) ≡ true
      reached db key [] n h = absurd n
      reached db key (a ∷ as') (inl e) (h, hs) =
          subst (λ k. allowed (check_access p.identity k db) ≡ true) e h
      reached db key (a ∷ as') (inr n) (h, hs) = reached db key as' n hs
