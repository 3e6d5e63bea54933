-- ===== src/OrganMembership/Seats/Refinement.antt =====
-- The operations on the rows, seen from the seats.
use sq_hub.Common.{
  String, Option, none, some, List, [], ◌∷◌, ◌++◌, true, false, ◌≡◌, refl, sym, subst, ap, ◌∙◌, inl,
  inr, any, find?, find?-append, find?-test, All-any, All-find?, update_row, Bool-cases,
  Option-cases, str_eq, if◌then◌else◌, arith, split_and,
}
use sq_hub.Common.Identity.{Identity, ActorRef, Env, same_identity, same_identity_iff}
use sq_hub.OrganMembership.Store.{
  MembershipRow, OrganDb, is_active, is_organ_identity, collides, active_of, active_row, of_path_b,
  get_active, CreateInput, ChangeInput, new_membership, changed, as_existing_staff, create, change,
  mark_existing_staff,
}
use sq_hub.OrganMembership.Seats.{
  Op, creating, changing, ending, marking, is_ok, run, accepted, WellFormed, seat_of, seat,
  with_terms, as_staff, seat_after, Permitted,
}
use sq_hub.OrganMembership.Seats.Outcomes.{create-cases, change-cases}
use sq_hub.OrganMembership.Seats.Lookups.{same_as, staff_path, seat-update_where, Refined}
use sq_hub.OrganMembership.Seats.Endings.{refines-end_membership}

module _ (digest : String → String) where
  free :
      (env : Env) (input : CreateInput) (rows : List MembershipRow)
      → any (λ r. collides r (new_membership env input)) rows ≡ false
      → find? (active_of input.identity) rows ≡ none
  free env input rows g = elim (Option-cases (find? (active_of input.identity) rows)) [
    | inl e ↦ e
    | inr (r, e) ↦ absurd (
        stop r (find?-test (active_of input.identity) rows e) (
          All-find? (λ r. collides r (new_membership env input) ≡ false) (active_of input.identity)
            rows (All-any (λ r. collides r (new_membership env input)) rows g) e))
  ]
    where
      stop :
          (r : MembershipRow)
          → active_of input.identity r ≡ true
          → collides r (new_membership env input) ≡ false
          → ⊥
      stop r h k = ground (arith, h, k)

  refines-create :
      (env : Env) (input : CreateInput) (db : OrganDb) (j : Identity)
      → (is_ok (create digest env input db).1 ≡ true → seat db input.identity ≡ none)
        × Refined (creating env input) db j (create digest env input db)
  unfolding get_active
  refines-create env input db j = elim (create-cases digest env input db) [
    | inl (g, e) ↦
        subst
          (λ r.
            (is_ok r.1 ≡ true → seat db input.identity ≡ none)
            × Refined (creating env input) db j r)
          (sym e) (λ k. cc, refl)
    | inr (g, (events, e)) ↦
        subst
          (λ r.
            (is_ok r.1 ≡ true → seat db input.identity ≡ none)
            × Refined (creating env input) db j r)
          (sym e) (λ _. ap seat_of (free env input db.memberships g), added g)
  ]
    where
      added :
          any (λ r. collides r (new_membership env input)) db.memberships ≡ false
          → seat_of (find? (active_of j) (db.memberships ++ new_membership env input ∷ [])) ≡ (
              if same_identity input.identity j
              then some
                  (record { id = env.uuid 0; terms = input.terms; path = input.provisioning_path })
              else seat_of (find? (active_of j) db.memberships))
      added g = elim (Bool-cases (same_identity input.identity j)) [
        | inl t ↦
            let none_yet : find? (active_of j) db.memberships ≡ none =
              subst (λ i. find? (active_of i) db.memberships ≡ none)
                ((same_identity_iff input.identity j).0 t) (free env input db.memberships g) in
            rw
              (
                find?-append (active_of j) db.memberships (new_membership env input ∷ []),
                none_yet,
                t,
              )
              refl
        | inr t ↦ elim (Option-cases (find? (active_of j) db.memberships)) [
          | inl e ↦
              rw (find?-append (active_of j) db.memberships (new_membership env input ∷ []), e, t)
                refl
          | inr (r, e) ↦
              rw (find?-append (active_of j) db.memberships (new_membership env input ∷ []), e, t)
                refl
        ]
      ]

  refines-change :
      (env : Env) (input : ChangeInput) (db : OrganDb) (j : Identity)
      → Refined (changing env input) db j (change digest env input db)
  unfolding get_active
  refines-change env input db j = elim (change-cases digest env input db) [
    | inl (g, e) ↦ subst (Refined (changing env input) db j) (sym e) refl
    | inr (r, events, g, e) ↦ subst (Refined (changing env input) db j) (sym e) (
        seat-update_where (active_row input.id) (changed env input) db.memberships j (λ x. refl)
        ∙ moved (find? (active_of j) db.memberships) (λ x. find?-test (active_of j) db.memberships))
  ]
    where
      moved :
          (o : Option MembershipRow)
          → ((x : MembershipRow) → o ≡ some x → active_of j x ≡ true)
          → elim o [
            | none ↦ none
            | some r ↦ seat_of (some (update_row (active_row input.id) (changed env input) r))
          ]
            ≡ with_terms input.id input.terms (seat_of o)
      moved none h = refl
      moved (some r) h = elim (Bool-cases (str_eq r.id input.id)) [
        | inl t ↦
            rw (t, (split_and (same_identity r.identity j) (is_active r.status) (h r refl)).1) refl
        | inr t ↦ rw t refl
      ]

  refines-mark_existing_staff :
      (env : Env) (i : Identity) (reason : String) (actor : ActorRef) (db : OrganDb) (j : Identity)
      → seat (mark_existing_staff digest env i reason actor db).0 j
        ≡ seat_after (marking env i reason actor) (seat db) j
  unfolding get_active mark_existing_staff
  refines-mark_existing_staff env i reason actor db j =
      elim (Bool-cases (any (of_path_b i) db.memberships)) [
        | inl e ↦
            rw (e, mark_existing_staff)
              (seat-update_where (of_path_b i) (as_existing_staff env) db.memberships j (λ x. refl)
                ∙ marked (find? (active_of j) db.memberships)
                    (λ x. find?-test (active_of j) db.memberships))
        | inr e ↦
            rw (e, mark_existing_staff)
              (unmarked (find? (active_of j) db.memberships) (λ x k. (
                find?-test (active_of j) db.memberships k,
                All-find? (λ y. of_path_b i y ≡ false) (active_of j) db.memberships
                    (All-any (of_path_b i) db.memberships e) k,
              )))
      ]
    where
      marked :
          (o : Option MembershipRow)
          → ((x : MembershipRow) → o ≡ some x → active_of j x ≡ true)
          → elim o [
            | none ↦ none
            | some r ↦ seat_of (some (update_row (of_path_b i) (as_existing_staff env) r))
          ]
            ≡ (if same_identity i j then as_staff (seat_of o) else seat_of o)
      marked none h = elim (Bool-cases (same_identity i j)) [
        | inl t ↦ rw t refl
        | inr t ↦ rw t refl
      ]
      marked (some r) h =
          let who =
            same_as r.identity i j
              (split_and (same_identity r.identity j) (is_active r.status) (h r refl)).0 in
          elim (Bool-cases (same_identity i j)) [
            | inr t ↦ rw (who, t) refl
            | inl t ↦ elim (Bool-cases (is_organ_identity r.provisioning_path)) [
              | inl o ↦ rw (who, t, o) refl
              | inr o ↦
                  rw (who, t, o)
                    (ap (λ p. some (record { id = r.id; terms = r.terms; path = p }))
                      (staff_path r.provisioning_path o))
            ]
          ]

      unmarked :
          (o : Option MembershipRow)
          → ((x : MembershipRow) → o ≡ some x → (active_of j x ≡ true) × (of_path_b i x ≡ false))
          → seat_of o ≡ (if same_identity i j then as_staff (seat_of o) else seat_of o)
      unmarked none h = elim (Bool-cases (same_identity i j)) [
        | inl t ↦ rw t refl
        | inr t ↦ rw t refl
      ]
      unmarked (some r) h =
          let (on, other) = h r refl in
          let who =
            same_as r.identity i j
              (split_and (same_identity r.identity j) (is_active r.status) on).0 in
          elim (Bool-cases (same_identity i j)) [
            | inr t ↦ rw t refl
            | inl t ↦ rw t (
                ap (λ p. some (record { id = r.id; terms = r.terms; path = p }))
                  (staff_path r.provisioning_path (rw (who, t) at other)))
          ]

  -- Each operation on well-formed rows does to the seats what is said of it, for every person, if it is accepted,
  -- and nothing otherwise; a membership is made only for somebody without a seat.
  pub run-refines :
      (op : Op) (db : OrganDb)
      → WellFormed db
      → (accepted digest op db ≡ true → Permitted op (seat db))
        × ((j : Identity)
            → seat (run digest op db) j
              ≡ (if accepted digest op db then seat_after op (seat db) j else seat db j))
  run-refines (creating env input) db h =
      ((refines-create env input db input.identity).0, λ j. (refines-create env input db j).1)
  run-refines (changing env input) db h = (λ _. tt, λ j. refines-change env input db j)
  run-refines (ending env input) db h =
      (λ _. tt, λ j. refines-end_membership digest env input db j h)
  run-refines (marking env i reason actor) db h =
      (λ _. tt, λ j. refines-mark_existing_staff env i reason actor db j)
