-- ===== src/OrganMembership/Seats/Endings.antt =====
-- The seats when a membership ends.
use sq_hub.Common.{
  String, Option, none, some, List, [], ◌∷◌, true, false, ◌≡◌, refl, sym, subst, ap, ◌∙◌, inl, inr,
  find?, find?-test, All, All-find?, Apart, Apart-find?, update_where, Bool-cases, str_eq, eq_iff,
  if◌then◌else◌, arith,
}
use sq_hub.Common.Identity.{Identity, Env, same_identity_iff}
use sq_hub.OrganMembership.Store.{
  ended, MembershipRow, OrganDb, is_active, collides, has_row_id, active_of, get_active, EndInput,
  ended_row, end_membership,
}
use sq_hub.OrganMembership.Seats.{ending, WellFormed, seat_of, without}
use sq_hub.OrganMembership.Seats.Outcomes.{end-cases}
use sq_hub.OrganMembership.Seats.Lookups.{Refined}

module _ (digest : String → String) where
  -- with one active membership of a person at most, ending that one leaves none
  find?-ended :
      (id : String) (env : Env) (input : EndInput) (j : Identity) (rows : List MembershipRow)
      → Apart collides rows
      → find? (active_of j) (update_where (has_row_id id) (ended_row env input) rows)
        ≡ elim (find? (active_of j) rows) [
          | none ↦ none
          | some r ↦ if str_eq r.id id then none else some r
        ]
  find?-ended id env input j [] h = refl
  find?-ended id env input j (x ∷ xs) (apart, rest) = elim (Bool-cases (active_of j x)) [
    | inl e ↦ elim (Bool-cases (str_eq x.id id)) [
      | inl t ↦ rw (t, off x) (rw e (rw t (later e xs apart)))
      | inr t ↦ rw t (rw e (rw t refl))
    ]
    | inr e ↦ elim (Bool-cases (str_eq x.id id)) [
      | inl t ↦ rw (t, off x) (rw e (find?-ended id env input j xs rest))
      | inr t ↦ rw t (rw e (find?-ended id env input j xs rest))
    ]
  ]
    where
      off : (y : MembershipRow) → active_of j (ended_row env input y) ≡ false
      off y = ground arith

      apart_inactive :
          (y : MembershipRow) → active_of j x ≡ true → collides x y ≡ false → active_of j y ≡ false
      apart_inactive y h k = ground (
        arith,
        h,
        k,
        same_identity_iff x.identity j,
        same_identity_iff y.identity j,
        same_identity_iff x.identity y.identity,
      )

      later :
          active_of j x ≡ true
          → (ys : List MembershipRow) → All (λ y. collides x y ≡ false) ys
          → find? (active_of j) (update_where (has_row_id id) (ended_row env input) ys) ≡ none
      later h [] k = refl
      later h (y ∷ ys) (k, ks) = elim (Bool-cases (str_eq y.id id)) [
        | inl t ↦ rw (t, off y) (later h ys ks)
        | inr t ↦ rw (t, apart_inactive y h k) (later h ys ks)
      ]

  pub refines-end_membership :
      (env : Env) (input : EndInput) (db : OrganDb) (j : Identity)
      → WellFormed db
      → Refined (ending env input) db j (end_membership digest env input db)
  unfolding get_active
  refines-end_membership env input db j (apart, dates) = elim (end-cases digest env input db) [
    | inl (g, e) ↦ subst (Refined (ending env input) db j) (sym e) refl
    | inr (inl (r, g, s, e)) ↦ subst (Refined (ending env input) db j) (sym e) (
        elsewhere (find? (active_of j) db.memberships)
          (λ x k. (
            find?-test (active_of j) db.memberships k,
            All-find? (λ y. has_row_id input.id y ≡ true → y ≡ r) (active_of j) db.memberships
                (Apart-find? collides (has_row_id input.id) db.memberships one_id apart g) k,
          ))
          s)
    | inr (inr (r, events, g, s, e)) ↦ subst (Refined (ending env input) db j) (sym e) (
        ap seat_of (find?-ended input.id env input j db.memberships apart)
        ∙ vacated (find? (active_of j) db.memberships))
  ]
    where
      one_id :
          (x y : MembershipRow)
          → has_row_id input.id x ≡ true
          → has_row_id input.id y ≡ true
          → collides x y ≡ true
      one_id x y h k =
          ground (arith, h, k, eq_iff x.id input.id, eq_iff y.id input.id, eq_iff x.id y.id)

      elsewhere :
          {r : MembershipRow} (o : Option MembershipRow)
          → ((x : MembershipRow)
              → o ≡ some x
              → (active_of j x ≡ true) × (has_row_id input.id x ≡ true → x ≡ r))
          → r.status ≡ ended
          → seat_of o ≡ without input.id (seat_of o)
      elsewhere none h s = refl
      elsewhere {r} (some x) h s = elim (Bool-cases (str_eq x.id input.id)) [
        | inr t ↦ rw t refl
        | inl t ↦ let (on, same) = h x refl in absurd (off on (same t) s)
      ]
        where
          off : active_of j x ≡ true → x ≡ r → r.status ≡ ended → ⊥
          off a b c =
              let now : is_active x.status ≡ false =
                subst (λ y. is_active y.status ≡ false) (sym b) (rw c refl) in
              ground (arith, a, now)

      vacated :
          (o : Option MembershipRow)
          → seat_of
              (elim o [ none ↦ none | some r ↦ if str_eq r.id input.id then none else some r ])
            ≡ without input.id (seat_of o)
      vacated none = refl
      vacated (some r) = elim (Bool-cases (str_eq r.id input.id)) [
        | inl t ↦ rw t refl
        | inr t ↦ rw t refl
      ]
