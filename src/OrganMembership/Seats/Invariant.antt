-- ===== src/OrganMembership/Seats/Invariant.antt =====
-- The rows of organ_memberships under the operations.
use sq_hub.Common.{
  String, [], ◌∷◌, Bool, true, ◌≡◌, refl, inl, inr, any, All, All-any, All-append, All-update_where,
  Apart, Apart-append, Apart-update_where, update_row, update_where, Bool-cases, arith,
}
use sq_hub.Common.Identity.{Identity, ActorRef, Env}
use sq_hub.OrganMembership.Store.{
  MembershipRow, OrganDb, is_active, collides, has_row_id, active_row, of_path_b, CreateInput,
  ChangeInput, EndInput, new_membership, changed, ended_row, as_existing_staff, create, change,
  end_membership, mark_existing_staff,
}
use sq_hub.OrganMembership.Seats.Outcomes.{create-cases, change-cases, end-cases}
use sq_hub.OrganMembership.Seats.{Op, creating, changing, ending, marking, run, dated, WellFormed}

-- An update that moves no id and no identity, and makes nothing active.
abbrev pub Tame : (MembershipRow → MembershipRow) → Type 0
Tame f =
    (x : MembershipRow)
    → ((f x).id ≡ x.id)
      × ((f x).identity ≡ x.identity)
      × (is_active (f x).status ≡ true → is_active x.status ≡ true)

Tame-update_row :
    (p : MembershipRow → Bool) (f : MembershipRow → MembershipRow) → Tame f → Tame (update_row p f)
Tame-update_row p f t x = elim (Bool-cases (p x)) [
  | inl e ↦ rw e (t x)
  | inr e ↦ rw e (refl, refl, λ h. h)
]

collides-Tame :
    (f : MembershipRow → MembershipRow)
    → Tame f
    → (x y : MembershipRow) → collides (f x) (f y) ≡ true
    → collides x y ≡ true
collides-Tame f t x y h =
    let (xid, xi, xs) = t x in
    let (yid, yi, ys) = t y in ground (arith, xid, xi, xs, yid, yi, ys, h)

WellFormed-update_where :
    (p : MembershipRow → Bool) (f : MembershipRow → MembershipRow) (db : OrganDb)
    → Tame f
    → ((x : MembershipRow)
        → dated x.status x.ended_at ≡ true
        → dated (f x).status (f x).ended_at ≡ true)
    → WellFormed db
    → Apart collides (update_where p f db.memberships)
      × All (λ r. dated r.status r.ended_at ≡ true) (update_where p f db.memberships)
WellFormed-update_where p f db t d (apart, dates) = (
  Apart-update_where collides p f db.memberships
      (collides-Tame (update_row p f) (Tame-update_row p f t)) apart,
  All-update_where (λ r. dated r.status r.ended_at ≡ true) (λ r. dated r.status r.ended_at ≡ true) p
      f db.memberships (λ x _ _. d x) dates dates,
)

module _ (digest : String → String) where
  WellFormed-create :
      (env : Env) (input : CreateInput) (db : OrganDb)
      → WellFormed db
      → WellFormed (create digest env input db).0
  WellFormed-create env input db (apart, dates) = elim (create-cases digest env input db) [
    | inl (g, e) ↦ rw e (apart, dates)
    | inr (g, (events, e)) ↦ rw e (
      Apart-append collides db.memberships (new_membership env input)
          (All-any (λ r. collides r (new_membership env input)) db.memberships g) apart,
      All-append (λ r. dated r.status r.ended_at ≡ true) db.memberships
          (new_membership env input ∷ []) dates (refl, tt),
    )
  ]

  WellFormed-change :
      (env : Env) (input : ChangeInput) (db : OrganDb)
      → WellFormed db
      → WellFormed (change digest env input db).0
  WellFormed-change env input db h = elim (change-cases digest env input db) [
    | inl (g, e) ↦ rw e h
    | inr (r, events, g, e) ↦ rw e (
        WellFormed-update_where (active_row input.id) (changed env input) db
          (λ x. (refl, refl, λ k. k)) (λ x k. k) h)
  ]

  WellFormed-end_membership :
      (env : Env) (input : EndInput) (db : OrganDb)
      → WellFormed db
      → WellFormed (end_membership digest env input db).0
  WellFormed-end_membership env input db h = elim (end-cases digest env input db) [
    | inl (g, e) ↦ rw e h
    | inr (inl (r, g, s, e)) ↦ rw e h
    | inr (inr (r, events, g, s, e)) ↦ rw e (
        WellFormed-update_where (has_row_id input.id) (ended_row env input) db
          (λ x. (refl, refl, λ k. cc)) (λ x k. refl) h)
  ]

  WellFormed-mark_existing_staff :
      (env : Env) (i : Identity) (reason : String) (actor : ActorRef) (db : OrganDb)
      → WellFormed db
      → WellFormed (mark_existing_staff digest env i reason actor db).0
  unfolding mark_existing_staff
  WellFormed-mark_existing_staff env i reason actor db h =
      elim (Bool-cases (any (of_path_b i) db.memberships)) [
        | inl e ↦
            rw (e, mark_existing_staff)
              (WellFormed-update_where (of_path_b i) (as_existing_staff env) db
                (λ x. (refl, refl, λ k. k)) (λ x k. k) h)
        | inr e ↦ rw (e, mark_existing_staff) h
      ]

  -- Every operation on the memberships, accepted or not, keeps them well formed: no two rows of one id, one
  -- active membership of a person at most, and the time of the end on the ended ones alone.
  pub WellFormed-run : (op : Op) (db : OrganDb) → WellFormed db → WellFormed (run digest op db)
  WellFormed-run (creating env input) db h = WellFormed-create env input db h
  WellFormed-run (changing env input) db h = WellFormed-change env input db h
  WellFormed-run (ending env input) db h = WellFormed-end_membership env input db h
  WellFormed-run (marking env i reason actor) db h =
      WellFormed-mark_existing_staff env i reason actor db h
