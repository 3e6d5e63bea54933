-- ===== src/OrganMembership/Seats/Lookups.antt =====
-- What selections find after an UPDATE, and the seats of it.
use sq_hub.Common.{
  find?-update_where, none, some, List, Bool, true, false, ◌≡◌, refl, sym, subst, inl, inr, find?,
  update_row, update_where, Option-cases, Result, if◌then◌else◌,
}
use sq_hub.Common.Identity.{Identity, same_identity, same_identity_iff, same_identity_sym}
use sq_hub.OrganMembership.Store.{
  MembershipRow, OrganDb, OrganStoreError, ProvisioningPath, existing_staff, organ_identity,
  is_organ_identity, active_of,
}
use sq_hub.OrganMembership.Seats.{Op, is_ok, seat_of, seat, seat_after}

pub same_as : (a b c : Identity) → same_identity a c ≡ true → same_identity a b ≡ same_identity b c
same_as a b c h =
    subst (λ x. same_identity x b ≡ same_identity b c) (sym ((same_identity_iff a c).0 h))
      (same_identity_sym c b)

pub staff_path : (p : ProvisioningPath) → is_organ_identity p ≡ false → p ≡ existing_staff
staff_path existing_staff h = refl
staff_path organ_identity h = cc

-- the seats of rows that an update changes in place
pub seat-update_where :
    (p : MembershipRow → Bool) (f : MembershipRow → MembershipRow) (rows : List MembershipRow)
    (j : Identity)
    → ((x : MembershipRow) → active_of j (f x) ≡ active_of j x)
    → seat_of (find? (active_of j) (update_where p f rows))
      ≡ elim (find? (active_of j) rows) [ none ↦ none | some r ↦ seat_of (some (update_row p f r)) ]
seat-update_where p f rows j same = elim (Option-cases (find? (active_of j) rows)) [
  | inl e ↦ rw (find?-update_where (active_of j) p f rows same, e) refl
  | inr (r, e) ↦ rw (find?-update_where (active_of j) p f rows same, e) refl
]

-- what an operation with this outcome has done to somebody's seat
abbrev pub Refined :
    {A : Type 0} → Op → OrganDb → Identity → OrganDb × Result OrganStoreError A → Type 0
Refined op db j r = seat r.0 j ≡ (if is_ok r.1 then seat_after op (seat db) j else seat db j)
