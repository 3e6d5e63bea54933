-- ===== src/OrganizationDirectory/Validation/Facts.antt =====
-- What a snapshot that passed `validateSnapshot` has.
use sq_hub.Common.{
  String, none, some, List, [], ◌∷◌, Bool, true, false, ◌&&◌, ◌≡◌, refl, sym, subst, inl, inr, all,
  Bool-cases, split_and, str_eq,
}
use sq_hub.Common.Identity.{Identity, same_identity, same_identity_iff}
use sq_hub.OrganizationDirectory.{Snapshot}
use sq_hub.OrganizationDirectory.Tree.{has, Verdict, accepted, rejected, unfinished, validate_tree}
use sq_hub.OrganizationDirectory.Validation.{
  accepts, has_identity, add_refs, people_ok, unit_ids, position_ids, dates_ok, kinds_ok, rows_ok,
  trees_ok, snapshot_ok,
}

accepts_inv : (v : Verdict) → accepts v ≡ true → v ≡ accepted
accepts_inv accepted h = refl
accepts_inv rejected h = cc
accepts_inv unfinished h = cc

-- the fourth and the sixth part of a conjunction
fourth_and_sixth :
    (a b c d e f g : Bool)
    → (a && (b && (c && (d && (e && (f && g)))))) ≡ true
    → (d ≡ true) × (f ≡ true)
fourth_and_sixth a b c d e f g h =
    let later =
      (split_and d (e && (f && g))
        (split_and c (d && (e && (f && g)))
          (split_and b (c && (d && (e && (f && g))))
            (split_and a (b && (c && (d && (e && (f && g))))) h).1).1).1) in
    (later.0, (split_and f g (split_and e (f && g) later.1).1).0)

module _ (is_guid : String → Bool) (content_version : Snapshot → String) where
  trees_and_people :
      (as_of : String) (s : Snapshot)
      → snapshot_ok is_guid content_version as_of s ≡ true
      → (trees_ok s ≡ true) × (people_ok (unit_ids s) (position_ids s) [] s.people ≡ true)
  unfolding snapshot_ok
  trees_and_people as_of s h =
      fourth_and_sixth (dates_ok as_of s) (kinds_ok is_guid s) (rows_ok s) (trees_ok s)
        (all (λ p. has p.unit_id (unit_ids s)) s.positions)
        (people_ok (unit_ids s) (position_ids s) [] s.people) (str_eq (content_version s) s.version)
        h

  pub snapshot_ok-units :
      (as_of : String) (s : Snapshot)
      → snapshot_ok is_guid content_version as_of s ≡ true
      → validate_tree (λ u. u.id) (λ u. u.parent_unit_id) s.units ≡ accepted
  unfolding trees_ok
  snapshot_ok-units as_of s h =
      accepts_inv (validate_tree (λ u. u.id) (λ u. u.parent_unit_id) s.units)
        (split_and (accepts (validate_tree (λ u. u.id) (λ u. u.parent_unit_id) s.units))
          (accepts (validate_tree (λ p. p.id) (λ p. p.parent_position_id) s.positions))
          (trees_and_people as_of s h).0).0

  pub snapshot_ok-people :
      (as_of : String) (s : Snapshot)
      → snapshot_ok is_guid content_version as_of s ≡ true
      → people_ok (unit_ids s) (position_ids s) [] s.people ≡ true
  snapshot_ok-people as_of s h = (trees_and_people as_of s h).1

-- an identity among those that a person adds, or that were seen before
pub add_refs_inv :
    (i : Identity) (seen refs : List Identity) {seen' : List Identity}
    → add_refs seen refs ≡ some seen'
    → ((has_identity i seen ≡ true) → (has_identity i refs ≡ false) × (has_identity i seen' ≡ true))
      × ((has_identity i refs ≡ true) → has_identity i seen' ≡ true)
unfolding add_refs
add_refs_inv i seen [] {seen'} h = (λ k. (refl, same h k), λ k. cc)
  where
    same : some seen ≡ some seen' → has_identity i seen ≡ true → has_identity i seen' ≡ true
    same e k = cc
add_refs_inv i seen (r ∷ refs) h = elim (Bool-cases (has_identity r seen)) [
  | inl e ↦ absurd (no (rw (e, add_refs) at h))
  | inr e ↦
      let (old, new) = add_refs_inv i (r ∷ seen) refs (rw (e, add_refs) at h) in
      elim (Bool-cases (same_identity i r)) [
        | inl t ↦ rw t (λ k. absurd (both (same t e) k), λ k. (old (rw t refl)).1)
        | inr t ↦ rw t (λ k. old (rw t k), new)
      ]
]
  where
    same : same_identity i r ≡ true → has_identity r seen ≡ false → has_identity i seen ≡ false
    same t e = subst (λ j. has_identity j seen ≡ false) (sym ((same_identity_iff i r).0 t)) e

    both : has_identity i seen ≡ false → has_identity i seen ≡ true → ⊥
    both e k = cc

    no : {xs : List Identity} → none ≡ some xs → ⊥
    no e = cc
