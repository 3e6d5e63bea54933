-- ===== src/OrganizationDirectory/Reading/Lineages.antt =====
-- GET /units/{unitId}/ancestry: the chain of units above one.
use sq_hub.Common.{
  ℕ, zero, suc, String, Option, none, some, List, [], ◌∷◌, ◌++◌, Bool, true, ◌≡◌, refl, sym, subst,
  ap, ◌∙◌, inl, inr, any, All, Bool-cases, Option-cases, str_eq, eq_iff, ok,
}
use sq_hub.OrganizationDirectory.{OrgUnit, Snapshot}
use sq_hub.OrganizationDirectory.Tree.{has, ended, broken, get, climb, fuel_of}
use sq_hub.OrganizationDirectory.Tree.Climbs.{Ends}
use sq_hub.OrganizationDirectory.Tree.Forest.{climb-Ends, validate_tree_iff}
use sq_hub.OrganizationDirectory.Validation.Facts.{snapshot_ok-units}
use sq_hub.OrganizationDirectory.Sync.{Projection, DirectoryDb}
use sq_hub.OrganizationDirectory.Sync.Histories.{Runs, Sound, Runs-Follows}
use sq_hub.OrganizationDirectory.Reading.{lineage, get_ancestry}

abbrev unit_of : List OrgUnit → String → Option OrgUnit
unit_of units id = get (λ u. u.id) (λ u. u.parent_unit_id) units id

-- These units lead from the id to a root: each is the unit of its id, and the next is its parent.
abbrev pub Upward : List OrgUnit → Option String → List OrgUnit → Type 0
Upward units none [] = Unit
Upward units none (u ∷ us) = ⊥
Upward units (some id) [] = ⊥
Upward units (some id) (u ∷ us) = (unit_of units id ≡ some u) × Upward units u.parent_unit_id us

append_nil : {A : Type 0} (xs : List A) → xs ++ [] ≡ xs
append_nil [] = refl
append_nil (x ∷ xs) = ap (◌∷◌ x) (append_nil xs)

append_assoc : {A : Type 0} (xs ys zs : List A) → (xs ++ ys) ++ zs ≡ xs ++ (ys ++ zs)
append_assoc [] ys zs = refl
append_assoc (x ∷ xs) ys zs = ap (◌∷◌ x) (append_assoc xs ys zs)

-- The loop takes the way of the loop of `validateTree`, and collects it.
lineage-climb :
    (fuel : ℕ) (units : List OrgUnit) (seen : List String) (items : List OrgUnit)
    (o : Option String) {path : List String}
    → climb (λ u. u.id) (λ u. u.parent_unit_id) fuel units [] seen o ≡ ended path
    → (more : List OrgUnit) × (lineage fuel units seen items o ≡ ok (items ++ more))
      × Upward units o more
unfolding climb lineage
lineage-climb fuel units seen items none h = ([], ap ok (sym (append_nil items)), tt)
lineage-climb zero units seen items (some id) h = cc
lineage-climb (suc n) units seen items (some id) {path} h = elim (Bool-cases (has id seen)) [
  | inl e ↦ absurd (stop (rw (e, climb) at h))
  | inr e ↦ elim (Option-cases (unit_of units id)) [
    | inl g ↦ absurd (stop (rw (e, g, climb) at h))
    | inr (u, g) ↦
        let (more, made, up) =
          lineage-climb n units (id ∷ seen) (items ++ u ∷ []) u.parent_unit_id
            (rw (e, g, climb) at h) in
        (u ∷ more, rw (g, e, lineage) (made ∙ ap ok (append_assoc items (u ∷ []) more)), (g, up))
  ]
]
  where
    stop : broken ≡ ended path → ⊥
    stop e = cc

Ends-any :
    (rows : List OrgUnit) (id : String) (units : List OrgUnit)
    → All (λ u. Ends (λ u. u.id) (λ u. u.parent_unit_id) rows (some u.id)) units
    → any (λ u. str_eq u.id id) units ≡ true
    → Ends (λ u. u.id) (λ u. u.parent_unit_id) rows (some id)
Ends-any rows id [] hs h = cc
Ends-any rows id (u ∷ us) (ends, rest) h = elim (Bool-cases (str_eq u.id id)) [
  | inl e ↦
      subst (λ i. Ends (λ u. u.id) (λ u. u.parent_unit_id) rows (some i)) ((eq_iff u.id id).0 e)
        ends
  | inr e ↦ Ends-any rows id us rest (rw e at h)
]

module _ {Value : Type 0} (is_guid : String → Bool) (parse : Value → Option Snapshot)
    (content_version : Snapshot → String) (date_parse : String → ℕ) where
  -- After any sequence of synchronisations from a sound projection, the ancestry of each unit that the snapshot
  -- holds is answered: the units from it to a root, each with its parent next.
  pub get_ancestry_lem :
      {a b : DirectoryDb}
      → Runs is_guid parse content_version date_parse a b
      → Sound is_guid parse content_version date_parse a.projection
      → (p : Projection) (id : String) → b.projection ≡ some p
      → any (λ u. str_eq u.id id) p.snapshot.units ≡ true
      → (items : List OrgUnit) × (get_ancestry id b.projection ≡ ok items)
        × Upward p.snapshot.units (some id) items
  unfolding get_ancestry
  get_ancestry_lem {a} {b} r h p id e here = rw e (
      found (
        subst (Sound is_guid parse content_version date_parse) e
          (Runs-Follows is_guid parse content_version date_parse r h).0))
    where
      found :
          Sound is_guid parse content_version date_parse (some p)
          → (items : List OrgUnit) × (get_ancestry id (some p) ≡ ok items)
            × Upward p.snapshot.units (some id) items
      found ((as_of, fine), units, positions, people) =
          let tree =
            (validate_tree_iff (λ u. u.id) (λ u. u.parent_unit_id) p.snapshot.units).0
              (snapshot_ok-units is_guid content_version as_of p.snapshot fine) in
          let (path, walked) =
            climb-Ends (λ u. u.id) (λ u. u.parent_unit_id) p.snapshot.units [] (some id)
              (Ends-any p.snapshot.units id p.snapshot.units tree here) in
          rw (here, get_ancestry)
            (lineage-climb (fuel_of (λ u. u.id) (λ u. u.parent_unit_id) p.snapshot.units)
              p.snapshot.units [] [] (some id) walked)
