-- ===== src/OrganizationDirectory/Reading.antt =====
-- apps/api/src/modules/organization-directory/routes.ts: what the directory answers of its projection, once a
-- request is parsed. HTTP, the tokens of machines, the hash and the encoding of cursors are left out.
pub mod Lineages
pub mod Owners
use sq_hub.Common.{
  ℕ, zero, suc, ◌-◌, ◌/◌, String, Option, none, some, List, [], ◌∷◌, ◌++◌, Bool, true, false, ◌&&◌,
  ◌||◌, any, keep, length, leb, str_eq, if◌then◌else◌, Result, ok, err, max,
}
use sq_hub.Common.Identity.{Identity, same_identity}
use sq_hub.OrganizationDirectory.{OrgUnit, Person, Snapshot}
use sq_hub.OrganizationDirectory.Tree.{has, get, fuel_of}
use sq_hub.OrganizationDirectory.Sync.{Tombstone, Projection}

pub data ReadError : Type 0 where
  not_found integrity_error unavailable out_of_fuel : ReadError

pub record Metadata : Type 0 where
  pub version : String
  pub as_of : String
  pub synchronized_at : ℕ
  pub stale : Bool
  pub stale_for_seconds : ℕ

unfoldable pub directory_metadata : Projection → ℕ → Metadata
directory_metadata p now =
    let age : ℕ = now - p.synchronized_at in
    record {
      version = p.snapshot.version;
      as_of = p.snapshot.as_of;
      synchronized_at = p.synchronized_at;
      stale = leb 900000 age;
      stale_for_seconds = (age - 900000) / 1000;
    }

-- `while (id !== null)`, on fuel, with the units found so far
unfoldable pub lineage :
    ℕ → List OrgUnit → List String → List OrgUnit → Option String → Result ReadError (List OrgUnit)
lineage fuel units seen items none = ok items
lineage zero units seen items (some id) = err out_of_fuel
lineage (suc n) units seen items (some id) =
    elim (get (λ u. u.id) (λ u. u.parent_unit_id) units id) [
      | none ↦ err integrity_error
      | some unit ↦
          let rest = lineage n units (id ∷ seen) (items ++ unit ∷ []) unit.parent_unit_id in
          if has id seen then err integrity_error else rest
    ]

abbrev pub has_unit : String → Projection → Bool
has_unit id p =
    any (λ u. str_eq u.id id) p.snapshot.units || any (λ t. str_eq t.id id) p.tombstones.units

-- GET /units/{unitId}/ancestry
unfoldable pub get_ancestry : String → Option Projection → Result ReadError (List OrgUnit)
unfolding lineage
get_ancestry id none = err unavailable
get_ancestry id (some p) =
    if has_unit id p
    then lineage (fuel_of (λ u. u.id) (λ u. u.parent_unit_id) p.snapshot.units) p.snapshot.units []
        [] (some id)
    else err not_found

-- `p.identityRefs.some(…)`
abbrev pub bears : Identity → Person → Bool
bears i p = any (λ r. same_identity r i) p.identity_refs

abbrev pub only_match : List Person → Result ReadError Person
only_match [] = err not_found
only_match (p ∷ []) = ok p
only_match (p ∷ q ∷ ps) = err integrity_error

-- GET /people/by-identity
unfoldable pub get_person_by_identity : Identity → Option Projection → Result ReadError Person
get_person_by_identity i none = err unavailable
get_person_by_identity i (some p) = only_match (keep (bears i) p.snapshot.people)
