-- ===== src/OrganizationDirectory/Reading/Owners.antt =====
-- GET /people/by-identity: who bears an identity.
use sq_hub.Common.{
  ℕ, ◌≤◌, String, Option, none, some, List, [], ◌∷◌, Bool, true, false, ◌||◌, ◌≡◌, refl, ap₂, ◌≢◌,
  inl, inr, any, keep, length, Bool-cases, Option-cases, split_and, err, arith,
}
use sq_hub.Common.Identity.{Identity, same_identity, same_identity_sym}
use sq_hub.OrganizationDirectory.{Person, Snapshot}
use sq_hub.OrganizationDirectory.Validation.{
  has_identity, add_refs, person_ok, people_ok, unit_ids, position_ids,
}
use sq_hub.OrganizationDirectory.Validation.Facts.{add_refs_inv, snapshot_ok-people}
use sq_hub.OrganizationDirectory.Sync.{Projection, DirectoryDb}
use sq_hub.OrganizationDirectory.Sync.Histories.{Runs, Sound, Runs-Follows}
use sq_hub.OrganizationDirectory.Reading.{
  integrity_error, bears, only_match, get_person_by_identity,
}

bears_iff : (i : Identity) (p : Person) → bears i p ≡ has_identity i p.identity_refs
bears_iff i p = turned p.identity_refs
  where
    turned : (is : List Identity) → any (λ r. same_identity r i) is ≡ has_identity i is
    turned [] = refl
    turned (r ∷ rs) = ap₂ ◌||◌ (same_identity_sym r i) (turned rs)

-- An identity that was seen is borne by nobody that follows, and any identity by one person at most.
bearers :
    (units positions : List String) (i : Identity) (seen : List Identity) (ps : List Person)
    → people_ok units positions seen ps ≡ true
    → ((has_identity i seen ≡ true) → length (keep (bears i) ps) ≡ 0)
      × (length (keep (bears i) ps) ≤ 1)
unfolding people_ok
bearers units positions i seen [] h = (λ k. refl, omega arith)
bearers units positions i seen (p ∷ ps) h = elim (Option-cases (add_refs seen p.identity_refs)) [
  | inl e ↦ absurd (stop (split_and (person_ok units positions p) false (rw (e, people_ok) at h)).1)
  | inr (seen', e) ↦
      let (old, new) = add_refs_inv i seen p.identity_refs e in
      let (none_later, one) =
        bearers units positions i seen' ps
          (split_and (person_ok units positions p) (people_ok units positions seen' ps)
            (rw (e, people_ok) at h)).1 in
      elim (Bool-cases (has_identity i p.identity_refs)) [
        | inl t ↦
            rw (bears_iff i p, t)
              (λ k. absurd (apart t (old k).0), omega (arith, none_later (new t)))
        | inr t ↦ rw (bears_iff i p, t) (λ k. none_later (old k).1, one)
      ]
]
  where
    stop : false ≡ true → ⊥
    stop e = cc

    apart : has_identity i p.identity_refs ≡ true → has_identity i p.identity_refs ≡ false → ⊥
    apart e k = cc

only_match_lem : (ps : List Person) → length ps ≤ 1 → only_match ps ≢ err integrity_error
only_match_lem [] h = λ e. cc
only_match_lem (p ∷ []) h = λ e. cc
only_match_lem (p ∷ q ∷ ps) h = absurd (omega (arith, h))

module _ {Value : Type 0} (is_guid : String → Bool) (parse : Value → Option Snapshot)
    (content_version : Snapshot → String) (date_parse : String → ℕ) where
  -- The answer to a search by identity, after any sequence of synchronisations from a sound projection, is never
  -- an integrity error: no two people bear one identity.
  pub get_person_by_identity_lem :
      {a b : DirectoryDb}
      → Runs is_guid parse content_version date_parse a b
      → Sound is_guid parse content_version date_parse a.projection
      → (i : Identity) → get_person_by_identity i b.projection ≢ err integrity_error
  unfolding get_person_by_identity
  get_person_by_identity_lem {a} {b} r h i =
      owned b.projection (Runs-Follows is_guid parse content_version date_parse r h).0
    where
      owned :
          (o : Option Projection)
          → Sound is_guid parse content_version date_parse o
          → get_person_by_identity i o ≢ err integrity_error
      owned none sound = λ e. cc
      owned (some p) ((as_of, fine), units, positions, people) =
          only_match_lem (keep (bears i) p.snapshot.people)
            (bearers (unit_ids p.snapshot) (position_ids p.snapshot) i [] p.snapshot.people
              (snapshot_ok-people is_guid content_version as_of p.snapshot fine)).1
