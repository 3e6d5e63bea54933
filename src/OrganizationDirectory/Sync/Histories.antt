-- ===== src/OrganizationDirectory/Sync/Histories.antt =====
-- What any sequence of synchronisations keeps of apps/api/src/modules/organization-directory/repository.ts.
use sq_hub.Common.{
  ℕ, String, Option, none, some, List, Bool, true, false, ◌≡◌, refl, inl, inr, All, Bool-cases, ok,
  str_eq,
}
use sq_hub.OrganizationDirectory.{Snapshot}
use sq_hub.OrganizationDirectory.Tree.{has}
use sq_hub.OrganizationDirectory.Validation.{
  unit_ids, position_ids, person_ids, snapshot_ok, assert_no_regression,
}
use sq_hub.OrganizationDirectory.Sync.{
  Tombstone, Projection, DirectoryDb, old_units, old_positions, old_people, tombstones, SyncCall,
  fail_attempt, next_projection, store_attempt, check_previous, synchronize,
}
use sq_hub.OrganizationDirectory.Sync.Orders.{assert_no_regression_refl, assert_no_regression_trans}
use sq_hub.OrganizationDirectory.Sync.Absences.{known, All-absent, known-kept}
use sq_hub.OrganizationDirectory.Sync.Failures.{synchronize-cases}

abbrev pub Gone : List String → List Tombstone → Type 0
Gone current ts = All (λ t. has t.id current ≡ false) ts

abbrev pub Keeps : List Tombstone → List Tombstone → Type 0
Keeps before after = (id : String) → known id before ≡ true → known id after ≡ true

module _ {Value : Type 0} (is_guid : String → Bool) (parse : Value → Option Snapshot)
    (content_version : Snapshot → String) (date_parse : String → ℕ) where
  -- The stored snapshot passed the check, and nothing is both in it and absent from it.
  abbrev pub Sound : Option Projection → Type 0
  Sound none = Unit
  Sound (some p) =
      ((as_of : String) × (snapshot_ok is_guid content_version as_of p.snapshot ≡ true))
      × Gone (unit_ids p.snapshot) p.tombstones.units
      × Gone (position_ids p.snapshot) p.tombstones.positions
      × Gone (person_ids p.snapshot) p.tombstones.people

  -- The source has gone on from the one to the other, and no unit, position or person is forgotten.
  abbrev pub Follows : Option Projection → Option Projection → Type 0
  Follows none after = Unit
  Follows (some p) none = ⊥
  Follows (some p) (some q) =
      (assert_no_regression date_parse q.snapshot p.snapshot ≡ ok tt)
      × Keeps (old_units (some p)) (old_units (some q))
      × Keeps (old_positions (some p)) (old_positions (some q))
      × Keeps (old_people (some p)) (old_people (some q))

  pub data Runs : DirectoryDb → DirectoryDb → Type 0 where
    start : (db : DirectoryDb) → Runs db db
    next :
        (a b : DirectoryDb) (call : SyncCall Value)
        → Runs a b
        → Runs a (synchronize is_guid parse content_version date_parse call b).0

  Follows-refl : (o : Option Projection) → Follows o o
  Follows-refl none = tt
  Follows-refl (some p) =
      (assert_no_regression_refl date_parse p.snapshot, λ id h. h, λ id h. h, λ id h. h)

  Follows-trans : (a b c : Option Projection) → Follows a b → Follows b c → Follows a c
  Follows-trans none b c h k = tt
  Follows-trans (some p) none c h k = absurd h
  Follows-trans (some p) (some q) none h k = absurd k
  Follows-trans (some p) (some q) (some r) (h, hu, hp, he) (k, ku, kp, ke) = (
    assert_no_regression_trans date_parse r.snapshot q.snapshot p.snapshot k h,
    λ id x. ku id (hu id x),
    λ id x. kp id (hp id x),
    λ id x. ke id (he id x),
  )

  Sound-next_projection :
      (finished : ℕ) (s : Snapshot) (o : Option Projection) (as_of : String)
      → snapshot_ok is_guid content_version as_of s ≡ true
      → Sound o
      → Sound (some (next_projection finished s o).1)
  unfolding next_projection tombstones
  Sound-next_projection finished s none as_of h sound = ((as_of, h), tt, tt, tt)
  Sound-next_projection finished s (some p) as_of h sound =
      elim (Bool-cases (str_eq p.snapshot.version s.version)) [
        | inl e ↦ rw (e, next_projection) sound
        | inr e ↦
            rw (e, next_projection)
              (
                (as_of, h),
                All-absent (unit_ids s) (old_units (some p)),
                All-absent (position_ids s) (old_positions (some p)),
                All-absent (person_ids s) (old_people (some p)),
              )
      ]

  Follows-next_projection :
      (finished : ℕ) (s : Snapshot) (o : Option Projection)
      → check_previous is_guid parse content_version date_parse s o ≡ ok tt
      → Follows o (some (next_projection finished s o).1)
  unfolding next_projection tombstones
  Follows-next_projection finished s none h = tt
  Follows-next_projection finished s (some p) h =
      elim (Bool-cases (str_eq p.snapshot.version s.version)) [
        | inl e ↦ rw (e, next_projection) (Follows-refl (some p))
        | inr e ↦
            rw (e, next_projection)
              (
                h,
                λ id x.
                    known-kept (λ u. u.id) (λ u. record { id = u.id; name = u.name }) (λ u. refl) id
                      s.units (old_units (some p)) x,
                λ id x.
                    known-kept (λ r. r.id) (λ r. record { id = r.id; name = r.title }) (λ r. refl)
                      id s.positions (old_positions (some p)) x,
                λ id x.
                    known-kept (λ r. r.id) (λ r. record { id = r.id; name = r.display_name })
                      (λ r. refl) id s.people (old_people (some p)) x,
              )
      ]

  -- a projection that kept its data, or one that a snapshot made
  step-Sound :
      (call : SyncCall Value) (db : DirectoryDb)
      → Sound db.projection
      → Sound (synchronize is_guid parse content_version date_parse call db).0.projection
  unfolding fail_attempt store_attempt
  step-Sound call db h = elim (synchronize-cases is_guid parse content_version date_parse call db) [
    | inl (inl e) ↦ rw e h
    | inl (inr e) ↦ rw e h
    | inr (inl (x, a, w, e)) ↦ rw e h
    | inr (inr (s, v, c, e)) ↦
        rw e (Sound-next_projection call.finished s db.projection call.as_of v h)
  ]

  step-Follows :
      (call : SyncCall Value) (db : DirectoryDb)
      → Follows db.projection
          (synchronize is_guid parse content_version date_parse call db).0.projection
  unfolding fail_attempt store_attempt
  step-Follows call db = elim (synchronize-cases is_guid parse content_version date_parse call db) [
    | inl (inl e) ↦ rw e (Follows-refl db.projection)
    | inl (inr e) ↦ rw e (Follows-refl db.projection)
    | inr (inl (x, a, w, e)) ↦ rw e (Follows-refl db.projection)
    | inr (inr (s, v, c, e)) ↦ rw e (Follows-next_projection call.finished s db.projection c)
  ]

  -- After any sequence of synchronisations from a sound projection, the projection is sound again, its snapshot
  -- is no regression from the one at the start, and every unit, position and person known at the start is
  -- still in it, with a row or with a tombstone.
  pub Runs-Follows :
      {a b : DirectoryDb}
      → Runs a b
      → Sound a.projection
      → Sound b.projection × Follows a.projection b.projection
  Runs-Follows (start db) h = (h, Follows-refl db.projection)
  Runs-Follows (next a b call r) h =
      let (sound, follows) = Runs-Follows r h in
      (
        step-Sound call b sound,
        Follows-trans a.projection b.projection
            (synchronize is_guid parse content_version date_parse call b).0.projection follows
            (step-Follows call b),
      )
