-- ===== src/OrganizationDirectory/Sync.antt =====
-- apps/api/src/modules/organization-directory/repository.ts: one reconciliation with the source. A synchronisation
-- takes from outside its times, whether it got the advisory lock, and what `pull` came to. Failures of the
-- database itself are not modelled: every query is taken to succeed.
pub mod Failures
pub mod Histories
pub mod Orders
pub mod Absences
use sq_hub.Common.{
  ℕ, String, Option, none, some, List, [], ◌∷◌, ◌++◌, map, Bool, true, false, not, keep, str_eq,
  if◌then◌else◌, Result, ok, err,
}
use sq_hub.OrganizationDirectory.{OrgUnit, Position, Person, Source, Counts, Snapshot}
use sq_hub.OrganizationDirectory.Tree.{has}
use sq_hub.OrganizationDirectory.Validation.{
  DirectorySyncError, storage, business_date, unit_ids, position_ids, person_ids, validate_snapshot,
  assert_no_regression,
}

-- a row that the source has no more, with its name or title
pub record Tombstone : Type 0 where
  pub id : String
  pub name : String

pub record Tombstones : Type 0 where
  pub units : List Tombstone
  pub positions : List Tombstone
  pub people : List Tombstone

pub record Projection : Type 0 where
  pub snapshot : Snapshot
  pub tombstones : Tombstones
  pub synchronized_at : ℕ

pub data SyncResult : Type 0 where
  applied unchanged failed : SyncResult

pub record SyncAttempt : Type 0 where
  pub attempt_id : String
  pub started_at : ℕ
  pub finished_at : ℕ
  pub result : SyncResult
  pub source_snapshot_id : Option String
  pub source_version : Option String
  pub as_of : String
  pub counts : Option Counts
  pub error_category : Option DirectorySyncError
  pub synchronized_at : Option ℕ

-- organization_directory_projection has one row for its only source, or none.
pub record DirectoryDb : Type 0 where
  pub projection : Option Projection
  pub attempts : List SyncAttempt

abbrev pub old_units : Option Projection → List Tombstone
old_units none = []
old_units (some p) =
    map (λ u. record { id = u.id; name = u.name }) p.snapshot.units ++ p.tombstones.units

abbrev pub old_positions : Option Projection → List Tombstone
old_positions none = []
old_positions (some p) =
    map (λ r. record { id = r.id; name = r.title }) p.snapshot.positions ++ p.tombstones.positions

abbrev pub old_people : Option Projection → List Tombstone
old_people none = []
old_people (some p) =
    map (λ r. record { id = r.id; name = r.display_name }) p.snapshot.people ++ p.tombstones.people

-- `absent`, with the ids of the current rows
abbrev pub absent : List Tombstone → List String → List Tombstone
absent old current = keep (λ r. not (has r.id current)) old

unfoldable pub tombstones : Option Projection → Snapshot → Tombstones
tombstones previous next = record {
  units = absent (old_units previous) (unit_ids next);
  positions = absent (old_positions previous) (position_ids next);
  people = absent (old_people previous) (person_ids next);
}

abbrev pub time_of : Option Projection → Option ℕ
time_of none = none
time_of (some p) = some p.synchronized_at

-- what `pull` throws: an error with a category, or any other
pub data Thrown : Type 0 where
  categorised : (category : DirectorySyncError) → Thrown
  other : Thrown

abbrev pub category_of : Thrown → DirectorySyncError
category_of (categorised c) = c
category_of other = storage

pub record SyncCall (Value : Type 0) : Type 0 where
  pub as_of : String
  pub attempt_id : String
  pub started : ℕ
  pub finished : ℕ
  pub locked : Bool
  pub pulled : Result Thrown Value

pub data SyncOutcome : Type 0 where
  rejected_date busy : SyncOutcome
  attempted : (attempt : SyncAttempt) → SyncOutcome

abbrev pub new_attempt : {Value : Type 0} → SyncCall Value → SyncAttempt
new_attempt call = record {
  attempt_id = call.attempt_id;
  started_at = call.started;
  finished_at = call.started;
  result = failed;
  source_snapshot_id = none;
  source_version = none;
  as_of = call.as_of;
  counts = none;
  error_category = none;
  synchronized_at = none;
}

abbrev pub of_snapshot : Snapshot → SyncAttempt → SyncAttempt
of_snapshot s a = record a {
  source_snapshot_id = some s.source.snapshot_id;
  source_version = some s.version;
  counts = some s.counts;
}

-- the catch block, after the ROLLBACK
unfoldable pub fail_attempt :
    ℕ → DirectorySyncError → SyncAttempt → DirectoryDb → DirectoryDb × SyncOutcome
fail_attempt finished category a db =
    let done : SyncAttempt = record a {
      result = failed;
      finished_at = finished;
      error_category = some category;
      synchronized_at = time_of db.projection;
    } in
    (record db { attempts = db.attempts ++ done ∷ [] }, attempted done)

-- the projection after the UPDATE, or the upsert
unfoldable pub next_projection : ℕ → Snapshot → Option Projection → SyncResult × Projection
unfolding tombstones
next_projection finished s none =
    (applied, record { snapshot = s; tombstones = tombstones none s; synchronized_at = finished })
next_projection finished s (some p) =
    if str_eq p.snapshot.version s.version
    then (unchanged, record p { synchronized_at = finished })
    else (
      applied,
      record { snapshot = s; tombstones = tombstones (some p) s; synchronized_at = finished },
    )

unfoldable pub store_attempt : ℕ → Snapshot → SyncAttempt → DirectoryDb → DirectoryDb × SyncOutcome
unfolding next_projection
store_attempt finished s a db =
    let next : SyncResult × Projection = next_projection finished s db.projection in
    let done : SyncAttempt = record a {
      result = next.0;
      finished_at = finished;
      synchronized_at = some finished;
    } in
    (record db { projection = some next.1; attempts = db.attempts ++ done ∷ [] }, attempted done)

module _ {Value : Type 0} (is_guid : String → Bool) (parse : Value → Option Snapshot)
    (content_version : Snapshot → String) (date_parse : String → ℕ) where
  abbrev pub check_previous : Snapshot → Option Projection → Result DirectorySyncError (Unit {0})
  check_previous s none = ok tt
  check_previous s (some p) = assert_no_regression date_parse s p.snapshot

  unfoldable pub with_snapshot : SyncCall Value → Snapshot → DirectoryDb → DirectoryDb × SyncOutcome
  unfolding store_attempt fail_attempt
  with_snapshot call s db = elim (check_previous s db.projection) [
    | err e ↦ fail_attempt call.finished e (of_snapshot s (new_attempt call)) db
    | ok u ↦ store_attempt call.finished s (of_snapshot s (new_attempt call)) db
  ]

  unfoldable pub with_pulled : SyncCall Value → DirectoryDb → DirectoryDb × SyncOutcome
  unfolding validate_snapshot with_snapshot fail_attempt
  with_pulled call db = elim call.pulled [
    | err t ↦ fail_attempt call.finished (category_of t) (new_attempt call) db
    | ok value ↦ elim (validate_snapshot is_guid parse content_version value call.as_of) [
      | err e ↦ fail_attempt call.finished e (new_attempt call) db
      | ok s ↦ with_snapshot call s db
    ]
  ]

  unfoldable pub synchronize : SyncCall Value → DirectoryDb → DirectoryDb × SyncOutcome
  unfolding with_pulled business_date
  synchronize call db =
      if business_date call.as_of
      then (if call.locked then with_pulled call db else (db, busy))
      else (db, rejected_date)
