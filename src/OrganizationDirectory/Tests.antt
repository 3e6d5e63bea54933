-- ===== src/OrganizationDirectory/Tests.antt =====
-- A directory of two units and a person, and the theorems applied to it.
use sq_hub.Common.{
  ℕ, String, Option, none, some, List, [], ◌∷◌, ◌++◌, Bool, true, false, ◌≡◌, ◌≢◌, ◌↔◌, refl,
  length, All, not, str_eq, ok, err,
}
use sq_hub.Common.Identity.{Identity}
use sq_hub.Common.Text.{codes}
use sq_hub.OrganizationDirectory.{OrgUnit, Person, Counts, Snapshot}
use sq_hub.OrganizationDirectory.Tree.{accepted, rejected, unfinished, validate_tree}
use sq_hub.OrganizationDirectory.Tree.Climbs.{Ends}
use sq_hub.OrganizationDirectory.Tree.Forest.{validate_tree_finished, validate_tree_iff}
use sq_hub.OrganizationDirectory.Validation.{
  DirectorySyncError, source_regression, business_date, snapshot_ok, third_part,
  assert_no_regression,
}
use sq_hub.OrganizationDirectory.Sync.{
  Projection, SyncAttempt, DirectoryDb, SyncCall, attempted, time_of, new_attempt, of_snapshot,
  synchronize,
}
use sq_hub.OrganizationDirectory.Sync.Failures.{Cause, synchronize-failed}
use sq_hub.OrganizationDirectory.Sync.Histories.{Sound, Follows, Runs, start, next, Runs-Follows}
use sq_hub.OrganizationDirectory.Reading.{integrity_error, get_ancestry, get_person_by_identity}
use sq_hub.OrganizationDirectory.Reading.Lineages.{Upward, get_ancestry_lem}
use sq_hub.OrganizationDirectory.Reading.Owners.{get_person_by_identity_lem}

abbrev unit : String → Option String → OrgUnit
unit id parent = record {
  id = id;
  name = "unit";
  node_type = "school";
  parent_unit_id = parent;
  active = true;
  effective_from = "2020-02-29";
  effective_to = none;
}

abbrev two_units : List OrgUnit
two_units = unit "hcis:org-node:b" (some "hcis:org-node:a") ∷ unit "hcis:org-node:a" none ∷ []

abbrev cycle : List OrgUnit
cycle = unit "b" (some "a") ∷ unit "a" (some "b") ∷ []

abbrev somebody : Identity
somebody = record { issuer = "https://id.example"; subject = "s1" }

abbrev teacher : Person
teacher = record {
  id = "hcis:employee:p";
  employee_number = "1";
  display_name = "A teacher";
  active = true;
  employment_status = none;
  started_on = some "2024-07-01";
  ended_on = none;
  current_primary_unit_id = some "hcis:org-node:b";
  structural_position_ids = [];
  primary_structural_position_id = none;
  identity_refs = somebody ∷ [];
}

abbrev snapshot_of : String → List OrgUnit → Counts → Snapshot
snapshot_of as_of units counts = record {
  source = record {
    snapshot_id = "0001";
    effective_on = as_of;
    published_at = "2026-01-01T00:00:00Z";
    created_at = "2026-01-01T00:00:00Z";
  };
  as_of = as_of;
  version = Prim.Native.String.◌++◌ "sha256:" as_of;
  generated_at = "2026-01-01T00:00:00Z";
  counts = counts;
  units = units;
  positions = [];
  people = teacher ∷ [];
}

abbrev first_snapshot : Snapshot
first_snapshot =
    snapshot_of "2026-01-02" two_units (record { units = 2; positions = 0; people = 1 })

abbrev later_snapshot : Snapshot
later_snapshot =
    snapshot_of "2026-01-03" (unit "hcis:org-node:b" none ∷ [])
      (record { units = 1; positions = 0; people = 1 })

abbrev is_guid : String → Bool
is_guid part = not (str_eq part "")

abbrev content_version : Snapshot → String
content_version s = Prim.Native.String.◌++◌ "sha256:" s.as_of

abbrev date_parse : String → ℕ
date_parse text = length (codes text)

abbrev call_of : Snapshot → SyncCall Snapshot
call_of s = record {
  as_of = s.as_of;
  attempt_id = "attempt";
  started = 10;
  finished = 20;
  locked = true;
  pulled = ok s;
}

abbrev empty : DirectoryDb
empty = record { projection = none; attempts = [] }

abbrev run : Snapshot → DirectoryDb → DirectoryDb
run s db = (synchronize is_guid some content_version date_parse (call_of s) db).0

abbrev stored : Projection
stored = record {
  snapshot = first_snapshot;
  tombstones = record { units = []; positions = []; people = [] };
  synchronized_at = 5;
}

abbrev stored_db : DirectoryDb
stored_db = record { projection = some stored; attempts = [] }

business_date_29_February :
    (business_date "2024-02-29" ≡ true) × (business_date "2023-02-29" ≡ false)
unfolding business_date
business_date_29_February = (refl, refl)

third_part_example : third_part "hcis:org-node:a" ≡ some "a"
unfolding third_part
third_part_example = refl

cycle-rejected : validate_tree (λ u. u.id) (λ u. u.parent_unit_id) cycle ≡ rejected
unfolding validate_tree
cycle-rejected = refl

first_snapshot_ok : snapshot_ok is_guid content_version "2026-01-02" first_snapshot ≡ true
unfolding snapshot_ok
first_snapshot_ok = refl

validate_tree_finished_example :
    validate_tree (λ u. u.id) (λ u. u.parent_unit_id) cycle ≢ unfinished
validate_tree_finished_example = validate_tree_finished (λ u. u.id) (λ u. u.parent_unit_id) cycle

validate_tree_iff_example :
    (validate_tree (λ u. u.id) (λ u. u.parent_unit_id) two_units ≡ accepted)
    ↔ All (λ row. Ends (λ u. u.id) (λ u. u.parent_unit_id) two_units (some row.id)) two_units
validate_tree_iff_example = validate_tree_iff (λ u. u.id) (λ u. u.parent_unit_id) two_units

abbrev old_call : SyncCall Snapshot
old_call =
    call_of (snapshot_of "2026-01-01" two_units (record { units = 2; positions = 0; people = 1 }))

abbrev old_attempt : SyncAttempt
old_attempt =
    record (of_snapshot
      (snapshot_of "2026-01-01" two_units (record { units = 2; positions = 0; people = 1 }))
      (new_attempt old_call)) {
        finished_at = 20;
        error_category = some source_regression;
        synchronized_at = some 5;
      }

old_run :
    synchronize is_guid some content_version date_parse old_call stored_db
    ≡ (record stored_db { attempts = old_attempt ∷ [] }, attempted old_attempt)
unfolding synchronize assert_no_regression
old_run = refl

synchronize-failed_example :
    (some stored ≡ stored_db.projection)
    × (old_attempt ∷ [] ≡ stored_db.attempts ++ old_attempt ∷ [])
    × ((e : DirectorySyncError) × (old_attempt.error_category ≡ some e)
        × Cause is_guid some content_version date_parse old_call stored_db e)
    × (old_attempt.finished_at ≡ old_call.finished)
    × (old_attempt.synchronized_at ≡ time_of stored_db.projection)
synchronize-failed_example =
    synchronize-failed is_guid some content_version date_parse old_call stored_db
      (record stored_db { attempts = old_attempt ∷ [] }) old_attempt old_run refl

stored-Sound : Sound is_guid some content_version date_parse (some stored)
stored-Sound = (("2026-01-02", first_snapshot_ok), tt, tt, tt)

one_run : Runs is_guid some content_version date_parse stored_db (run later_snapshot stored_db)
one_run = next stored_db stored_db (call_of later_snapshot) (start stored_db)

Runs-Follows_example :
    Sound is_guid some content_version date_parse (run later_snapshot stored_db).projection
    × Follows is_guid some content_version date_parse
        (some stored)
        (run later_snapshot stored_db).projection
Runs-Follows_example = Runs-Follows is_guid some content_version date_parse one_run stored-Sound

get_ancestry_lem_example :
    (items : List OrgUnit) × (get_ancestry "hcis:org-node:b" (some stored) ≡ ok items)
    × Upward two_units (some "hcis:org-node:b") items
get_ancestry_lem_example =
    get_ancestry_lem is_guid some content_version date_parse (start stored_db) stored-Sound stored
      "hcis:org-node:b" refl refl

get_person_by_identity_lem_example :
    get_person_by_identity somebody (run later_snapshot stored_db).projection ≢ err integrity_error
get_person_by_identity_lem_example =
    get_person_by_identity_lem is_guid some content_version date_parse one_run stored-Sound somebody
