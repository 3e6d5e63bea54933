-- ===== src/OrganizationDirectory.antt =====
-- apps/api/src/modules/organization-directory: the directory of units, positions and people that is taken over
-- from the personnel system. Here the data of contract.ts; the fields that have one value only (the schema's
-- version, the source's name) are left out.
pub mod Tree
pub mod Validation
pub mod Sync
pub mod Reading
mod Tests
use sq_hub.Common.{ℕ, String, Option, List, Bool}
use sq_hub.Common.Identity.{Identity}

pub record OrgUnit : Type 0 where
  pub id : String
  pub name : String
  pub node_type : String
  pub parent_unit_id : Option String
  pub active : Bool
  pub effective_from : String
  pub effective_to : Option String

pub record Position : Type 0 where
  pub id : String
  pub unit_id : String
  pub title : String
  pub parent_position_id : Option String
  pub active : Bool
  pub effective_from : String
  pub effective_to : Option String

pub record Person : Type 0 where
  pub id : String
  pub employee_number : String
  pub display_name : String
  pub active : Bool
  pub employment_status : Option String
  pub started_on : Option String
  pub ended_on : Option String
  pub current_primary_unit_id : Option String
  pub structural_position_ids : List String
  pub primary_structural_position_id : Option String
  pub identity_refs : List Identity

pub record Source : Type 0 where
  pub snapshot_id : String
  pub effective_on : String
  pub published_at : String
  pub created_at : String

pub record Counts : Type 0 where
  pub units : ℕ
  pub positions : ℕ
  pub people : ℕ

pub record Snapshot : Type 0 where
  pub source : Source
  pub as_of : String
  pub version : String
  pub generated_at : String
  pub counts : Counts
  pub units : List OrgUnit
  pub positions : List Position
  pub people : List Person
