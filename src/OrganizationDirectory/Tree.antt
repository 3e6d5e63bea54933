-- ===== src/OrganizationDirectory/Tree.antt =====
-- apps/api/src/modules/organization-directory/validation.ts: `validateTree`, for rows of any type with an id and
-- a parent. A Set is the list of its elements. The inner loop runs on fuel.
pub mod Climbs
pub mod Forest
use sq_hub.Common.{
  ℕ, zero, suc, String, Option, none, some, List, [], ◌∷◌, ◌++◌, Bool, true, false, any, length,
  str_eq, if◌then◌else◌,
}

-- `set.has(id)`
abbrev pub has : String → List String → Bool
has id ids = any (str_eq id) ids

-- How the inner loop ends: with its path, at a failed assertion, or (in the model alone) out of fuel.
pub data Walk : Type 0 where
  ended : (path : List String) → Walk
  broken exhausted : Walk

pub data Verdict : Type 0 where
  accepted rejected unfinished : Verdict

module _ {T : Type 0} (id_of : T → String) (parent : T → Option String) where
  abbrev pub or_this : String → T → Option T → Option T
  or_this id row (some later) = some later
  or_this id row none = if str_eq (id_of row) id then some row else none

  -- `new Map(rows.map((row) => [row.id, row])).get(id)`: the last row of the id
  abbrev pub get : List T → String → Option T
  get [] id = none
  get (row ∷ rows) id = or_this id row (get rows id)

  -- `while (id !== null && !complete.has(id))`
  unfoldable pub climb : ℕ → List T → List String → List String → Option String → Walk
  climb fuel rows complete path none = ended path
  climb zero rows complete path (some id) = exhausted
  climb (suc n) rows complete path (some id) =
      let up : Walk = elim (get rows id) [
        | none ↦ broken
        | some item ↦ climb n rows complete (id ∷ path) (parent item)
      ] in
      if has id complete then ended path else if has id path then broken else up

  abbrev pub fuel_of : List T → ℕ
  fuel_of rows = suc (length rows)

  -- the outer loop, over the rows that are left
  unfoldable pub walk_rows : List T → List String → List T → Verdict
  unfolding climb
  walk_rows rows complete [] = accepted
  walk_rows rows complete (row ∷ rest) =
      elim (climb (fuel_of rows) rows complete [] (some (id_of row))) [
        | ended path ↦ walk_rows rows (path ++ complete) rest
        | broken ↦ rejected
        | exhausted ↦ unfinished
      ]

  unfoldable pub validate_tree : List T → Verdict
  unfolding walk_rows
  validate_tree rows = walk_rows rows [] rows
