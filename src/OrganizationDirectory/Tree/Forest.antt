-- ===== src/OrganizationDirectory/Tree/Forest.antt =====
-- What `validateTree` accepts.
use sq_hub.Common.{
  suc, String, Option, some, List, [], ◌∷◌, ◌++◌, ◌≡◌, refl, ◌≢◌, ◌⊎◌, inl, inr, ◌↔◌, length, All,
  All-append, arith,
}
use sq_hub.OrganizationDirectory.Tree.{
  Walk, ended, broken, exhausted, accepted, rejected, unfinished, climb, fuel_of, walk_rows,
  validate_tree,
}
use sq_hub.OrganizationDirectory.Tree.Climbs.{
  Ends, unseen-length, climb-fuel, climb-ended, climb-whole,
}

Walk-cases :
    (w : Walk) → ((path : List String) × (w ≡ ended path)) ⊎ ((w ≡ broken) ⊎ (w ≡ exhausted))
Walk-cases (ended path) = inl (path, refl)
Walk-cases broken = inr (inl refl)
Walk-cases exhausted = inr (inr refl)

module _ {T : Type 0} (id_of : T → String) (parent : T → Option String) where
  enough :
      (rows : List T) (complete : List String) (o : Option String)
      → climb id_of parent (fuel_of id_of parent rows) rows complete [] o ≢ exhausted
  enough rows complete o =
      climb-fuel id_of parent (suc (length rows)) rows complete [] o
        (omega (arith, unseen-length id_of parent [] rows))

  -- A chain that ends is walked to its end.
  pub climb-Ends :
      (rows : List T) (complete : List String) (o : Option String)
      → Ends id_of parent rows o
      → (path : List String) × (climb id_of parent (fuel_of id_of parent rows) rows complete [] o
          ≡ ended path)
  climb-Ends rows complete o (n, ends) =
      elim (Walk-cases (climb id_of parent (fuel_of id_of parent rows) rows complete [] o)) [
        | inl found ↦ found
        | inr (inl e) ↦
            absurd
              (climb-whole id_of parent (fuel_of id_of parent rows) rows complete [] o n ends tt e)
        | inr (inr e) ↦ absurd (enough rows complete o e)
      ]

  walk_rows_finished :
      (rows : List T) (complete : List String) (todo : List T)
      → walk_rows id_of parent rows complete todo ≢ unfinished
  unfolding walk_rows
  walk_rows_finished rows complete [] = λ e. cc
  walk_rows_finished rows complete (row ∷ todo) =
      elim (Walk-cases
        (climb id_of parent (fuel_of id_of parent rows) rows complete [] (some (id_of row)))) [
          | inl (path, e) ↦ rw (e, walk_rows) (walk_rows_finished rows (path ++ complete) todo)
          | inr (inl e) ↦ rw (e, walk_rows) (λ k. cc)
          | inr (inr e) ↦ absurd (enough rows complete (some (id_of row)) e)
        ]

  walk_rows-accepted :
      (rows : List T) (complete : List String) (todo : List T)
      → All (λ id. Ends id_of parent rows (some id)) complete
      → walk_rows id_of parent rows complete todo ≡ accepted
      → All (λ row. Ends id_of parent rows (some (id_of row))) todo
  unfolding walk_rows
  walk_rows-accepted rows complete [] done h = tt
  walk_rows-accepted rows complete (row ∷ todo) done h =
      elim (Walk-cases
        (climb id_of parent (fuel_of id_of parent rows) rows complete [] (some (id_of row)))) [
          | inl (path, e) ↦
              let (here, found) =
                climb-ended id_of parent (fuel_of id_of parent rows) rows complete []
                  (some (id_of row)) done (λ _. tt) e in
              (
                here,
                walk_rows-accepted rows (path ++ complete) todo
                    (All-append (λ id. Ends id_of parent rows (some id)) path complete found done)
                    (rw (e, walk_rows) at h),
              )
          | inr (inl e) ↦ absurd (let k : rejected ≡ accepted = rw (e, walk_rows) at h in refuse k)
          | inr (inr e) ↦ absurd (enough rows complete (some (id_of row)) e)
        ]
    where
      refuse : rejected ≡ accepted → ⊥
      refuse k = cc

  walk_rows-whole :
      (rows : List T) (complete : List String) (todo : List T)
      → All (λ row. Ends id_of parent rows (some (id_of row))) todo
      → walk_rows id_of parent rows complete todo ≡ accepted
  unfolding walk_rows
  walk_rows-whole rows complete [] h = refl
  walk_rows-whole rows complete (row ∷ todo) (ends, rest) =
      let (path, e) = climb-Ends rows complete (some (id_of row)) ends in
      rw (e, walk_rows) (walk_rows-whole rows (path ++ complete) todo rest)

  -- The check of the tree always finishes: one more step than there are rows is enough fuel for each of its
  -- inner loops, cycles and missing parents included.
  pub validate_tree_finished : (rows : List T) → validate_tree id_of parent rows ≢ unfinished
  unfolding validate_tree
  validate_tree_finished rows = walk_rows_finished rows [] rows

  -- The check accepts exactly the rows from each of which the chain of parents, each looked up by its id, ends
  -- at a root: no cycle, and no parent that is missing.
  pub validate_tree_iff :
      (rows : List T)
      → (validate_tree id_of parent rows ≡ accepted)
        ↔ All (λ row. Ends id_of parent rows (some (id_of row))) rows
  unfolding validate_tree
  validate_tree_iff rows = (walk_rows-accepted rows [] rows tt, walk_rows-whole rows [] rows)
