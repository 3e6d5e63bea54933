-- ===== src/OrganizationDirectory/Sync/Absences.antt =====
-- What `absent` keeps of the old rows: `tombstones` of apps/api/src/modules/organization-directory/repository.ts.
use sq_hub.Common.{
  String, List, [], ◌∷◌, ◌++◌, map, Bool, true, false, ◌||◌, ◌≡◌, refl, subst, inl, inr, All, any,
  Bool-cases, str_eq, eq_iff, arith,
}
use sq_hub.OrganizationDirectory.Tree.{has}
use sq_hub.OrganizationDirectory.Sync.{Tombstone, absent}

-- an id that some row or tombstone bears
abbrev pub known : String → List Tombstone → Bool
known id ts = any (λ t. str_eq id t.id) ts

-- A tombstone is of a row that is absent.
pub All-absent :
    (current : List String) (old : List Tombstone)
    → All (λ t. has t.id current ≡ false) (absent old current)
All-absent current [] = tt
All-absent current (t ∷ old) = elim (Bool-cases (has t.id current)) [
  | inl e ↦ rw e (All-absent current old)
  | inr e ↦ rw e (e, All-absent current old)
]

known-absent :
    (id : String) (current : List String) (old : List Tombstone)
    → known id old ≡ true
    → has id current ≡ false
    → known id (absent old current) ≡ true
known-absent id current [] h new = h
known-absent id current (t ∷ old) h new = elim (Bool-cases (str_eq id t.id)) [
  | inl e ↦ rw (gone e) (rw e refl)
  | inr e ↦
      let later : known id (absent old current) ≡ true =
        known-absent id current old (rw e at h) new in
      elim (Bool-cases (has t.id current)) [ inl g ↦ rw g later | inr g ↦ rw (g, e) later ]
]
  where
    gone : str_eq id t.id ≡ true → has t.id current ≡ false
    gone e = subst (λ i. has i current ≡ false) ((eq_iff id t.id).0 e) new

known-append :
    (id : String) (xs ys : List Tombstone) → known id (xs ++ ys) ≡ (known id xs || known id ys)
known-append id [] ys = refl
known-append id (x ∷ xs) ys = ground (arith, known-append id xs ys)

-- No id is forgotten: it is that of a current row, or of a tombstone.
pub known-kept :
    {T : Type 0} (id_of : T → String) (mark : T → Tombstone)
    → ((row : T) → (mark row).id ≡ id_of row)
    → (id : String) (rows : List T) (old : List Tombstone) → known id old ≡ true
    → known id (map mark rows ++ absent old (map id_of rows)) ≡ true
known-kept {T} id_of mark same id rows old h = elim (Bool-cases (has id (map id_of rows))) [
  | inl e ↦ rw (known-append id (map mark rows) (absent old (map id_of rows)), marked rows e) refl
  | inr e ↦
      let kept = known-absent id (map id_of rows) old h e in
      ground (arith, known-append id (map mark rows) (absent old (map id_of rows)), kept)
]
  where
    marked : (xs : List T) → has id (map id_of xs) ≡ true → known id (map mark xs) ≡ true
    marked [] k = k
    marked (x ∷ xs) k = ground (arith, same x, k, marked xs)
