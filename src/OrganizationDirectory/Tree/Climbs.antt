-- ===== src/OrganizationDirectory/Tree/Climbs.antt =====
-- What the two loops of `validateTree` come to.
use sq_hub.Common.{
  ℕ, zero, suc, ◌≤◌, ◌<◌, String, Option, none, some, List, [], ◌∷◌, Bool, true, false, ◌≡◌, refl,
  sym, subst, ap, ◌≢◌, inl, inr, length, All, All-map, Bool-cases, Option-cases, if◌then◌else◌,
  str_eq, eq_iff, arith,
}
use sq_hub.OrganizationDirectory.Tree.{has, ended, broken, exhausted, get, climb}

-- A set holds only what all its elements satisfy.
pub All-has :
    (P : String → Type 0) (id : String) (ids : List String) → has id ids ≡ true → All P ids → P id
All-has P id [] h a = cc
All-has P id (x ∷ xs) h (p, ps) = elim (Bool-cases (str_eq id x)) [
  | inl e ↦ subst P (sym ((eq_iff id x).0 e)) p
  | inr e ↦ All-has P id xs (rw e at h) ps
]

module _ {T : Type 0} (id_of : T → String) (parent : T → Option String) where
  -- The chain of parents that begins here leaves the rows at a root after this many of them.
  abbrev pub ends_after : List T → ℕ → Option String → Bool
  ends_after rows zero none = true
  ends_after rows zero (some id) = false
  ends_after rows (suc n) none = false
  ends_after rows (suc n) (some id) = elim (get id_of parent rows id) [
    | none ↦ false
    | some row ↦ ends_after rows n (parent row)
  ]

  abbrev pub Ends : List T → Option String → Type 0
  Ends rows o = (n : ℕ) × (ends_after rows n o ≡ true)

  abbrev pub unseen : List String → List T → ℕ
  unseen path [] = 0
  unseen path (row ∷ rows) =
      let rest = unseen path rows in if has (id_of row) path then rest else suc rest

  unseen-◌∷◌ :
      (id : String) (path : List String) (rows : List T)
      → unseen (id ∷ path) rows ≤ unseen path rows
  unseen-◌∷◌ id path [] = omega arith
  unseen-◌∷◌ id path (row ∷ rows) = ground (arith, unseen-◌∷◌ id path rows)

  -- A new id of a row leaves fewer rows unseen.
  unseen-get :
      (id : String) (path : List String) (rows : List T) {row : T}
      → get id_of parent rows id ≡ some row
      → has id path ≡ false
      → unseen (id ∷ path) rows < unseen path rows
  unseen-get id path [] h new = cc
  unseen-get id path (row ∷ rows) h new = elim (Option-cases (get id_of parent rows id)) [
    | inl e ↦ elim (Bool-cases (str_eq (id_of row) id)) [
      | inl t ↦
          rw (t, subst (λ i. has i path ≡ false) (sym ((eq_iff (id_of row) id).0 t)) new)
            (omega (arith, unseen-◌∷◌ id path rows))
      | inr t ↦ ground (arith, h, e, t)
    ]
    | inr (later, e) ↦ ground (arith, unseen-get id path rows e new)
  ]

  pub unseen-length : (path : List String) (rows : List T) → unseen path rows ≤ length rows
  unseen-length path [] = omega arith
  unseen-length path (row ∷ rows) = ground (arith, unseen-length path rows)

  pub climb-fuel :
      (fuel : ℕ) (rows : List T) (complete path : List String) (o : Option String)
      → unseen path rows < fuel
      → climb id_of parent fuel rows complete path o ≢ exhausted
  unfolding climb
  climb-fuel zero rows complete path o h = absurd (omega (arith, h))
  climb-fuel (suc n) rows complete path none h = λ e. cc
  climb-fuel (suc n) rows complete path (some id) h = elim (Bool-cases (has id complete)) [
    | inl e ↦ rw e (λ k. cc)
    | inr e ↦ elim (Bool-cases (has id path)) [
      | inl t ↦ rw (e, t) (λ k. cc)
      | inr t ↦ elim (Option-cases (get id_of parent rows id)) [
        | inl g ↦ rw (e, t, g) (λ k. cc)
        | inr (row, g) ↦
            rw (e, t, g)
              (climb-fuel n rows complete (id ∷ path) (parent row)
                (omega (arith, h, unseen-get id path rows g t)))
      ]
    ]
  ]

  ends_after_unique :
      (rows : List T) (n m : ℕ) (o : Option String)
      → ends_after rows n o ≡ true
      → ends_after rows m o ≡ true
      → n ≡ m
  ends_after_unique rows zero zero o h k = refl
  ends_after_unique rows zero (suc m) none h k = cc
  ends_after_unique rows zero (suc m) (some id) h k = cc
  ends_after_unique rows (suc n) zero none h k = cc
  ends_after_unique rows (suc n) zero (some id) h k = cc
  ends_after_unique rows (suc n) (suc m) none h k = cc
  ends_after_unique rows (suc n) (suc m) (some id) h k =
      elim (Option-cases (get id_of parent rows id)) [
        | inl e ↦ absurd (no (rw (e, ends_after) at h))
        | inr (row, e) ↦ ap suc (
            ends_after_unique rows n m (parent row) (rw (e, ends_after) at h)
              (rw (e, ends_after) at k))
      ]
    where
      no : false ≡ true → ⊥
      no e = cc

  Ends-step :
      (rows : List T) (id : String) {row : T}
      → get id_of parent rows id ≡ some row
      → Ends rows (parent row)
      → Ends rows (some id)
  Ends-step rows id g (n, e) = (suc n, rw (g, ends_after) e)

  -- What the inner loop leaves: the chain it was on ends, and so do those of the ids in its path.
  pub climb-ended :
      (fuel : ℕ) (rows : List T) (complete path : List String) (o : Option String)
      {path' : List String}
      → All (λ id. Ends rows (some id)) complete
      → (Ends rows o → All (λ id. Ends rows (some id)) path)
      → climb id_of parent fuel rows complete path o ≡ ended path'
      → Ends rows o × All (λ id. Ends rows (some id)) path'
  unfolding climb
  climb-ended fuel rows complete path none {path'} done h e = ((zero, refl), same e)
    where
      same : ended path ≡ ended path' → All (λ id. Ends rows (some id)) path'
      same e = subst (All (λ id. Ends rows (some id))) (cc) (h (zero, refl))
  climb-ended zero rows complete path (some id) done h e = cc
  climb-ended (suc n) rows complete path (some id) {path'} done h e =
      elim (Bool-cases (has id complete)) [
        | inl t ↦
            let here = All-has (λ id. Ends rows (some id)) id complete t done in
            (here, same (h here) (rw t at e))
        | inr t ↦ elim (Bool-cases (has id path)) [
          | inl u ↦ absurd (stop (rw (t, u) at e))
          | inr u ↦ elim (Option-cases (get id_of parent rows id)) [
            | inl g ↦ absurd (stop (rw (t, u, g) at e))
            | inr (row, g) ↦
                let (above, found) =
                  climb-ended n rows complete (id ∷ path) (parent row) done
                    (λ k. let here = Ends-step rows id g k in (here, h here)) (rw (t, u, g) at e) in
                (Ends-step rows id g above, found)
          ]
        ]
      ]
    where
      same :
          All (λ id. Ends rows (some id)) path
          → ended path ≡ ended path'
          → All (λ id. Ends rows (some id)) path'
      same k e = subst (All (λ id. Ends rows (some id))) (cc) k

      stop : broken ≡ ended path' → ⊥
      stop e = cc

  -- The ids of the path have longer chains than the current one, so the path holds it not yet.
  pub climb-whole :
      (fuel : ℕ) (rows : List T) (complete path : List String) (o : Option String) (n : ℕ)
      → ends_after rows n o ≡ true
      → All (λ id. (m : ℕ) × (n < m) × (ends_after rows m (some id) ≡ true)) path
      → climb id_of parent fuel rows complete path o ≢ broken
  unfolding climb
  climb-whole fuel rows complete path none n h above = λ e. cc
  climb-whole zero rows complete path (some id) n h above = λ e. cc
  climb-whole (suc fuel) rows complete path (some id) zero h above = cc
  climb-whole (suc fuel) rows complete path (some id) (suc n) h above =
      elim (Bool-cases (has id complete)) [
        | inl t ↦ rw t (λ k. cc)
        | inr t ↦ elim (Bool-cases (has id path)) [
          | inl u ↦
              let (m, less, e) =
                All-has (λ id. (m : ℕ) × (suc n < m) × (ends_after rows m (some id) ≡ true)) id path
                  u above in
              absurd (omega (arith, less, ends_after_unique rows (suc n) m (some id) h e))
          | inr u ↦ elim (Option-cases (get id_of parent rows id)) [
            | inl g ↦ absurd (no (rw (g, ends_after) at h))
            | inr (row, g) ↦
                rw (t, u, g)
                  (climb-whole fuel rows complete (id ∷ path) (parent row) n
                    (rw (g, ends_after) at h)
                    (
                      (suc n, omega arith, h),
                      All-map _ _ path (λ id (m, less, e). (m, omega (arith, less), e)) above,
                    ))
          ]
        ]
      ]
    where
      no : false ≡ true → ⊥
      no e = cc
