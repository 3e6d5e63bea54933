-- ===== src/OrganMembership/Service/Selections.antt =====
-- The applications that a request names.
use sq_hub.Common.{
  String, none, some, List, [], ◌∷◌, Bool, true, false, ◌&&◌, ◌≡◌, refl, sym, subst, ◌∙◌, inl, inr,
  any, find?, find?-test, keep, All, All-find?, All-map, Some, Apart, Bool-cases, Option-cases,
  str_eq, eq_iff, arith, split_and,
}
use sq_hub.ApplicationAccess.{ApplicationStatus, ApplicationRow, AccessDb, has_key}
use sq_hub.OrganMembership.Service.{
  is_live, truthy, is_governance, unique_keys, selected, selected_governance_applications,
}

abbrev pub same_key : ApplicationRow → ApplicationRow → Bool
same_key a b = str_eq a.application_key b.application_key

-- An application as a request may name it: the one of its key, and active.
abbrev pub Registered : AccessDb → ApplicationRow → Type 0
Registered db a =
    (find? (has_key a.application_key) db.applications ≡ some a)
    × (a.status ≡ ApplicationStatus.active)

-- With unique keys, a filter hides no row of a key behind another.
find?-governance :
    (key : String) (as' : List ApplicationRow) {a : ApplicationRow}
    → Apart same_key as'
    → find? (has_key key) (keep is_governance as') ≡ some a
    → (find? (has_key key) as' ≡ some a) × (is_governance a ≡ true)
find?-governance key [] h e = cc
find?-governance key (x ∷ xs) {a} (apart, rest) e = elim (Bool-cases (is_governance x)) [
  | inl g ↦ elim (Bool-cases (str_eq x.application_key key)) [
    | inl t ↦
        let here : some x ≡ some a = rw (g, t) at e in
        rw t (here, subst (λ b. is_governance b ≡ true) (same here) g)
    | inr t ↦ rw t (find?-governance key xs rest (rw (g, t) at e))
  ]
  | inr g ↦
      let (found, good) = find?-governance key xs rest (rw g at e) in
      elim (Bool-cases (str_eq x.application_key key)) [
        | inl t ↦ absurd (
            clash t (find?-test (has_key key) xs found)
              (All-find? (λ y. same_key x y ≡ false) (has_key key) xs apart found))
        | inr t ↦ rw t (found, good)
      ]
]
  where
    same : some x ≡ some a → x ≡ a
    same h = cc

    clash : str_eq x.application_key key ≡ true → has_key key a ≡ true → same_key x a ≡ false → ⊥
    clash t h k = ground (
      arith,
      t,
      h,
      k,
      eq_iff x.application_key key,
      eq_iff a.application_key key,
      eq_iff x.application_key a.application_key,
    )

live_governance :
    (a : ApplicationRow) → is_governance a ≡ true → a.status ≡ ApplicationStatus.active
live_governance a h =
    live a.status
      (split_and (is_live a.status)
        (truthy a.governance.summary_path && truthy a.governance.audience) h).0
  where
    live : (s : ApplicationStatus) → is_live s ≡ true → s ≡ ApplicationStatus.active
    live ApplicationStatus.active k = refl
    live ApplicationStatus.inactive k = cc

-- each application selected is a row of its key, and each key has one
selected_inv :
    (governance : List ApplicationRow) (keys : List String) {as' : List ApplicationRow}
    → selected governance keys ≡ some as'
    → All (λ a. find? (has_key a.application_key) governance ≡ some a) as'
      × ((key : String) → any (str_eq key) keys ≡ true → Some (λ a. a.application_key ≡ key) as')
selected_inv governance [] {as'} h = (nothing h, λ key k. cc)
  where
    nothing :
        some [] ≡ some as' → All (λ a. find? (has_key a.application_key) governance ≡ some a) as'
    nothing e =
        let same : [] ≡ as' = cc in
        subst (All (λ a. find? (has_key a.application_key) governance ≡ some a)) same tt
selected_inv governance (k ∷ ks) {as'} h = elim (Option-cases (find? (has_key k) governance)) [
  | inl e ↦ absurd (no (rw (e, selected) at h))
  | inr (a, e) ↦ elim (Option-cases (selected governance ks)) [
    | inl g ↦ absurd (no (rw (e, g, selected) at h))
    | inr (rest, g) ↦
        let both : some (a ∷ rest) ≡ some as' = rw (e, g, selected) at h in
        let (rows, named) = selected_inv governance ks g in
        let own : a.application_key ≡ k =
          (eq_iff a.application_key k).0 (find?-test (has_key k) governance e) in
        subst
          (λ xs.
            All (λ a. find? (has_key a.application_key) governance ≡ some a) xs
            × ((key : String)
                → any (str_eq key) (k ∷ ks) ≡ true
                → Some (λ a. a.application_key ≡ key) xs))
          (listed both)
          (
            (subst (λ i. find? (has_key i) governance ≡ some a) (sym own) e, rows),
            λ key n. elim (Bool-cases (str_eq key k)) [
              | inl t ↦ inl (own ∙ sym ((eq_iff key k).0 t))
              | inr t ↦ inr (named key (rw t at n))
            ],
          )
  ]
]
  where
    no : none ≡ some as' → ⊥
    no e = cc

    listed : {xs : List ApplicationRow} → some xs ≡ some as' → xs ≡ as'
    listed e = cc

unique_keys-any :
    (key : String) (seen keys : List String)
    → any (str_eq key) keys ≡ true
    → any (str_eq key) seen ≡ false
    → any (str_eq key) (unique_keys seen keys) ≡ true
unique_keys-any key seen [] h n = h
unique_keys-any key seen (k ∷ ks) h n = elim (Bool-cases (str_eq key k)) [
  | inl t ↦
      let fresh : any (str_eq k) seen ≡ false =
        subst (λ i. any (str_eq i) seen ≡ false) ((eq_iff key k).0 t) n in
      rw fresh (rw t refl)
  | inr t ↦ elim (Bool-cases (any (str_eq k) seen)) [
    | inl e ↦ rw e (unique_keys-any key seen ks (rw t at h) n)
    | inr e ↦ rw e (rw t (unique_keys-any key (k ∷ seen) ks (rw t at h) (rw t n)))
  ]
]

-- The applications that a request's keys select are registered and active, and each key has one among them.
pub selected_governance_applications_inv :
    (keys : List String) (db : AccessDb) {as' : List ApplicationRow}
    → Apart same_key db.applications
    → selected_governance_applications keys db ≡ some as'
    → All (Registered db) as'
      × ((key : String) → any (str_eq key) keys ≡ true → Some (λ a. a.application_key ≡ key) as')
unfolding selected_governance_applications
selected_governance_applications_inv keys db {as'} unique h =
    let (rows, named) = selected_inv (keep is_governance db.applications) (unique_keys [] keys) h in
    (
      All-map (λ a. find? (has_key a.application_key) (keep is_governance db.applications) ≡ some a)
          (Registered db) as'
          (λ a e.
            let (found, good) = find?-governance a.application_key db.applications unique e in
            (found, live_governance a good))
          rows,
      λ key k. named key (unique_keys-any key [] keys k refl),
    )
