-- ===== src/ApplicationAccess/Grants.antt =====
-- What a grant leaves of the access rows.
use sq_hub.Common.{
  String, none, some, List, [], ◌∷◌, Bool, true, ◌≡◌, refl, sym, subst, ap, ◌∙◌, ◌⊎◌, inl, inr,
  find?, upsert, Bool-cases, Option-cases, ok, transaction, ◌>>=◌,
}
use sq_hub.Common.Identity.{Identity, Env}
use sq_hub.ApplicationAccess.{
  ApplicationStatus, AccessStatus, ApplicationRow, AccessRow, AccessDb, GrantInput, has_key,
  access_of, new_access, updated_access, write_access, set_access, set_access_task, check_access,
  allowed, get_access, access_input, grant_access,
}
use sq_hub.ApplicationAccess.Decisions.{check_access_iff, check_access-set_access}

-- An upsert that leaves the selected rows selected leaves a row found with its property, if the change keeps it.
find?-upsert-kept :
    {A : Type 0} (P : A → Type 0) (p q : A → Bool) (new : A) (f : A → A) (xs : List A) {a : A}
    → ((x : A) → q (f x) ≡ q x)
    → ((x : A) → P (f x))
    → find? q xs ≡ some a
    → P a
    → (b : A) × (find? q (upsert p new f xs) ≡ some b) × P b
find?-upsert-kept P p q new f [] stays good h k = absurd (no h)
  where
    no : {A : Type 0} {a : A} → none ≡ some a → ⊥
    no e = cc
find?-upsert-kept P p q new f (x ∷ xs) {a} stays good h k = elim (Bool-cases (q x)) [
  | inl e ↦ elim (Bool-cases (p x)) [
    | inl t ↦ (f x, rw (t, stays x ∙ e) refl, good x)
    | inr t ↦ (x, rw (t, e) refl, subst P (same (rw e at h)) k)
  ]
  | inr e ↦ elim (Bool-cases (p x)) [
    | inl t ↦ (a, rw (t, stays x ∙ e) (rw e at h), k)
    | inr t ↦ rw (t, e) (find?-upsert-kept P p q new f xs stays good (rw e at h) k)
  ]
]
  where
    same : some x ≡ some a → a ≡ x
    same e = cc

-- A grant writes the row of a known application, or changes nothing.
grant-cases :
    (env : Env) (input : GrantInput) (db : AccessDb)
    → ((a : ApplicationRow) × (find? (has_key input.application_key) db.applications ≡ some a)
        × (grant_access env input db
            ≡ (write_access env (access_input AccessStatus.active input) a.id db, ok tt)))
      ⊎ ((find? (has_key input.application_key) db.applications ≡ none)
          × ((grant_access env input db).0 ≡ db))
unfolding grant_access set_access set_access_task
grant-cases env input db =
    elim (Option-cases (find? (has_key input.application_key) db.applications)) [
      | inl e ↦ inr (e, rw (e, transaction, ◌>>=◌) refl)
      | inr (a, e) ↦ inl (a, e, rw (e, transaction, ◌>>=◌) refl)
    ]

pub grant-applications :
    (env : Env) (input : GrantInput) (db : AccessDb)
    → (grant_access env input db).0.applications ≡ db.applications
unfolding write_access
grant-applications env input db = elim (grant-cases env input db) [
  | inl (a, e, g) ↦ rw g refl
  | inr (e, g) ↦ rw g refl
]

-- A grant takes no access from anybody.
pub grant-allowed :
    (env : Env) (input : GrantInput) (db : AccessDb) (j : Identity) (key : String)
    → allowed (check_access j key db) ≡ true
    → allowed (check_access j key (grant_access env input db).0) ≡ true
unfolding write_access
grant-allowed env input db j key h = elim (grant-cases env input db) [
  | inr (e, g) ↦ subst (λ d. allowed (check_access j key d) ≡ true) (sym g) h
  | inl (a, e, g) ↦
      let (b, r, known, live, found, on) = (check_access_iff j key db).0 h in
      let (r', found', on') =
        find?-upsert-kept (λ x. x.status ≡ AccessStatus.active) (access_of input.identity a.id)
          (access_of j b.id) (new_access env (access_input AccessStatus.active input) a.id)
          (updated_access env (access_input AccessStatus.active input)) db.access (λ x. refl)
          (λ x. refl) found on in
      subst (λ d. allowed (check_access j key d) ≡ true) (ap (λ d. d.0) (sym g))
        ((check_access_iff j key
            (write_access env (access_input AccessStatus.active input) a.id db)).1
          (b, r', known, live, found', on'))
]

-- A grant that succeeds for an active application gives access to it.
pub grant-given :
    (env : Env) (input : GrantInput) (db : AccessDb) (a : ApplicationRow)
    → find? (has_key input.application_key) db.applications ≡ some a
    → a.status ≡ ApplicationStatus.active
    → ((grant_access env input db).1 ≡ ok tt)
      × (allowed (check_access input.identity input.application_key (grant_access env input db).0)
          ≡ true)
unfolding grant_access
grant-given env input db a known live = (
  elim (grant-cases env input db) [
    | inr (e, g) ↦ absurd (no (sym e ∙ known))
    | inl (b, e, g) ↦ ap (λ d. d.1) g
  ],
  ap allowed (check_access-set_access env (access_input AccessStatus.active input) db a known).0
      ∙ rw live refl,
)
  where
    no : none ≡ some a → ⊥
    no e = cc

-- An active row of an active application is access to it.
pub get_access-allowed :
    (i : Identity) (key : String) (db : AccessDb) (a : ApplicationRow) (r : AccessRow)
    → find? (has_key key) db.applications ≡ some a
    → a.status ≡ ApplicationStatus.active
    → get_access i key db ≡ some r
    → r.status ≡ AccessStatus.active
    → allowed (check_access i key db) ≡ true
unfolding get_access
get_access-allowed i key db a r known live found on =
    (check_access_iff i key db).1 (a, r, known, live, rw (known, get_access) at found, on)
