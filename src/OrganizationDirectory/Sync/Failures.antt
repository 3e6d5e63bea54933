-- ===== src/OrganizationDirectory/Sync/Failures.antt =====
-- How a synchronisation ends, and what one that fails leaves.
use sq_hub.Common.{
  ℕ, String, Option, none, some, [], ◌∷◌, ◌++◌, Bool, true, ◌≡◌, refl, subst, sym, ◌∙◌, ◌≢◌, ◌⊎◌,
  inl, inr, Bool-cases, Option-cases, Result, ok, err, Result-cases, str_eq, arith,
}
use sq_hub.OrganizationDirectory.{Snapshot}
use sq_hub.OrganizationDirectory.Validation.{
  DirectorySyncError, storage, assert_no_regression, contract_validation, business_date,
  validate_snapshot, snapshot_ok,
}
use sq_hub.OrganizationDirectory.Sync.{
  Projection, failed, SyncAttempt, DirectoryDb, time_of, Thrown, categorised, other, category_of,
  SyncCall, SyncOutcome, rejected_date, busy, attempted, new_attempt, of_snapshot, fail_attempt,
  next_projection, store_attempt, check_previous, with_snapshot, with_pulled, synchronize,
}

validate_snapshot_inv :
    (is_guid : String → Bool)
    → {Value : Type 0} (parse : Value → Option Snapshot) (content_version : Snapshot → String)
      (value : Value) (as_of : String) {s : Snapshot}
    → validate_snapshot is_guid parse content_version value as_of ≡ ok s
    → snapshot_ok is_guid content_version as_of s ≡ true
unfolding validate_snapshot
validate_snapshot_inv is_guid parse content_version value as_of {s} h =
    elim (Option-cases (parse value)) [
      | inl e ↦ absurd (no (rw (e, validate_snapshot) at h))
      | inr (t, e) ↦ elim (Bool-cases (snapshot_ok is_guid content_version as_of t)) [
        | inl k ↦
            subst (λ r. snapshot_ok is_guid content_version as_of r ≡ true)
              (same (rw (e, k, validate_snapshot) at h)) k
        | inr k ↦ absurd (no (rw (e, k, validate_snapshot) at h))
      ]
    ]
  where
    no : err contract_validation ≡ ok s → ⊥
    no e = cc

    same : {t : Snapshot} → ◌≡◌ {A = Result DirectorySyncError Snapshot} (ok t) (ok s) → t ≡ s
    same e = cc

module _ {Value : Type 0} (is_guid : String → Bool) (parse : Value → Option Snapshot)
    (content_version : Snapshot → String) (date_parse : String → ℕ) where
  -- why a synchronisation of this call fails on these tables, by category
  pub data Cause (call : SyncCall Value) (db : DirectoryDb) (e : DirectorySyncError) : Type 0 where
    -- `pull` threw; what has no category of its own counts as storage
    thrown :
        (t : Thrown) (h : call.pulled ≡ err t)
        → ((t ≡ categorised e) ⊎ ((t ≡ other) × (e ≡ storage)))
        → Cause call db e
    -- the value is no snapshot of the contract
    refused :
        (value : Value) (h : call.pulled ≡ ok value)
        → validate_snapshot is_guid parse content_version value call.as_of ≡ err e
        → Cause call db e
    -- the snapshot is older than the stored one
    regressed :
        (value : Value) (s : Snapshot) (h : call.pulled ≡ ok value)
        → validate_snapshot is_guid parse content_version value call.as_of ≡ ok s
        → (p : Projection) (k : db.projection ≡ some p)
        → assert_no_regression date_parse s p.snapshot ≡ err e
        → Cause call db e

  cause_of_throw :
      (call : SyncCall Value) (db : DirectoryDb) (t : Thrown)
      → call.pulled ≡ err t
      → Cause call db (category_of t)
  cause_of_throw call db (categorised c) h = thrown (categorised c) h (inl refl)
  cause_of_throw call db other h = thrown other h (inr (refl, refl))

  cause_of_regression :
      (call : SyncCall Value) (db : DirectoryDb) (value : Value) (s : Snapshot)
      (e : DirectorySyncError) (p : Option Projection)
      → call.pulled ≡ ok value
      → validate_snapshot is_guid parse content_version value call.as_of ≡ ok s
      → db.projection ≡ p
      → check_previous is_guid parse content_version date_parse s p ≡ err e
      → Cause call db e
  cause_of_regression call db value s e none h v k c = absurd (passed c)
    where
      passed : ◌≡◌ {A = Result DirectorySyncError (Unit {0})} (ok tt) (err e) → ⊥
      passed q = cc
  cause_of_regression call db value s e (some p) h v k c = regressed value s h v p k c

  -- a failure is recorded
  abbrev Failing : SyncCall Value → DirectoryDb → DirectoryDb × SyncOutcome → Type 0
  Failing call db r =
      (e : DirectorySyncError) × (a : SyncAttempt) × Cause call db e
      × (r ≡ fail_attempt call.finished e a db)

  -- a snapshot that passes both checks is stored
  abbrev Storing : SyncCall Value → DirectoryDb → DirectoryDb × SyncOutcome → Type 0
  Storing call db r =
      (s : Snapshot) × (snapshot_ok is_guid content_version call.as_of s ≡ true)
      × (check_previous is_guid parse content_version date_parse s db.projection ≡ ok tt)
      × (r ≡ store_attempt call.finished s (of_snapshot s (new_attempt call)) db)

  with_snapshot-cases :
      (call : SyncCall Value) (value : Value) (s : Snapshot) (db : DirectoryDb)
      → call.pulled ≡ ok value
      → validate_snapshot is_guid parse content_version value call.as_of ≡ ok s
      → Failing call db (with_snapshot is_guid parse content_version date_parse call s db)
        ⊎ Storing call db (with_snapshot is_guid parse content_version date_parse call s db)
  unfolding with_snapshot
  with_snapshot-cases call value s db g v =
      elim (Result-cases
        (check_previous is_guid parse content_version date_parse s db.projection)) [
          | inl (unit, e) ↦ inr (
            s,
            validate_snapshot_inv is_guid parse content_version value call.as_of v,
            e,
            rw (e, with_snapshot) refl,
          )
          | inr (x, e) ↦ inl (
            x,
            of_snapshot s (new_attempt call),
            cause_of_regression call db value s x db.projection g v refl e,
            rw (e, with_snapshot) refl,
          )
        ]

  with_pulled-cases :
      (call : SyncCall Value) (db : DirectoryDb)
      → Failing call db (with_pulled is_guid parse content_version date_parse call db)
        ⊎ Storing call db (with_pulled is_guid parse content_version date_parse call db)
  unfolding with_pulled
  with_pulled-cases call db = elim (Result-cases call.pulled) [
    | inr (t, e) ↦
        inl (category_of t, new_attempt call, cause_of_throw call db t e, rw (e, with_pulled) refl)
    | inl (value, e) ↦
        elim (Result-cases (validate_snapshot is_guid parse content_version value call.as_of)) [
          | inr (x, g) ↦ inl (x, new_attempt call, refused value e g, rw (e, g, with_pulled) refl)
          | inl (s, g) ↦ simp (e, g, with_pulled) (with_snapshot-cases call value s db e g)
        ]
  ]

  -- A synchronisation is refused, finds the lock taken, fails or stores a snapshot that passed.
  pub synchronize-cases :
      (call : SyncCall Value) (db : DirectoryDb)
      → ((synchronize is_guid parse content_version date_parse call db ≡ (db, rejected_date))
          ⊎ (synchronize is_guid parse content_version date_parse call db ≡ (db, busy)))
        ⊎ (Failing call db (synchronize is_guid parse content_version date_parse call db)
            ⊎ Storing call db (synchronize is_guid parse content_version date_parse call db))
  unfolding synchronize
  synchronize-cases call db = elim (Bool-cases (business_date call.as_of)) [
    | inr e ↦ inl (inl (rw (e, synchronize) refl))
    | inl e ↦ elim (Bool-cases call.locked) [
      | inr g ↦ inl (inr (rw (e, g, synchronize) refl))
      | inl g ↦ inr (simp (e, g, synchronize) (with_pulled-cases call db))
    ]
  ]

  stored_not_failed :
      (finished : ℕ) (s : Snapshot) (p : Option Projection)
      → (next_projection finished s p).0 ≢ failed
  unfolding next_projection
  stored_not_failed finished s none = λ e. cc
  stored_not_failed finished s (some p) = elim (Bool-cases (str_eq p.snapshot.version s.version)) [
    | inl e ↦ rw (e, next_projection) (λ k. cc)
    | inr e ↦ rw (e, next_projection) (λ k. cc)
  ]

  -- A synchronisation that fails, at whichever step, leaves the projection as it was and adds one attempt with its end, the
  -- time of the last success and the category of what went wrong: that of the error which the reading threw, storage
  -- where it has none, that of the check of the snapshot, or that of the comparison with the stored one.
  pub synchronize-failed :
      (call : SyncCall Value) (db db' : DirectoryDb) (a : SyncAttempt)
      → synchronize is_guid parse content_version date_parse call db ≡ (db', attempted a)
      → a.result ≡ failed
      → (db'.projection ≡ db.projection)
        × (db'.attempts ≡ db.attempts ++ a ∷ [])
        × ((e : DirectorySyncError) × (a.error_category ≡ some e) × Cause call db e)
        × (a.finished_at ≡ call.finished)
        × (a.synchronized_at ≡ time_of db.projection)
  unfolding fail_attempt store_attempt
  synchronize-failed call db db' a h f = elim (synchronize-cases call db) [
    | inl (inl e) ↦ absurd (not_asked (sym e ∙ h))
    | inl (inr e) ↦ absurd (taken (sym e ∙ h))
    | inr (inl (x, b, w, e)) ↦ kept x b w (sym e ∙ h)
    | inr (inr (s, v, c, e)) ↦ absurd (made s (sym e ∙ h))
  ]
    where
      not_asked : ◌≡◌ {A = DirectoryDb × SyncOutcome} (db, rejected_date) (db', attempted a) → ⊥
      not_asked e = cc

      taken : ◌≡◌ {A = DirectoryDb × SyncOutcome} (db, busy) (db', attempted a) → ⊥
      taken e = cc

      kept :
          (x : DirectorySyncError) (b : SyncAttempt)
          → Cause call db x
          → fail_attempt call.finished x b db ≡ (db', attempted a)
          → (db'.projection ≡ db.projection)
            × (db'.attempts ≡ db.attempts ++ a ∷ [])
            × ((e : DirectorySyncError) × (a.error_category ≡ some e) × Cause call db e)
            × (a.finished_at ≡ call.finished)
            × (a.synchronized_at ≡ time_of db.projection)
      kept x b w e = (
        ground (arith, e),
        ground (arith, e),
        (x, ground (arith, e), w),
        ground (arith, e),
        ground (arith, e),
      )

      made :
          (s : Snapshot)
          → store_attempt call.finished s (of_snapshot s (new_attempt call)) db ≡ (db', attempted a)
          → ⊥
      made s e = stored_not_failed call.finished s db.projection (ground (arith, e, f))
