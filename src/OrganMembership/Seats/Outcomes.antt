-- ===== src/OrganMembership/Seats/Outcomes.antt =====
-- What each statement of apps/api/src/modules/organ-membership/repository.ts comes to.
use sq_hub.Common.{
  String, true, none, some, List, [], ◌∷◌, ◌++◌, false, ◌≡◌, refl, ◌⊎◌, inl, inr, any, find?,
  update_where, Bool-cases, Option-cases, ok, err, transaction, guard, ◌>>=◌,
}
use sq_hub.Common.Identity.{AuditEvent, succeeded, noop, Env}
use sq_hub.OrganMembership.Store.{
  MembershipStatus, active, ended, MembershipRow, OrganDb, conflict, not_found, collides,
  has_row_id, active_row, CreateInput, ChangeInput, EndInput, new_membership, changed, ended_row,
  create_task, change_found, end_found, change_task, end_task, create, change, end_membership,
}

pub status_cases : (s : MembershipStatus) → (s ≡ ended) ⊎ (s ≡ active)
status_cases active = inr refl
status_cases ended = inl refl

module _ (digest : String → String) where
  -- a membership is made, or one stands in its way
  pub create-cases :
      (env : Env) (input : CreateInput) (db : OrganDb)
      → ((any (λ r. collides r (new_membership env input)) db.memberships ≡ true)
          × (create digest env input db ≡ (db, err conflict)))
        ⊎ ((any (λ r. collides r (new_membership env input)) db.memberships ≡ false)
            × ((events : List AuditEvent) × (create digest env input db ≡ (
              record {
                memberships = db.memberships ++ new_membership env input ∷ [];
                audit = events;
              },
              ok (new_membership env input),
            ))))
  unfolding create create_task
  create-cases env input db =
      elim (Bool-cases (any (λ r. collides r (new_membership env input)) db.memberships)) [
        | inl e ↦ inl (e, rw (e, guard, transaction, ◌>>=◌) refl)
        | inr e ↦
            inr (e, ((create digest env input db).0.audit, rw (e, guard, transaction, ◌>>=◌) refl))
      ]

  pub change-cases :
      (env : Env) (input : ChangeInput) (db : OrganDb)
      → ((find? (active_row input.id) db.memberships ≡ none)
          × (change digest env input db ≡ (db, err not_found)))
        ⊎ ((r : MembershipRow) × (events : List AuditEvent) × (find?
                (active_row input.id)
                db.memberships
              ≡ some r)
            × (change digest env input db ≡ (
              record {
                memberships = update_where (active_row input.id) (changed env input) db.memberships;
                audit = events;
              },
              ok (changed env input r),
            )))
  unfolding change change_task change_found
  change-cases env input db = elim (Option-cases (find? (active_row input.id) db.memberships)) [
    | inl e ↦ inl (e, rw (e, transaction, ◌>>=◌) refl)
    | inr (r, e) ↦ inr (r, (change digest env input db).0.audit, e, rw (e, transaction, ◌>>=◌) refl)
  ]

  pub end-cases :
      (env : Env) (input : EndInput) (db : OrganDb)
      → ((find? (has_row_id input.id) db.memberships ≡ none)
          × (end_membership digest env input db ≡ (db, err not_found)))
        ⊎ (((r : MembershipRow) × (find? (has_row_id input.id) db.memberships ≡ some r)
              × (r.status ≡ ended)
              × (end_membership digest env input db ≡ (db, ok (noop, r))))
            ⊎ ((r : MembershipRow) × (events : List AuditEvent) × (find?
                    (has_row_id input.id)
                    db.memberships
                  ≡ some r)
                × (r.status ≡ active)
                × (end_membership digest env input db ≡ (
                  record {
                    memberships =
                        update_where (has_row_id input.id) (ended_row env input) db.memberships;
                    audit = events;
                  },
                  ok (succeeded, ended_row env input r),
                ))))
  unfolding end_membership end_task end_found
  end-cases env input db = elim (Option-cases (find? (has_row_id input.id) db.memberships)) [
    | inl e ↦ inl (e, rw (e, transaction, ◌>>=◌) refl)
    | inr (r, e) ↦ elim (status_cases r.status) [
      | inl s ↦ inr (inl (r, e, s, rw (e, transaction, ◌>>=◌) (simp s)))
      | inr s ↦ inr (
          inr (
            r,
            (end_membership digest env input db).0.audit,
            e,
            s,
            rw (e, transaction, ◌>>=◌) (rw s refl),
          ))
    ]
  ]
