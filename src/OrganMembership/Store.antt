-- ===== src/OrganMembership/Store.antt =====
-- apps/api/src/modules/organ-membership/repository.ts: the memberships with their SQL statements. Dates are texts
-- YYYY-MM-DD; `digest` stands for the SHA-256 of a text in hexadecimal. The lists for the overview are left out,
-- and the CHECKs of the table are taken to hold of what the caller passes.
mod Rows
pub use Rows.*
use sq_hub.Common.{
  ℕ, String, Option, none, some, List, [], ◌∷◌, ◌++◌, Bool, true, false, not, ◌&&◌, ◌||◌, any,
  find?, update_where, str_eq, or_else, if◌then◌else◌, Tx, pure, throw, guard, ◌>>=◌, ◌>>◌, modify,
  gets, transaction, Result,
}
use sq_hub.Common.Identity.{
  Identity, ActorRef, Outcome, succeeded, noop, AuditEvent, Env, same_identity,
}
use sq_hub.Common.Order.{text_lt, text_le}

unfoldable pub get_active : Identity → OrganDb → Option MembershipRow
get_active i db = find? (active_of i) db.memberships

unfoldable pub get_effective : Identity → String → OrganDb → Option MembershipRow
get_effective i today db = find? (λ r. active_of i r && in_term today r.terms) db.memberships

module _ (digest : String → String) where
  unfoldable pub organ_membership_target_ref : Identity → String
  organ_membership_target_ref i =
      Prim.Native.String.◌++◌ "organ-membership:"
        (digest (Prim.Native.String.◌++◌ i.issuer (Prim.Native.String.◌++◌ "\n" i.subject)))

  unfoldable pub organ_event :
      Env
      → String
      → ActorRef
      → String
      → String
      → Outcome
      → List (String × Option String)
      → AuditEvent
  organ_event env id actor action target_ref outcome payload = record {
    id = id;
    actor = actor;
    action = action;
    target_type = "organ_membership";
    target_ref = target_ref;
    outcome = outcome;
    payload = payload;
    occurred_at = env.db;
  }

  unfoldable pub create_task : Env → CreateInput → Tx OrganDb OrganStoreError MembershipRow
  unfolding organ_event organ_membership_target_ref
  create_task env input = do
    memberships ← gets (λ db. db.memberships)
    guard (not (any (λ r. collides r (new_membership env input)) memberships)) conflict
    modify (λ db. record db {
      memberships = db.memberships ++ new_membership env input ∷ [];
      audit =
          db.audit
          ++ organ_event env (env.uuid 1) input.actor "organ_membership.grant"
              (organ_membership_target_ref input.identity) succeeded
              (membership_payload (new_membership env input) input.reason)
            ∷ [];
    })
    pure (new_membership env input)

  unfoldable pub create :
      Env → CreateInput → OrganDb → OrganDb × Result OrganStoreError MembershipRow
  unfolding create_task
  create env input = transaction (create_task env input)

  -- the UPDATE and the audit entry of a membership that `change` finds active
  unfoldable pub change_found :
      Env → ChangeInput → MembershipRow → Tx OrganDb OrganStoreError MembershipRow
  unfolding organ_event organ_membership_target_ref
  change_found env input r = do
    modify (λ db. record db {
      memberships = update_where (active_row input.id) (changed env input) db.memberships;
      audit =
          db.audit
          ++ organ_event env (env.uuid 0) input.actor "organ_membership.change"
              (organ_membership_target_ref r.identity) succeeded
              (membership_payload (changed env input r) input.reason)
            ∷ [];
    })
    pure (changed env input r)

  unfoldable pub change_task : Env → ChangeInput → Tx OrganDb OrganStoreError MembershipRow
  unfolding change_found
  change_task env input = do
    memberships ← gets (λ db. db.memberships)
    elim (find? (active_row input.id) memberships) [
      | none ↦ throw not_found
      | some r ↦ change_found env input r
    ]

  unfoldable pub change :
      Env → ChangeInput → OrganDb → OrganDb × Result OrganStoreError MembershipRow
  unfolding change_task
  change env input = transaction (change_task env input)

  unfoldable pub end_found :
      Env → EndInput → MembershipRow → Tx OrganDb OrganStoreError (Outcome × MembershipRow)
  unfolding organ_event organ_membership_target_ref
  end_found env input r = do
    modify (λ db. record db {
      memberships = update_where (has_row_id input.id) (ended_row env input) db.memberships;
      audit =
          db.audit
          ++ organ_event env (env.uuid 0) input.actor "organ_membership.end"
              (organ_membership_target_ref r.identity) succeeded
              (membership_payload (ended_row env input r) input.reason
                ++ source_payload input.source)
            ∷ [];
    })
    pure (succeeded, ended_row env input r)

  unfoldable pub end_task : Env → EndInput → Tx OrganDb OrganStoreError (Outcome × MembershipRow)
  unfolding end_found
  end_task env input = do
    memberships ← gets (λ db. db.memberships)
    elim (find? (has_row_id input.id) memberships) [
      | none ↦ throw not_found
      | some r ↦ elim r.status [ ended ↦ pure (noop, r) | active ↦ end_found env input r ]
    ]

  unfoldable pub end_membership :
      Env → EndInput → OrganDb → OrganDb × Result OrganStoreError (Outcome × MembershipRow)
  unfolding end_task
  end_membership env input = transaction (end_task env input)

  unfoldable pub mark_existing_staff :
      Env → Identity → String → ActorRef → OrganDb → OrganDb × Outcome
  unfolding organ_event organ_membership_target_ref
  mark_existing_staff env i reason actor db =
      if any (of_path_b i) db.memberships
      then (
        record db {
          memberships = update_where (of_path_b i) (as_existing_staff env) db.memberships;
          audit =
              db.audit
              ++ organ_event env (env.uuid 0) actor "organ_membership.provisioning_path_change"
                  (organ_membership_target_ref i) succeeded
                  (("provisioningPath", some "existing_staff") ∷ ("reason", some reason) ∷ [])
                ∷ [];
        },
        succeeded,
      )
      else (db, noop)

  abbrev pub is_succeeded : Outcome → Bool
  is_succeeded succeeded = true
  is_succeeded _ = false

  unfoldable pub is_hub_provisioned_organ_identity : Identity → OrganDb → Bool
  unfolding organ_membership_target_ref
  is_hub_provisioned_organ_identity i db =
      any
        (λ e.
          str_eq e.target_type "organ_membership"
          && (str_eq e.target_ref (organ_membership_target_ref i)
              && (str_eq e.action "organ_identity.provision" && is_succeeded e.outcome)))
        db.audit
      || any (of_path_b i) db.memberships

  -- `audit`; without an identity the hint of the target is digested
  unfoldable pub audit :
      Env
      → String
      → ActorRef
      → String
      → Option Identity
      → Option String
      → Outcome
      → List (String × Option String)
      → OrganDb
      → OrganDb
  unfolding organ_event organ_membership_target_ref
  audit env id actor action identity hint outcome payload db = record db {
    audit =
        db.audit
        ++ organ_event env id actor action
            (elim identity [
              | some i ↦ organ_membership_target_ref i
              | none ↦ Prim.Native.String.◌++◌ "organ-membership:" (digest (or_else hint "unknown"))
            ])
            outcome payload
          ∷ [];
  }
