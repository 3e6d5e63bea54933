-- ===== src/OrganMembership/Seats.antt =====
-- What apps/api/src/modules/organ-membership/repository.ts promises: each person has one seat at most, and each
-- operation changes the seats as said here.
pub mod Outcomes
mod Lookups
mod Endings
pub mod Invariant
pub mod Refinement
use sq_hub.Common.{
  ℕ, String, Option, none, some, List, [], ◌∷◌, Bool, true, false, not, ◌&&◌, ◌≡◌, All, Apart,
  str_eq, is_some, if◌then◌else◌, Result, ok, err,
}
use sq_hub.Common.Identity.{Identity, ActorRef, Outcome, succeeded, Env, same_identity}
use sq_hub.OrganMembership.Store.{
  ProvisioningPath, existing_staff, MembershipStatus, active, ended, Terms, MembershipRow, OrganDb,
  OrganStoreError, collides, get_active, CreateInput, ChangeInput, EndInput, create, change,
  end_membership, mark_existing_staff, is_succeeded,
}

-- the calls that change a membership
pub data Op : Type 0 where
  creating : (env : Env) (input : CreateInput) → Op
  changing : (env : Env) (input : ChangeInput) → Op
  ending : (env : Env) (input : EndInput) → Op
  marking : (env : Env) (identity : Identity) (reason : String) (actor : ActorRef) → Op

abbrev pub is_ok : {E A : Type 0} → Result E A → Bool
is_ok (ok a) = true
is_ok (err e) = false

abbrev pub run : (String → String) → Op → OrganDb → OrganDb
run digest (creating env input) db = (create digest env input db).0
run digest (changing env input) db = (change digest env input db).0
run digest (ending env input) db = (end_membership digest env input db).0
run digest (marking env i reason actor) db = (mark_existing_staff digest env i reason actor db).0

-- whether the caller gets a result and no error
abbrev pub accepted : (String → String) → Op → OrganDb → Bool
accepted digest (creating env input) db = is_ok (create digest env input db).1
accepted digest (changing env input) db = is_ok (change digest env input db).1
accepted digest (ending env input) db = is_ok (end_membership digest env input db).1
accepted digest (marking env i reason actor) db = true

-- an ended membership, and no other, has the time of its end
abbrev pub dated : MembershipStatus → Option ℕ → Bool
dated active t = not (is_some t)
dated ended t = is_some t

abbrev pub WellFormed : OrganDb → Type 0
WellFormed db =
    Apart collides db.memberships × All (λ r. dated r.status r.ended_at ≡ true) db.memberships

-- a seat, and who has which
pub record Seat : Type 0 where
  pub id : String
  pub terms : Terms
  pub path : ProvisioningPath

abbrev pub seat_of : Option MembershipRow → Option Seat
seat_of none = none
seat_of (some r) = some (record { id = r.id; terms = r.terms; path = r.provisioning_path })

abbrev pub seat : OrganDb → Identity → Option Seat
seat db i = seat_of (get_active i db)

abbrev pub with_terms : String → Terms → Option Seat → Option Seat
with_terms id terms none = none
with_terms id terms (some s) = if str_eq s.id id then some (record s { terms = terms }) else some s

abbrev pub without : String → Option Seat → Option Seat
without id none = none
without id (some s) = if str_eq s.id id then none else some s

abbrev pub as_staff : Option Seat → Option Seat
as_staff none = none
as_staff (some s) = some (record s { path = existing_staff })

-- the seats after an operation that was accepted
abbrev pub seat_after : Op → (Identity → Option Seat) → Identity → Option Seat
seat_after (creating env input) seats i =
    if same_identity input.identity i
    then some (record { id = env.uuid 0; terms = input.terms; path = input.provisioning_path })
    else seats i
seat_after (changing env input) seats i = with_terms input.id input.terms (seats i)
seat_after (ending env input) seats i = without input.id (seats i)
seat_after (marking env j reason actor) seats i =
    if same_identity j i then as_staff (seats i) else seats i

-- what must hold of the seats for the operation to be accepted
abbrev pub Permitted : Op → (Identity → Option Seat) → Type 0
Permitted (creating env input) seats = seats input.identity ≡ none
Permitted (changing env input) seats = Unit
Permitted (ending env input) seats = Unit
Permitted (marking env j reason actor) seats = Unit
