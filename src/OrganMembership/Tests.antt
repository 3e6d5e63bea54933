-- ===== src/OrganMembership/Tests.antt =====
-- Two members of an organ, and the theorems applied to them.
use sq_hub.Common.{String, none, some, [], ◌∷◌, true, false, ◌≡◌, refl, if◌then◌else◌}
use sq_hub.Common.Identity.{Identity, ActorRef, human, Env, same_identity}
use sq_hub.OrganMembership.Store.{
  pembina, existing_staff, organ_identity, active, ended, Terms, MembershipRow, OrganDb, create,
}
use sq_hub.OrganMembership.Seats.{
  Op, creating, ending, run, accepted, WellFormed, seat, seat_after, Permitted,
}
use sq_hub.OrganMembership.Seats.Invariant.{WellFormed-run}
use sq_hub.OrganMembership.Seats.Refinement.{run-refines}

abbrev person : String → Identity
person subject = record { issuer = "https://id.example"; subject = subject }

abbrev admin : ActorRef
admin = record { kind = human; ref = "admin" }

abbrev terms : Terms
terms = record {
  organ = pembina;
  position_label = none;
  term_start = "2026-01-01";
  term_end = some "2031-01-01";
}

abbrev member : String → String → MembershipRow
member id subject = record {
  id = id;
  identity = person subject;
  terms = terms;
  status = active;
  reason = "chosen";
  provisioning_path = organ_identity;
  actor = admin;
  created_at = 1;
  updated_at = 1;
  ended_at = none;
}

abbrev former : MembershipRow
former = record (member "m0" "ahmad") { status = ended; ended_at = some 1 }

abbrev organ_db : OrganDb
organ_db = record { memberships = former ∷ member "m1" "ahmad" ∷ []; audit = [] }

abbrev at_noon : Env
at_noon = record { node = 100; db = 100; uuid = λ n. "m2" }

abbrev seating : String → Op
seating subject = creating at_noon (record {
  identity = person subject;
  terms = terms;
  reason = "chosen";
  provisioning_path = existing_staff;
  actor = admin;
})

abbrev leaving : Op
leaving = ending at_noon (record { id = "m1"; reason = "left"; actor = admin; source = none })

abbrev digest : String → String
digest text = text

organ_db-WellFormed : WellFormed organ_db
unfolding same_identity
organ_db-WellFormed = (((refl, tt), (tt, tt)), (refl, (refl, tt)))

-- A second seat is refused, and one for somebody else is not.
seating_twice :
    (accepted digest (seating "ahmad") organ_db ≡ false)
    × (accepted digest (seating "budi") organ_db ≡ true)
unfolding create same_identity
seating_twice = (refl, refl)

WellFormed-run_example : WellFormed (run digest (seating "budi") organ_db)
WellFormed-run_example = WellFormed-run digest (seating "budi") organ_db organ_db-WellFormed

run-refines_example :
    (accepted digest leaving organ_db ≡ true → Permitted leaving (seat organ_db))
    × ((j : Identity)
        → seat (run digest leaving organ_db) j ≡ (
            if accepted digest leaving organ_db
            then seat_after leaving (seat organ_db) j
            else seat organ_db j))
run-refines_example = run-refines digest leaving organ_db organ_db-WellFormed
