-- ===== src/ApplicationAccess/Tests.antt =====
-- Access to two applications on concrete tables.
use sq_hub.Common.{◌≡◌, ◌≢◌, ◌↔◌, refl, String, none, some, [], ◌∷◌, true, find?}
use sq_hub.Common.Identity.{Identity, ActorRef, human, Env, same_identity}
use sq_hub.ApplicationAccess.{
  ApplicationStatus, AccessStatus, ApplicationRow, ApplicationUpsertInput, AccessRow, AccessInput,
  AccessDb, has_key, no_governance, access_of, upsert_application, set_access, AccessDecision,
  allowed, on_application, check_access,
}
use sq_hub.ApplicationAccess.Decisions.{
  granted, check_access_iff, check_access-set_access, check_access-upsert_application,
}

abbrev person : String → Identity
person s = record { issuer = "kc"; subject = s }

abbrev clerk : ActorRef
clerk = record { kind = human; ref = "clerk" }

abbrev portal : ApplicationRow
portal = record {
  id = "a1";
  application_key = "portal";
  name = "Portal";
  canonical_url = "https://portal";
  status = ApplicationStatus.active;
  governance = no_governance;
}

abbrev tables : AccessDb
tables = record { applications = portal ∷ []; access = []; audit = [] }

abbrev request : Env
request = record { node = 5; db = 5; uuid = λ n. "u" }

abbrev give : String → AccessStatus → AccessInput
give s st = record {
  identity = person s;
  application_key = "portal";
  status = st;
  reason = none;
  actor = clerk;
}

abbrev after_grant : AccessDb
after_grant = (set_access request (give "ann" AccessStatus.active) tables).0

abbrev after_revoke : AccessDb
after_revoke = (set_access request (give "ann" AccessStatus.revoked) after_grant).0

access_tests :
    (check_access (person "ann") "portal" tables ≡ AccessDecision.no_grant)
    × (check_access (person "ann") "portal" after_grant ≡ AccessDecision.active_grant)
    × (check_access (person "ann") "portal" after_revoke ≡ AccessDecision.grant_revoked)
    × (check_access (person "ann") "store" after_grant ≡ AccessDecision.unknown_application)
unfolding check_access set_access same_identity
access_tests = (refl, refl, refl, refl)

check_access_iff_example : (allowed (check_access (person "ann") "portal" after_grant) ≡ true) ↔ (
    (a : ApplicationRow) × (r : AccessRow) × (find? (has_key "portal") after_grant.applications
      ≡ some a)
    × (a.status ≡ ApplicationStatus.active)
    × (find? (access_of (person "ann") a.id) after_grant.access ≡ some r)
    × (r.status ≡ AccessStatus.active))
check_access_iff_example = check_access_iff (person "ann") "portal" after_grant

check_access-set_access_example :
    (check_access (person "ann") "portal" after_grant
      ≡ on_application ApplicationStatus.active (granted AccessStatus.active))
    × ((j : Identity) (key : String)
        → j ≢ person "ann"
        → check_access j key after_grant ≡ check_access j key tables)
check_access-set_access_example =
    check_access-set_access request (give "ann" AccessStatus.active) tables portal refl

abbrev switched : ApplicationStatus → ApplicationUpsertInput
switched s = record {
  application_key = "portal";
  name = "Portal";
  canonical_url = "https://portal";
  status = s;
  governance = none;
  actor = clerk;
}

portal_stays : find? (has_key "portal") after_grant.applications ≡ some portal
unfolding set_access
portal_stays = refl

check_access-upsert_application_example :
    (check_access
        (person "ann")
        "portal"
        (upsert_application request (switched ApplicationStatus.inactive) after_grant)
      ≡ AccessDecision.application_inactive)
    × (check_access (person "ann") "portal" (
          upsert_application request
            (switched ApplicationStatus.active)
            (upsert_application request (switched ApplicationStatus.inactive) after_grant))
        ≡ check_access (person "ann") "portal" after_grant)
    × ((upsert_application request (switched ApplicationStatus.inactive) after_grant).access
        ≡ after_grant.access)
    × ((upsert_application request
          (switched ApplicationStatus.active)
          (upsert_application request (switched ApplicationStatus.inactive) after_grant)).access
        ≡ after_grant.access)
check_access-upsert_application_example =
    check_access-upsert_application request request (switched ApplicationStatus.inactive)
      (switched ApplicationStatus.active) after_grant portal (person "ann") portal_stays refl refl
      refl refl
