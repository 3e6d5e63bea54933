-- ===== src/OrganMembership/Service/Tests.antt =====
-- An administrator seats a member of the staff.
use sq_hub.Common.{
  ℕ, String, none, some, [], ◌∷◌, true, false, ◌≡◌, refl, inl, inr, any, str_eq, is_some, ok,
}
use sq_hub.Common.Identity.{Identity, human, Env}
use sq_hub.ApplicationAccess.{ApplicationStatus, ApplicationRow, check_access, allowed}
use sq_hub.OrganMembership.Store.{pembina, get_active}
use sq_hub.OrganMembership.Service.{all_done, Reply, OrganSystem, selected_governance_applications}
use sq_hub.OrganMembership.Service.Staff.{
  totp_set, totp_failed, StaffPerson, ExistingStaffInput, add_existing_staff,
}
use sq_hub.OrganMembership.Service.Progress.{add_existing_staff-progress}
use sq_hub.OrganMembership.Service.Refusals.{Untouched, add_existing_staff-refused}

abbrev realm : String
realm = "https://id.example"

abbrev governance_app : ApplicationRow
governance_app = record {
  id = "a1";
  application_key = "yayasan";
  name = "Yayasan";
  canonical_url = "https://yayasan.example";
  status = ApplicationStatus.active;
  governance = record { summary_path = some "/ringkasan"; audience = some "yayasan"; order = 1 };
}

abbrev sys : OrganSystem
sys = record {
  organ = record { memberships = []; audit = [] };
  access = record { applications = governance_app ∷ []; access = []; audit = [] };
}

abbrev envs : ℕ → Env
envs n = record { node = n; db = n; uuid = λ k. "u" }

abbrev ahmad : StaffPerson
ahmad = record {
  identity = record { issuer = "https://id.example/"; subject = "ahmad" };
  totp_configured = some false;
}

abbrev budi : Identity
budi = record { issuer = realm; subject = "budi" }

abbrev request : ExistingStaffInput
request = record {
  terms = record {
    organ = pembina;
    position_label = none;
    term_start = "2026-01-01";
    term_end = none;
  };
  reason = "chosen";
  application_keys = "yayasan" ∷ [];
  actor = record { kind = human; ref = "budi" };
}

abbrev digest : String → String
digest text = text

yayasan_selected :
    selected_governance_applications request.application_keys sys.access
    ≡ some (governance_app ∷ [])
unfolding selected_governance_applications
yayasan_selected = refl

add_existing_staff-progress_example :
    (reply : Reply) × ((add_existing_staff digest envs request
        (some ahmad)
        realm
        (some totp_set)
        budi
        sys).1
      ≡ ok reply)
    × (reply.outcome ≡ all_done)
    × (is_some (
          get_active ahmad.identity
            (add_existing_staff digest envs request
              (some ahmad)
              realm
              (some totp_set)
              budi
              sys).0.organ)
        ≡ true)
    × ((key : String)
        → any (str_eq key) ("yayasan" ∷ []) ≡ true
        → allowed (
            check_access ahmad.identity key
              (add_existing_staff digest envs request
                (some ahmad)
                realm
                (some totp_set)
                budi
                sys).0.access)
          ≡ true)
unfolding sq_hub.HubAuth.Service.normalize_issuer
add_existing_staff-progress_example =
    add_existing_staff-progress digest envs request (some ahmad) realm (some totp_set) budi sys
      ahmad (governance_app ∷ []) refl refl yayasan_selected (tt, tt) (inr (inl refl)) (λ n. refl)

add_existing_staff-refused_example :
    Untouched sys
      (add_existing_staff digest envs request (some ahmad) realm (some totp_failed) budi sys)
unfolding sq_hub.HubAuth.Service.normalize_issuer
add_existing_staff-refused_example =
    add_existing_staff-refused digest envs request (some ahmad) realm (some totp_failed) budi sys
      (inr (ahmad, refl, inr (inr (refl, inr refl))))
