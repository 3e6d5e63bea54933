-- ===== src/Kirim/Webhooks/Tests.antt =====
-- Deliveries to an application, and the theorems applied to them.
use sq_hub.Common.{
  ℕ, ◌≤◌, String, none, some, Option, List, [], ◌∷◌, true, false, ◌≡◌, refl, find?, if◌then◌else◌,
  arith, Result, ok, err, str_eq,
}
use sq_hub.Kirim.Webhooks.{
  pending, DeliveryRow, Url, waits, Answer, is_allowed_url, has_delivery, leased, CryptoError,
  not_opened, WebhookConsumer, deliver, run_deliveries,
}
use sq_hub.Kirim.Webhooks.Deliveries.{settle, is_berhasil, successes, settle_lem}

abbrev waiting : String → ℕ → DeliveryRow
waiting id at = record {
  id = id;
  consumer_id = "portal";
  status = pending;
  attempts = 0;
  last_status_code = none;
  next_attempt_at = at;
  delivered_at = none;
}

abbrev refused : Answer
refused = record { code = some 500; at = 100 }

abbrev accepted : Answer
accepted = record { code = some 204; at = 200 }

abbrev answers : List Answer
answers = refused ∷ refused ∷ accepted ∷ refused ∷ refused ∷ refused ∷ refused ∷ refused ∷ []

abbrev host : String → Url
host hostname = record {
  protocol = "https:";
  username = "";
  password = "";
  hostname = hostname;
  port = "";
  hash = "";
}

own_hosts :
    (is_allowed_url (host "portal.sabilulquran.or.id") ≡ true)
    × (is_allowed_url (host "portal.sabilulquran.or.id.evil.example") ≡ false)
    × (is_allowed_url (host "-x.sabilulquran.or.id") ≡ false)
own_hosts = (refl, refl, refl)

settle_lem_example :
    (waits (settle answers (waiting "e1" 50)).status ≡ false)
    × (is_berhasil (settle answers (waiting "e1" 50)).status ≡ successes 8 answers)
    × ((settle answers (waiting "e1" 50)).attempts ≤ 8)
settle_lem_example = settle_lem answers (waiting "e1" 50) refl (omega arith) (omega arith)

abbrev queue : List DeliveryRow
queue = waiting "e1" 50 ∷ waiting "e2" 60 ∷ waiting "e3" 70 ∷ []

-- the payload of e2 cannot be opened
abbrev answering : DeliveryRow → Result CryptoError Answer
answering r = if str_eq r.id "e2" then err not_opened else ok accepted

-- An error ends the round: what was claimed after it keeps its lease.
stopped_round :
    (find? (has_delivery "e3") (run_deliveries 100 answering queue).0
      ≡ some (leased 100 (waiting "e3" 70)))
    × ((run_deliveries 100 answering queue).1 ≡ err not_opened)
unfolding run_deliveries
stopped_round = (refl, refl)

abbrev portal : WebhookConsumer
portal = record {
  id = "portal";
  webhook_url = some "portal.sabilulquran.or.id";
  webhook_secret_ref = some "SECRET";
  webhook_secret_enc = none;
}

abbrev delivered_to : WebhookConsumer → Result CryptoError (Option ℕ)
delivered_to c =
    deliver (λ url. some (host url)) (λ ref. some "key") (λ enc. err not_opened)
      (λ enc. err not_opened) (λ url key body. some 204) c "payload"

-- A payload or a secret that cannot be opened is an error; without an address nothing is opened.
deliver_tests :
    (delivered_to portal ≡ err not_opened)
    × (delivered_to (record portal { webhook_secret_enc = some "v1" }) ≡ err not_opened)
    × (delivered_to (record portal { webhook_url = none }) ≡ ok none)
unfolding deliver
deliver_tests = (refl, refl, refl)
