-- ===== src/Kirim/Worker/Tests.antt =====
-- The send worker on a queue of two messages, and the theorems applied to it.
use sq_hub.Common.{
  ℕ, ◌≡◌, ◌≢◌, refl, arith, String, none, some, List, [], ◌∷◌, map, true, false, ok, Pointwise, All,
  false, eq_iff, ◌≤◌,
}
use sq_hub.Kirim.Policy.{
  OutboundStatus, antre, diserahkan, gagal, Jenis, rate_allows, send, window_decision,
}
use sq_hub.Kirim.Outbox.{
  OutboxRow, MessageRow, DeviceRow, Kirim, Prioritas, keluar, otomatis, jalurpesan, tersambung,
  transition_outbox, engine_unavailable,
}
use sq_hub.Kirim.Outbox.Evolution.{Evolves}
use sq_hub.Kirim.Worker.{Candidate, handed_over, retryable, apply_result, claim, decision_input}
use sq_hub.Kirim.Worker.Rounds.{Round, Setup, run_once}
use sq_hub.Kirim.Worker.Moves.{worker_may, run_once-moves}
use sq_hub.Kirim.Worker.Attempts.{AttemptsLeft, apply_result-AttemptsLeft}
use sq_hub.Kirim.Worker.Counts.{Counted, Finished}
use sq_hub.Kirim.Worker.Claims.{Due, claim-Due, claim-lease}

abbrev queued : String → Prioritas → ℕ → OutboxRow
queued id p created = record {
  id = id;
  message_id = id;
  consumer_id = "portal";
  device_id = "d1";
  ref = none;
  jenis = Jenis.kode;
  prioritas = p;
  status = antre;
  attempts = 0;
  error_code = none;
  next_attempt_at = created;
  created_at = created;
  expires_at = 1000000;
  updated_at = created;
}

abbrev message : String → MessageRow
message id = record {
  id = id;
  device_id = "d1";
  conversation_id = some "chat";
  group_id = none;
  arah = keluar;
  asal = some otomatis;
  diimpor = false;
  status = antre;
  provider_message_id = none;
  wa_message_id = none;
  dry_run = false;
  provider = jalurpesan;
  provider_at = none;
  created_at = 1;
}

abbrev phone : DeviceRow
phone = record {
  id = "d1";
  kode = "utama";
  pemilik_consumer_id = "owner";
  provider = jalurpesan;
  status = tersambung;
  antrean_dijeda = false;
  rate_per_menit = 10;
  jam_kirim_mulai = "07:00";
  jam_kirim_selesai = "20:00";
  status_berubah_at = 0;
}

abbrev gateway : Kirim
gateway = record {
  outbox = queued "slow" Prioritas.normal 10 ∷ queued "code" Prioritas.kode 20 ∷ [];
  messages = message "slow" ∷ message "code" ∷ [];
  devices = phone ∷ [];
  consumers = [];
  routes = [];
  deliveries = [];
}

abbrev accepting : Setup
accepting = record {
  provides = λ p. true;
  deliver = λ d c. handed_over c.row.id false;
  now = 100;
  node = 100;
  random = λ id. record { is_negative = false; top = 1; bottom = 2 };
}

abbrev start : Round
start = record { db = gateway; next_send_at = []; sent = 7 }

abbrev statuses : Kirim → List OutboundStatus
statuses db = map (λ o. o.status) db.outbox

-- A code goes before an older message of normal priority; one message is sent per number and round.
round_tests :
    (statuses (run_once accepting start).0.db ≡ antre ∷ diserahkan ∷ [])
    × ((run_once accepting start).0.sent ≡ 1)
    × (statuses (run_once (record accepting { now = 1000000 }) start).0.db ≡ gagal ∷ gagal ∷ [])
unfolding run_once rate_allows window_decision transition_outbox
round_tests = (refl, refl, refl)

run_once-moves_example :
    Pointwise (Evolves worker_may) gateway.outbox (run_once accepting start).0.db.outbox
run_once-moves_example = run_once-moves accepting start

abbrev code_row : Candidate
code_row = record { row = queued "code" Prioritas.kode 20; replying = false }

abbrev slow_row : Candidate
slow_row = record { row = queued "slow" Prioritas.normal 10; replying = false }

claim_code : (db : Kirim) × (claim 100 phone gateway ≡ ok (some code_row, db))
unfolding claim window_decision
claim_code = (_, refl)

claim_slow : (db : Kirim) × (claim 200 phone claim_code.0 ≡ ok (some slow_row, db))
unfolding claim window_decision claim_code
claim_slow = (_, refl)

claim-Due_example :
    Due 100 phone code_row × (window_decision (decision_input 100 phone code_row) ≡ some send)
claim-Due_example = claim-Due 100 phone gateway claim_code.0 code_row claim_code.1

claim-lease_example : slow_row.row.id ≢ code_row.row.id
claim-lease_example =
    claim-lease 100 200 phone phone gateway claim_code.0 claim_slow.0 code_row slow_row claim_code.1
      (omega arith) claim_slow.1

-- three attempts made
abbrev tired : OutboxRow
tired = record (queued "slow" Prioritas.normal 10) { attempts = 3 }

abbrev tired_gateway : Kirim
tired_gateway = record gateway { outbox = tired ∷ queued "code" Prioritas.kode 20 ∷ [] }

abbrev after_failure : Kirim
after_failure = apply_result 100 phone jalurpesan tired (retryable engine_unavailable) tired_gateway

apply_result-AttemptsLeft_example :
    All AttemptsLeft after_failure.outbox
    × All (Counted tired (retryable engine_unavailable)) after_failure.outbox
    × (false ≡ false → 3 ≤ 3 → All (Finished tired) after_failure.outbox)
apply_result-AttemptsLeft_example =
    apply_result-AttemptsLeft 100 phone jalurpesan tired (retryable engine_unavailable)
      tired_gateway (λ _. refl, (λ e. other e, tt)) (λ _. omega arith, (λ _. omega arith, tt))
  where
    other : {A : Type 0} → ◌≡◌ {A = String} "code" "slow" → A
    other e = absurd (ground (arith, e, eq_iff "code" "slow"))
