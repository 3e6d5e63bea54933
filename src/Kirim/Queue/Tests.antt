-- ===== src/Kirim/Queue/Tests.antt =====
-- The queue of the gateway on one message, and the theorem on its history applied to it.
use sq_hub.Common.{ℕ, ◌≡◌, refl, Option, none, some, [], ◌∷◌, false, err, Extends, transaction}
use sq_hub.Kirim.Policy.{OutboundStatus, antre, diserahkan, gagal, dibatalkan, Jenis, Receipt}
use sq_hub.Kirim.Outbox.{
  OutboxRow, DeviceRow, Kirim, Prioritas, keluar, otomatis, jalurpesan, tersambung, engine_rejected,
  optout, Delivery, Event, ErrorCode, transition_outbox,
}
use sq_hub.Kirim.Outbox.Evolution.{Evolves}
use sq_hub.Kirim.Worker.{handed_over, apply_result}
use sq_hub.Kirim.Queue.{not_found, not_retryable, not_cancellable, retry, cancel, apply_receipt}
use sq_hub.Kirim.Queue.History.{may_become, Step, Steps, Steps-never_back}

abbrev row_as : OutboundStatus → Option ErrorCode → OutboxRow
row_as s e = record {
  id = "o1";
  message_id = "m1";
  consumer_id = "portal";
  device_id = "d1";
  ref = some "r";
  jenis = Jenis.kode;
  prioritas = Prioritas.kode;
  status = s;
  attempts = 4;
  error_code = e;
  next_attempt_at = 10;
  created_at = 10;
  expires_at = 1000000;
  updated_at = 10;
}

abbrev phone : DeviceRow
phone = record {
  id = "d1";
  kode = "utama";
  pemilik_consumer_id = "owner";
  provider = jalurpesan;
  status = tersambung;
  antrean_dijeda = false;
  rate_per_menit = 10;
  jam_kirim_mulai = "07:00";
  jam_kirim_selesai = "20:00";
  status_berubah_at = 0;
}

abbrev gateway : OutboundStatus → Option ErrorCode → Kirim
gateway s e = record {
  outbox = row_as s e ∷ [];
  messages =
      record {
        id = "m1";
        device_id = "d1";
        conversation_id = some "chat";
        group_id = none;
        arah = keluar;
        asal = some otomatis;
        diimpor = false;
        status = s;
        provider_message_id = none;
        wa_message_id = none;
        dry_run = false;
        provider = jalurpesan;
        provider_at = none;
        created_at = 1;
      }
      ∷ [];
  devices = phone ∷ [];
  consumers = record { id = "owner"; webhook_url = some "https://hook.example" } ∷ [];
  routes = [];
  deliveries = [];
}

abbrev told : OutboundStatus → Option ErrorCode → ℕ → Delivery
told s e now = record {
  consumer_id = "owner";
  event = Event.message_status "m1" s e false (some "chat") none none;
  occurred_at = now;
}

runs : Unit {0}
unfolding retry cancel apply_result apply_receipt
runs = tt

-- What the committee may do with a message; the number's owner hears of it without the sender's reference.
queue_tests :
    ((retry 50 "m1" (gateway gagal (some optout))) ≡ err not_retryable)
    × ((cancel 50 "m1" (gateway diserahkan none)) ≡ err not_cancellable)
    × ((cancel 50 "m2" (gateway antre none)) ≡ err not_found)
    × ((transaction (cancel 50 "m1") (gateway antre none)).0.deliveries
        ≡ told dibatalkan (some ErrorCode.cancelled) 50 ∷ [])
unfolding runs transition_outbox
queue_tests = (refl, refl, refl, refl)

abbrev failed : Kirim
failed = gateway gagal (some engine_rejected)

abbrev retried : Kirim
retried = (transaction (retry 50 "m1") failed).0

abbrev handed : Kirim
handed = apply_result 60 phone jalurpesan (row_as antre none) (handed_over "wa1" false) retried

abbrev seen : Kirim
seen = apply_receipt 70 "d1" ("wa1" ∷ []) Receipt.dibaca handed

story : Steps failed seen
story =
    Steps.after
      (Steps.after (Steps.after Steps.done (Step.repeat 50 "m1"))
        (Step.answer 60 phone jalurpesan (row_as antre none) (handed_over "wa1" false)))
      (Step.receipt 70 "d1" ("wa1" ∷ []) Receipt.dibaca)

Steps-never_back_example : Extends (Evolves may_become) failed.outbox seen.outbox
Steps-never_back_example = Steps-never_back story
