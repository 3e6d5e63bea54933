-- ===== src/Kirim/Queue.antt =====
-- The other operations that move a row of the outbox: `retry` and `cancel` of
-- apps/api/src/modules/kirim/admin.ts, and the receipts of apps/api/src/modules/kirim/ingest.ts. The rows
-- that they write to kirim_audit are left out.
pub mod History
mod Tests
use sq_hub.Common.{
  ℕ, String, Option, none, some, List, [], ◌∷◌, Bool, true, false, not, ◌&&◌, ◌||◌, any, keep,
  find?, update_where, str_eq, if◌then◌else◌, Tx, pure, throw, ◌>>=◌, ◌>>◌, guard, modify, gets,
}
use sq_hub.Kirim.Policy.{OutboundStatus, antre, gagal, dibatalkan, Receipt, advance_status}
use sq_hub.Kirim.Outbox.{
  ErrorCode, optout, route_denied, expired, cancelled, Arah, keluar, masuk, Asal, hp, OutboxRow,
  MessageRow, DeviceRow, Kirim, Change, same_status, is_jalurpesan, transition_outbox,
}

pub data QueueError : Type 0 where
  not_found not_retryable not_cancellable : QueueError

-- NOT_RETRYABLE
abbrev pub never_again : Option ErrorCode → Bool
never_again (some optout) = true
never_again (some route_denied) = true
never_again (some expired) = true
never_again _ = false

-- `lockOutbox`, of a message id that is a GUID
unfoldable pub lock_outbox : String → Tx Kirim QueueError OutboxRow
lock_outbox message_id db = elim (find? (λ o. str_eq o.message_id message_id) db.outbox) [
  | none ↦ throw not_found db
  | some o ↦ pure o db
]

abbrev pub retry_change : OutboxRow → Change
retry_change o = record {
  outbox_id = o.id;
  from_statuses = gagal ∷ [];
  status = antre;
  error_code = none;
  increment_attempts = false;
  reset_attempts = true;
  next_attempt_now = true;
  provider = none;
}

unfoldable pub retry : ℕ → String → Tx Kirim QueueError (Unit {0})
unfolding lock_outbox
retry now message_id = do
  row ← lock_outbox message_id
  guard (same_status row.status gagal && not (never_again row.error_code)) not_retryable
  modify (λ db. (transition_outbox now (retry_change row) db).0)

abbrev pub cancel_change : OutboxRow → Change
cancel_change o = record {
  outbox_id = o.id;
  from_statuses = antre ∷ [];
  status = dibatalkan;
  error_code = some cancelled;
  increment_attempts = false;
  reset_attempts = false;
  next_attempt_now = false;
  provider = none;
}

unfoldable pub cancel : ℕ → String → Tx Kirim QueueError (Unit {0})
unfolding lock_outbox
cancel now message_id = do
  row ← lock_outbox message_id
  guard (same_status row.status antre) not_cancellable
  modify (λ db. (transition_outbox now (cancel_change row) db).0)

abbrev is_keluar : Arah → Bool
is_keluar keluar = true
is_keluar masuk = false

abbrev is_hp : Option Asal → Bool
is_hp (some hp) = true
is_hp _ = false

abbrev is_one_of : List String → Option String → Bool
is_one_of ids none = false
is_one_of ids (some id) = any (λ i. str_eq i id) ids

-- a message that went out through this number and that the engine names
abbrev pub sent_as : String → List String → MessageRow → Bool
sent_as device_id ids m =
    is_jalurpesan m.provider
    && (str_eq m.device_id device_id && (is_one_of ids m.provider_message_id && is_keluar m.arah))

-- `advanceDeviceSent`: a message typed on the phone has no row in the outbox
unfoldable pub advance_device_sent : String → List String → Receipt → Kirim → Kirim
advance_device_sent device_id ids incoming db =
    elim (find? (λ m. sent_as device_id ids m && is_hp m.asal) db.messages) [
      | none ↦ db
      | some m ↦ elim (advance_status m.status incoming) [
        | none ↦ db
        | some next ↦ record db {
          messages =
              update_where (λ x. str_eq x.id m.id) (λ x. record x { status = next }) db.messages;
        }
      ]
    ]

abbrev pub receipt_change : OutboxRow → OutboundStatus → Change
receipt_change o next = record {
  outbox_id = o.id;
  from_statuses = o.status ∷ [];
  status = next;
  error_code = none;
  increment_attempts = false;
  reset_attempts = false;
  next_attempt_now = false;
  provider = none;
}

-- the events message.delivered and message.read
unfoldable pub apply_receipt : ℕ → String → List String → Receipt → Kirim → Kirim
unfolding advance_device_sent
apply_receipt now device_id ids incoming db =
    elim (find? (λ o. any (λ m. str_eq m.id o.message_id && sent_as device_id ids m) db.messages)
      db.outbox) [
        | none ↦ advance_device_sent device_id ids incoming db
        | some o ↦ elim (advance_status o.status incoming) [
          | none ↦ db
          | some next ↦ (transition_outbox now (receipt_change o next) db).0
        ]
      ]
