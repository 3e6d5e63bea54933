-- ===== src/Kirim/Outbox.antt =====
-- apps/api/src/modules/kirim/repository.ts: the outbox, its messages and the webhooks that a change of
-- status queues. Sealed payloads are kept open.
mod Rows
pub mod Evolution
pub use Rows.*
use sq_hub.Common.{
  ℕ, suc, ◌+◌, String, Option, none, some, List, [], ◌∷◌, ◌++◌, map, Bool, true, false, not, ◌&&◌,
  ◌||◌, any, keep, find?, update_where, str_eq, ◌==◌, or_else, if◌then◌else◌,
}
use sq_hub.Kirim.Policy.{
  OutboundStatus, antre, diserahkan, terkirim, dibaca, gagal, dibatalkan, Jenis,
}

abbrev pub status_no : OutboundStatus → ℕ
status_no antre = 0
status_no diserahkan = 1
status_no terkirim = 2
status_no dibaca = 3
status_no gagal = 4
status_no dibatalkan = 5

abbrev pub same_status : OutboundStatus → OutboundStatus → Bool
same_status a b = status_no a == status_no b

abbrev pub device_no : DeviceStatus → ℕ
device_no belum_dipasang = 0
device_no menunggu_pairing = 1
device_no tersambung = 2
device_no terputus = 3
device_no nonaktif = 4

abbrev pub is_jalurpesan : ProviderName → Bool
is_jalurpesan jalurpesan = true
is_jalurpesan log = false

-- `!consumer.rows[0]?.webhookUrl` is true of an absent consumer, of null and of an empty text
abbrev pub has_webhook : Option ConsumerRow → Bool
has_webhook none = false
has_webhook (some c) = elim c.webhook_url [ none ↦ false | some u ↦ not (str_eq u "") ]

unfoldable pub enqueue_webhook : ℕ → String → Event → Kirim → Kirim
enqueue_webhook now consumer_id event db =
    if has_webhook (find? (λ c. str_eq c.id consumer_id) db.consumers)
    then record db {
      deliveries =
          db.deliveries
          ++ record { consumer_id = consumer_id; event = event; occurred_at = now } ∷ [];
    }
    else db

unfoldable pub enqueue_all : ℕ → List String → Event → Kirim → Kirim
enqueue_all now [] event db = db
enqueue_all now (c ∷ cs) event db = enqueue_all now cs event (enqueue_webhook now c event db)

-- `SELECT $2 UNION SELECT consumer_id …`: each recipient once, the owner first
distinct : List String → List String
distinct [] = []
distinct (c ∷ cs) = c ∷ keep (λ d. not (str_eq d c)) (distinct cs)

unfoldable pub device_status_recipients : DeviceRow → Kirim → List String
unfolding distinct
device_status_recipients device db = distinct (
    device.pemilik_consumer_id
    ∷ map (λ r. r.consumer_id) (keep (λ r. str_eq r.device_id device.id) db.routes))

-- the UPDATE of `setDeviceStatus`, without `allowFromNonaktif`
abbrev pub device_moves : String → DeviceStatus → DeviceRow → Bool
device_moves id status d =
    str_eq d.id id
    && (not (device_no d.status == device_no status)
        && not (device_no d.status == device_no nonaktif))

unfoldable pub set_device_status : ℕ → String → DeviceStatus → Kirim → Kirim × Bool
unfolding enqueue_all device_status_recipients
set_device_status now id status db = elim (find? (device_moves id status) db.devices) [
  | none ↦ (db, false)
  | some d ↦
      let moved = record db {
        devices =
            update_where (device_moves id status)
              (λ x. record x { status = status; status_berubah_at = now }) db.devices;
      } in
      (enqueue_all now (device_status_recipients d moved) (device_status d.kode status) moved, true)
]

pub record ProviderInfo : Type 0 where
  pub message_id : String
  pub dry_run : Bool
  pub provider : ProviderName

pub record Change : Type 0 where
  pub outbox_id : String
  pub from_statuses : List OutboundStatus
  pub status : OutboundStatus
  pub error_code : Option ErrorCode
  pub increment_attempts : Bool
  pub reset_attempts : Bool
  -- `nextAttemptAt: "now"`; no caller passes a date
  pub next_attempt_now : Bool
  pub provider : Option ProviderInfo

-- `WHERE id = $1 AND status = ANY($8)`
abbrev pub moves : Change → OutboxRow → Bool
moves c o = str_eq o.id c.outbox_id && any (same_status o.status) c.from_statuses

abbrev pub moved_row : ℕ → Change → OutboxRow → OutboxRow
moved_row now c o = record o {
  status = c.status;
  error_code = c.error_code;
  attempts =
      if c.reset_attempts then 0 else if c.increment_attempts then suc o.attempts else o.attempts;
  next_attempt_at = if c.next_attempt_now then now else o.next_attempt_at;
  updated_at = now;
}

abbrev pub with_provider : ℕ → OutboundStatus → Option ProviderInfo → MessageRow → MessageRow
with_provider now status none m = record m { status = status }
with_provider now status (some p) m = record m {
  status = status;
  provider_message_id = some p.message_id;
  wa_message_id = if is_jalurpesan p.provider then some p.message_id else m.wa_message_id;
  dry_run = p.dry_run;
  provider = p.provider;
  provider_at = some now;
}

-- `FROM kirim_devices d WHERE m.id = $1 AND d.id = m.device_id`
abbrev pub message_moves : String → List DeviceRow → MessageRow → Bool
message_moves id devices m = str_eq m.id id && any (λ d. str_eq d.id m.device_id) devices

abbrev pub owner_of : String → List DeviceRow → Option String
owner_of device_id devices = elim (find? (λ d. str_eq d.id device_id) devices) [
  | none ↦ none
  | some d ↦ some d.pemilik_consumer_id
]

pub record StatusChange : Type 0 where
  pub outbox_id : String
  pub message_id : String
  pub consumer_id : String
  pub ref : Option String
  pub status : OutboundStatus
  pub error_code : Option ErrorCode
  pub dry_run : Bool
  pub owner_consumer_id : Option String
  pub conversation_id : Option String
  pub group_id : Option String

abbrev pub change_of : Change → OutboxRow → List DeviceRow → Option MessageRow → StatusChange
change_of c o devices none = record {
  outbox_id = o.id;
  message_id = o.message_id;
  consumer_id = o.consumer_id;
  ref = o.ref;
  status = c.status;
  error_code = c.error_code;
  dry_run = false;
  owner_consumer_id = none;
  conversation_id = none;
  group_id = none;
}
change_of c o devices (some m) = record {
  outbox_id = o.id;
  message_id = o.message_id;
  consumer_id = o.consumer_id;
  ref = o.ref;
  status = c.status;
  error_code = c.error_code;
  dry_run = elim c.provider [ none ↦ m.dry_run | some p ↦ p.dry_run ];
  owner_consumer_id = owner_of m.device_id devices;
  conversation_id = m.conversation_id;
  group_id = m.group_id;
}

-- the data of `message.status`: a group hides the conversation
abbrev pub status_event : StatusChange → Option String → Event
status_event s ref =
    message_status s.message_id s.status s.error_code s.dry_run
      (elim s.group_id [ none ↦ s.conversation_id | some _ ↦ none ]) s.group_id ref

unfoldable pub enqueue_message_status : ℕ → StatusChange → Kirim → Kirim
unfolding enqueue_webhook
enqueue_message_status now s db =
    let told = enqueue_webhook now s.consumer_id (status_event s s.ref) db in
    elim s.owner_consumer_id [
      | none ↦ told
      | some owner ↦
          if str_eq owner s.consumer_id
          then told
          else enqueue_webhook now owner (status_event s none) told
    ]

unfoldable pub transition_outbox : ℕ → Change → Kirim → Kirim × Option StatusChange
unfolding enqueue_message_status
transition_outbox now c db = elim (find? (moves c) db.outbox) [
  | none ↦ (db, none)
  | some o ↦
      let moved = record db {
        outbox = update_where (moves c) (moved_row now c) db.outbox;
        messages =
            update_where (message_moves o.message_id db.devices)
              (with_provider now c.status c.provider) db.messages;
      } in
      let s =
        change_of c o db.devices (find? (message_moves o.message_id db.devices) db.messages) in
      (enqueue_message_status now s moved, some s)
]
