-- ===== src/Kirim/Outbox/Rows.antt =====
-- The rows of the gateway's tables that the outbox touches, with the columns that this code reads or writes.
use sq_hub.Common.{ℕ, String, Option, List, Bool}
use sq_hub.Kirim.Policy.{OutboundStatus, Jenis}

-- KirimErrorCode, of providers/types.ts
pub data ErrorCode : Type 0 where
  optout route_denied quota_exceeded device_inactive invalid_number media_invalid : ErrorCode
  expired engine_unavailable engine_rejected engine_conflict cancelled : ErrorCode

pub data Prioritas : Type 0 where
  kode petugas tinggi normal : Prioritas

pub data Arah : Type 0 where
  masuk keluar : Arah

pub data Asal : Type 0 where
  otomatis petugas hp kontak : Asal

pub data ProviderName : Type 0 where
  log jalurpesan : ProviderName

pub data DeviceStatus : Type 0 where
  belum_dipasang menunggu_pairing tersambung terputus nonaktif : DeviceStatus

pub record OutboxRow : Type 0 where
  pub id : String
  pub message_id : String
  pub consumer_id : String
  pub device_id : String
  pub ref : Option String
  pub jenis : Jenis
  pub prioritas : Prioritas
  pub status : OutboundStatus
  pub attempts : ℕ
  pub error_code : Option ErrorCode
  pub next_attempt_at : ℕ
  pub created_at : ℕ
  pub expires_at : ℕ
  pub updated_at : ℕ

pub record MessageRow : Type 0 where
  pub id : String
  pub device_id : String
  pub conversation_id : Option String
  pub group_id : Option String
  pub arah : Arah
  pub asal : Option Asal
  pub diimpor : Bool
  pub status : OutboundStatus
  pub provider_message_id : Option String
  pub wa_message_id : Option String
  pub dry_run : Bool
  pub provider : ProviderName
  pub provider_at : Option ℕ
  pub created_at : ℕ

pub record DeviceRow : Type 0 where
  pub id : String
  pub kode : String
  pub pemilik_consumer_id : String
  pub provider : ProviderName
  pub status : DeviceStatus
  pub antrean_dijeda : Bool
  pub rate_per_menit : ℕ
  pub jam_kirim_mulai : String
  pub jam_kirim_selesai : String
  pub status_berubah_at : ℕ

-- what a queued webhook says
pub data Event : Type 0 where
  message_status :
      (id : String) (status : OutboundStatus) (error_code : Option ErrorCode) (dry_run : Bool)
      (conversation_id group_id ref : Option String)
      → Event
  device_status : (kode : String) (status : DeviceStatus) → Event

pub record Delivery : Type 0 where
  pub consumer_id : String
  pub event : Event
  pub occurred_at : ℕ

pub record ConsumerRow : Type 0 where
  pub id : String
  pub webhook_url : Option String

pub record RouteRow : Type 0 where
  pub consumer_id : String
  pub device_id : String

pub record Kirim : Type 0 where
  pub outbox : List OutboxRow
  pub messages : List MessageRow
  pub devices : List DeviceRow
  pub consumers : List ConsumerRow
  pub routes : List RouteRow
  pub deliveries : List Delivery
