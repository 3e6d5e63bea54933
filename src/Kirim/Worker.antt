-- ===== src/Kirim/Worker.antt =====
-- apps/api/src/modules/kirim/worker.ts: the send worker. The provider with what `send` prepares for it (body,
-- file, recipient) is a parameter: its answer for a claimed row. The clock of the database is `now`, that of
-- the process is `node`.
mod Candidates
pub mod Rounds
pub mod Moves
pub mod Claims
pub mod Counts
pub mod Attempts
mod Tests
unfoldable pub use Candidates.*
use sq_hub.Common.{
  ℕ, zero, suc, ◌+◌, ◌*◌, String, Option, none, some, List, [], ◌∷◌, Bool, true, false, not, ◌&&◌,
  ◌||◌, ltb, leb, ◌==◌, any, keep, find?, length, update_where, str_eq, if◌then◌else◌, Result, ok,
  err, Tx, pure, throw, ◌>>=◌, ◌>>◌, modify, transaction,
}
use sq_hub.Kirim.Policy.{
  OutboundStatus, antre, diserahkan, gagal, Jenis, WindowDecision, send, wait, expire,
  DecisionInput, window_decision, is_notifikasi, max_send_attempts, retry_delay_ms, rate_allows,
  send_gap_ms,
}
use sq_hub.Kirim.Outbox.{
  ErrorCode, expired, Prioritas, kode, petugas, tinggi, normal, Arah, masuk, keluar, Asal, otomatis,
  ProviderName, log, jalurpesan, DeviceStatus, tersambung, terputus, nonaktif, OutboxRow,
  MessageRow, DeviceRow, Kirim, ProviderInfo, Change, same_status, device_no, is_jalurpesan,
  set_device_status, transition_outbox,
}

abbrev pub lease_ms : ℕ
lease_ms = 60000

-- providers/types.ts
pub data SendResult : Type 0 where
  handed_over : (provider_message_id : String) (dry_run : Bool) → SendResult
  rejected : (code : ErrorCode) → SendResult
  retryable : (code : ErrorCode) → SendResult
  device_disconnected : SendResult

-- a send window that is no time makes windowDecision throw
pub data WorkerError : Type 0 where
  invalid_time : WorkerError

abbrev pub expired_change : String → Change
expired_change id = record {
  outbox_id = id;
  from_statuses = antre ∷ [];
  status = gagal;
  error_code = some expired;
  increment_attempts = false;
  reset_attempts = false;
  next_attempt_now = false;
  provider = none;
}

expire_all : ℕ → List OutboxRow → Kirim → Kirim
expire_all now [] db = db
expire_all now (o ∷ os) db = expire_all now os (transition_outbox now (expired_change o.id) db).0

-- `expireDue`: the state and how many rows it read
unfoldable pub expire_due : ℕ → Kirim → Kirim × ℕ
unfolding expire_all take
expire_due now db =
    let due = take 200 (keep (λ o. is_antre o && leb o.expires_at now) db.outbox) in
    (expire_all now due db, length due)

-- `UPDATE kirim_outbox SET next_attempt_at = …, updated_at = now() WHERE id = …`
unfoldable pub set_next_attempt : ℕ → String → ℕ → Kirim → Kirim
set_next_attempt now id next db = record db {
  outbox =
      update_where (λ o. str_eq o.id id)
        (λ o. record o { next_attempt_at = next; updated_at = now }) db.outbox;
}

abbrev pub decision_input : ℕ → DeviceRow → Candidate → DecisionInput
decision_input now device c = record {
  now = now;
  jenis = c.row.jenis;
  start = device.jam_kirim_mulai;
  end = device.jam_kirim_selesai;
  expires_at = c.row.expires_at;
  replying = c.replying;
}

-- the loop of `claim`
unfoldable pub claim_first :
    ℕ → DeviceRow → List Candidate → Tx Kirim WorkerError (Option Candidate)
unfolding set_next_attempt
claim_first now device [] = pure none
claim_first now device (c ∷ cs) = elim (window_decision (decision_input now device c)) [
  | none ↦ throw invalid_time
  | some d ↦ elim d [
    | expire ↦ do
      modify (λ db. (transition_outbox now (expired_change c.row.id) db).0)
      claim_first now device cs
    | wait until ↦ do modify (set_next_attempt now c.row.id until); claim_first now device cs
    | send ↦ do modify (set_next_attempt now c.row.id (now + lease_ms)); pure (some c)
  ]
]

unfoldable pub claim : ℕ → DeviceRow → Tx Kirim WorkerError (Option Candidate)
unfolding candidates claim_first
claim now device db = claim_first now device (candidates now device db) db

-- `releaseLease`
unfoldable pub release_lease : ℕ → String → Kirim → Kirim
release_lease now id db = record db {
  outbox =
      update_where (λ o. str_eq o.id id && is_antre o) (λ o. record o { next_attempt_at = now })
        db.outbox;
}

abbrev pub handed_over_change : OutboxRow → ProviderName → String → Bool → Change
handed_over_change row name message_id dry_run = record {
  outbox_id = row.id;
  from_statuses = antre ∷ [];
  status = diserahkan;
  error_code = none;
  increment_attempts = true;
  reset_attempts = false;
  next_attempt_now = false;
  provider = some (record { message_id = message_id; dry_run = dry_run; provider = name });
}

abbrev pub failed_change : OutboxRow → ErrorCode → Change
failed_change row code = record {
  outbox_id = row.id;
  from_statuses = antre ∷ [];
  status = gagal;
  error_code = some code;
  increment_attempts = true;
  reset_attempts = false;
  next_attempt_now = false;
  provider = none;
}

-- the number is marked disconnected and the row waits for it
unfoldable pub pause_device : ℕ → DeviceRow → OutboxRow → Kirim → Kirim
pause_device now device row db =
    (set_device_status now device.id terputus (record db {
      outbox =
          update_where (λ o. str_eq o.id row.id && is_antre o)
            (λ o. record o { next_attempt_at = now; updated_at = now }) db.outbox;
    })).0

-- another attempt after a delay
unfoldable pub schedule_retry : ℕ → OutboxRow → ErrorCode → ℕ → Kirim → Kirim
schedule_retry now row code delay db = record db {
  outbox =
      update_where (λ o. str_eq o.id row.id && is_antre o)
        (λ o. record o {
          attempts = suc o.attempts;
          error_code = some code;
          next_attempt_at = now + delay;
          updated_at = now;
        })
        db.outbox;
}

unfoldable pub fail : ℕ → OutboxRow → ErrorCode → Kirim → Kirim
fail now row code db = (transition_outbox now (failed_change row code) db).0

-- `attempts < MAX_SEND_ATTEMPTS ? retryDelayMs(attempts) : null`
abbrev pub next_delay : ℕ → Option ℕ
next_delay attempts = if ltb attempts max_send_attempts then retry_delay_ms attempts else none

unfoldable pub apply_result : ℕ → DeviceRow → ProviderName → OutboxRow → SendResult → Kirim → Kirim
unfolding pause_device schedule_retry fail
apply_result now device name row (handed_over message_id dry_run) db =
    (transition_outbox now (handed_over_change row name message_id dry_run) db).0
apply_result now device name row device_disconnected db = pause_device now device row db
apply_result now device name row (rejected code) db = fail now row code db
apply_result now device name row (retryable code) db = elim (next_delay (suc row.attempts)) [
  | some delay ↦ schedule_retry now row code delay db
  | none ↦ fail now row code db
]
