-- ===== src/Kirim/Worker/Rounds.antt =====
-- `runOnce` of apps/api/src/modules/kirim/worker.ts: a round over all numbers.
use sq_hub.Common.{
  ℕ, suc, ◌+◌, String, Option, none, some, List, [], ◌∷◌, Bool, true, false, not, ◌&&◌, ◌||◌, ltb,
  ◌==◌, any, keep, length, str_eq, if◌then◌else◌, Result, ok, err, transaction,
}
use sq_hub.Kirim.Policy.{rate_allows, Fraction, send_gap_ms}
use sq_hub.Kirim.Outbox.{
  petugas, Asal, otomatis, ProviderName, tersambung, nonaktif, MessageRow, DeviceRow, Kirim,
  device_no, is_jalurpesan,
}
use sq_hub.Kirim.Worker.{
  Candidate, SendResult, WorkerError, due_at, is_masuk, expire_due, claim, release_lease,
  apply_result,
}

-- the fields of the worker with the database: `nextSendAt` and the count of the round
pub record Round : Type 0 where
  pub db : Kirim
  pub next_send_at : List (String × ℕ)
  pub sent : ℕ

abbrev pub send_time : List (String × ℕ) → String → ℕ
send_time [] id = 0
send_time (e ∷ es) id = let rest = send_time es id in if str_eq e.0 id then e.1 else rest

abbrev pub is_counted : Option Asal → Bool
is_counted (some otomatis) = true
is_counted (some petugas) = true
is_counted _ = false

-- handed over in the last minute
unfoldable pub is_recent : ℕ → String → MessageRow → Bool
is_recent now device_id m =
    str_eq m.device_id device_id
    && (not (is_masuk m.arah)
        && (is_counted m.asal
            && elim m.provider_at [ none ↦ false | some t ↦ ltb now (t + 60000) ]))

unfoldable pub sendable : ℕ → Kirim → DeviceRow → Bool
sendable now db d =
    not d.antrean_dijeda
    && (not (device_no d.status == device_no nonaktif)
        && ((not (is_jalurpesan d.provider) || device_no d.status == device_no tersambung)
            && any (λ o. str_eq o.device_id d.id && due_at now o) db.outbox))

-- what the worker is built with: the providers it has, what sending a claimed row through one of them
-- answers, the clocks, and the fraction that `random` gives for a number
pub record Setup : Type 0 where
  pub provides : ProviderName → Bool
  pub deliver : DeviceRow → Candidate → SendResult
  pub now : ℕ
  pub node : ℕ
  pub random : String → Fraction

-- the loop of `runOnce` from the claim of a number on
unfoldable pub after_claim :
    Setup
    → DeviceRow
    → Round
    → Kirim × Result WorkerError (Option Candidate)
    → Round × Result WorkerError (Unit {0})
unfolding release_lease apply_result
after_claim s device w (db, err e) = (record w { db = db }, err e)
after_claim s device w (db, ok none) = (record w { db = db }, ok tt)
after_claim s device w (db, ok (some c)) =
    if s.provides device.provider
    then (
      record w {
        db = apply_result s.now device device.provider c.row (s.deliver device c) db;
        next_send_at = (device.id, s.node + send_gap_ms (s.random device.id)) ∷ w.next_send_at;
        sent = suc w.sent;
      },
      ok tt,
    )
    else (record w { db = release_lease s.now c.row.id db }, ok tt)

-- the body of the loop in `runOnce`, for one number
unfoldable pub serve : Setup → DeviceRow → Round → Round × Result WorkerError (Unit {0})
unfolding claim after_claim is_recent
serve s device w =
    if ltb s.node (send_time w.next_send_at device.id)
    then (w, ok tt)
    else if not (
        rate_allows (length (keep (is_recent s.now device.id) w.db.messages)) device.rate_per_menit)
    then (w, ok tt)
    else after_claim s device w (transaction (claim s.now device) w.db)

unfoldable pub serve_all : Setup → List DeviceRow → Round → Round × Result WorkerError (Unit {0})
unfolding serve
serve_all s [] w = (w, ok tt)
serve_all s (d ∷ ds) w =
    let served = serve s d w in elim served.1 [ ok _ ↦ serve_all s ds served.0 | err e ↦ served ]

-- `runOnce`; the numbers come in the order of the table, not in that of their codes
unfoldable pub run_once : Setup → Round → Round × Result WorkerError (Unit {0})
unfolding expire_due serve_all sendable
run_once s w =
    let db = (expire_due s.now w.db).0 in
    serve_all s (keep (sendable s.now db) db.devices) (record w { db = db; sent = 0 })
