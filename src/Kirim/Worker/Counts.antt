-- ===== src/Kirim/Worker/Counts.antt =====
-- What an answer costs the claimed row: `applyResult` of apps/api/src/modules/kirim/worker.ts.
use sq_hub.Common.{
  ℕ, suc, ◌+◌, ◌≡◌, sym, subst, arith, some, Bool, true, ◌&&◌, All, Option-cases, update_where,
  str_eq, eq_iff, inl, inr, false, refl, ap, [], ◌∷◌, any,
}
use sq_hub.Kirim.Policy.{antre}
use sq_hub.Kirim.Outbox.{
  ErrorCode, ProviderName, OutboxRow, DeviceRow, Kirim, Change, same_status, terputus,
  transition_outbox,
}
use sq_hub.Kirim.Outbox.Evolution.{
  All-update_where_of, All-transition_outbox_of, outbox-set_device_status,
}
use sq_hub.Kirim.Worker.{
  is_antre, SendResult, handed_over, rejected, retryable, device_disconnected, handed_over_change,
  failed_change, pause_device, schedule_retry, fail, next_delay, apply_result,
}

-- the count that the worker read with its claim still stands
abbrev pub Current : OutboxRow → OutboxRow → Type 0
Current row o = o.id ≡ row.id → o.attempts ≡ row.attempts

-- the count of attempts after this answer: a disconnected number costs none
abbrev pub tried : SendResult → ℕ → ℕ
tried (handed_over id dry) n = suc n
tried (rejected code) n = suc n
tried (retryable code) n = suc n
tried device_disconnected n = n

abbrev pub is_disconnected : SendResult → Bool
is_disconnected device_disconnected = true
is_disconnected (handed_over id dry) = false
is_disconnected (rejected code) = false
is_disconnected (retryable code) = false

-- where the row itself still waits, its count is that after the answer
abbrev pub Counted : OutboxRow → SendResult → OutboxRow → Type 0
Counted row r o =
    o.id ≡ row.id → same_status o.status antre ≡ true → o.attempts ≡ tried r row.attempts

-- the row itself waits no more
abbrev pub Finished : OutboxRow → OutboxRow → Type 0
Finished row o = o.id ≡ row.id → same_status o.status antre ≡ false

module _ (now : ℕ) (row : OutboxRow) (db : Kirim) (h : All (Current row) db.outbox) where
  -- a change that takes the row itself out of the queue
  Counted-transition_outbox :
      (r : SendResult) (c : Change)
      → c.outbox_id ≡ row.id
      → c.from_statuses ≡ antre ∷ []
      → same_status c.status antre ≡ false
      → All (Counted row r) (transition_outbox now c db).0.outbox
  Counted-transition_outbox r c same from gone =
      All-transition_outbox_of (Current row) (Counted row r) now c db
        (λ o m k i w. absurd (clash gone w)) (λ o m k i w. absurd (missed o m i w)) h
    where
      clash : {b : Bool} → b ≡ false → b ≡ true → ⊥
      clash p q = cc

      missed :
          (o : OutboxRow)
          → (str_eq o.id c.outbox_id && any (same_status o.status) c.from_statuses) ≡ false
          → o.id ≡ row.id
          → same_status o.status antre ≡ true
          → ⊥
      missed o m i w = clash m (rw (same, from, w) (ground (arith, (eq_iff o.id row.id).1 i)))

  Counted-pause_device :
      (device : DeviceRow)
      → All (Counted row device_disconnected) (pause_device now device row db).outbox
  unfolding pause_device
  Counted-pause_device device =
      subst (λ os. All (Counted row device_disconnected) os)
        (sym (outbox-set_device_status now device.id terputus paused))
        (All-update_where_of (Current row) (Counted row device_disconnected)
          (λ o. str_eq o.id row.id && is_antre o) (λ o m k i w. k i)
          (λ o. record o { next_attempt_at = now; updated_at = now }) (λ o m k i w. k i) db.outbox
          h)
    where
      paused : Kirim
      paused = record db {
        outbox =
            update_where (λ o. str_eq o.id row.id && is_antre o)
              (λ o. record o { next_attempt_at = now; updated_at = now }) db.outbox;
      }

  Counted-schedule_retry :
      (code : ErrorCode) (delay : ℕ)
      → All (Counted row (retryable code)) (schedule_retry now row code delay db).outbox
  unfolding schedule_retry
  Counted-schedule_retry code delay =
      All-update_where_of (Current row) (Counted row (retryable code))
        (λ o. str_eq o.id row.id && is_antre o) (λ o m k i w. absurd (missed o m i w))
        (λ o. record o {
          attempts = suc o.attempts;
          error_code = some code;
          next_attempt_at = now + delay;
          updated_at = now;
        })
        (λ o m k i w. ap suc (k i)) db.outbox h
    where
      missed :
          (o : OutboxRow)
          → (str_eq o.id row.id && is_antre o) ≡ false
          → o.id ≡ row.id
          → same_status o.status antre ≡ true
          → ⊥
      missed o m i w = ground (arith, m, i, w, eq_iff o.id row.id)

  pub Counted-apply_result :
      (device : DeviceRow) (name : ProviderName) (r : SendResult)
      → All (Counted row r) (apply_result now device name row r db).outbox
  unfolding apply_result fail
  Counted-apply_result device name (handed_over id dry) =
      Counted-transition_outbox (handed_over id dry) (handed_over_change row name id dry) refl refl
        refl
  Counted-apply_result device name device_disconnected = Counted-pause_device device
  Counted-apply_result device name (rejected code) =
      Counted-transition_outbox (rejected code) (failed_change row code) refl refl refl
  Counted-apply_result device name (retryable code) =
      elim (Option-cases (next_delay (suc row.attempts))) [
        | inl e ↦
            rw (e, apply_result)
              (Counted-transition_outbox (retryable code) (failed_change row code) refl refl refl)
        | inr (delay, e) ↦ rw (e, apply_result) (Counted-schedule_retry code delay)
      ]
