-- ===== src/Kirim/Worker/Attempts.antt =====
-- How often a message is tried: `applyResult` of apps/api/src/modules/kirim/worker.ts.
use sq_hub.Common.{
  ℕ, suc, ◌+◌, ◌<◌, ◌≡◌, sym, subst, arith, some, Bool, true, ◌&&◌, All, All-update_where,
  Option-cases, update_where, str_eq, eq_iff, inl, inr, String, false, ◌≤◌, refl, ◌∙◌, List, [],
  ◌∷◌, Bool-cases,
}
use sq_hub.Kirim.Policy.{antre, max_send_attempts}
use sq_hub.Kirim.Outbox.{
  ErrorCode, ProviderName, OutboxRow, DeviceRow, Kirim, same_status, terputus, transition_outbox,
}
use sq_hub.Kirim.Outbox.Evolution.{All-transition_outbox, outbox-set_device_status}
use sq_hub.Kirim.Worker.{
  is_antre, SendResult, handed_over, rejected, retryable, device_disconnected, handed_over_change,
  failed_change, pause_device, schedule_retry, fail, next_delay, apply_result,
}
use sq_hub.Kirim.Worker.Counts.{
  Current, tried, is_disconnected, Counted, Finished, Counted-apply_result,
}

-- a row that waits has attempts left
abbrev pub AttemptsLeft : OutboxRow → Type 0
AttemptsLeft o = same_status o.status antre ≡ true → o.attempts < max_send_attempts

module _ (now : ℕ) (row : OutboxRow) (db : Kirim) (h : All AttemptsLeft db.outbox) where
  AttemptsLeft-fail : (code : ErrorCode) → All AttemptsLeft (fail now row code db).outbox
  unfolding fail
  AttemptsLeft-fail code =
      All-transition_outbox AttemptsLeft now (failed_change row code) db
        (λ o m k w. absurd (ground (arith, w))) h

  AttemptsLeft-handed_over :
      (name : ProviderName) (id : String) (dry : Bool)
      → All AttemptsLeft (transition_outbox now (handed_over_change row name id dry) db).0.outbox
  AttemptsLeft-handed_over name id dry =
      All-transition_outbox AttemptsLeft now (handed_over_change row name id dry) db
        (λ o m k w. absurd (ground (arith, w))) h

  AttemptsLeft-pause_device :
      (device : DeviceRow) → All AttemptsLeft (pause_device now device row db).outbox
  unfolding pause_device
  AttemptsLeft-pause_device device =
      subst (λ os. All AttemptsLeft os)
        (sym (outbox-set_device_status now device.id terputus paused))
        (All-update_where AttemptsLeft AttemptsLeft (λ o. str_eq o.id row.id && is_antre o)
          (λ o. record o { next_attempt_at = now; updated_at = now }) db.outbox (λ o m k _. k) h h)
    where
      paused : Kirim
      paused = record db {
        outbox =
            update_where (λ o. str_eq o.id row.id && is_antre o)
              (λ o. record o { next_attempt_at = now; updated_at = now }) db.outbox;
      }

  AttemptsLeft-schedule_retry :
      (code : ErrorCode) (delay : ℕ)
      → suc row.attempts < max_send_attempts
      → All (Current row) db.outbox
      → All AttemptsLeft (schedule_retry now row code delay db).outbox
  unfolding schedule_retry
  AttemptsLeft-schedule_retry code delay lt current =
      All-update_where AttemptsLeft (Current row) (λ o. str_eq o.id row.id && is_antre o)
        (λ o. record o {
          attempts = suc o.attempts;
          error_code = some code;
          next_attempt_at = now + delay;
          updated_at = now;
        })
        db.outbox (λ o m c _ _. still o m c) current h
    where
      still :
          (o : OutboxRow)
          → (str_eq o.id row.id && is_antre o) ≡ true
          → Current row o
          → suc o.attempts < max_send_attempts
      still o m c =
          let same : o.attempts ≡ row.attempts = c (ground (arith, m, eq_iff o.id row.id)) in
          omega (arith, same, lt)

attempts_left : (n : ℕ) (delay : ℕ) → next_delay n ≡ some delay → n < max_send_attempts
attempts_left n delay e = ground (arith, e)

AttemptsLeft-apply_result :
    (now : ℕ) (device : DeviceRow) (name : ProviderName) (row : OutboxRow) (r : SendResult)
    (db : Kirim)
    → All (Current row) db.outbox
    → All AttemptsLeft db.outbox
    → All AttemptsLeft (apply_result now device name row r db).outbox
unfolding apply_result
AttemptsLeft-apply_result now device name row (handed_over id dry) db c h =
    AttemptsLeft-handed_over now row db h name id dry
AttemptsLeft-apply_result now device name row device_disconnected db c h =
    AttemptsLeft-pause_device now row db h device
AttemptsLeft-apply_result now device name row (rejected code) db c h =
    AttemptsLeft-fail now row db h code
AttemptsLeft-apply_result now device name row (retryable code) db c h =
    elim (Option-cases (next_delay (suc row.attempts))) [
      | inl e ↦ rw (e, apply_result) (AttemptsLeft-fail now row db h code)
      | inr (delay, e) ↦
          rw (e, apply_result)
            (AttemptsLeft-schedule_retry now row db h code delay
              (attempts_left (suc row.attempts) delay e) c)
    ]

tried-connected : (s : SendResult) (n : ℕ) → is_disconnected s ≡ false → tried s n ≡ suc n
tried-connected (handed_over id dry) n e = refl
tried-connected (rejected code) n e = refl
tried-connected (retryable code) n e = refl
tried-connected device_disconnected n e = cc

ends_at_four :
    (row : OutboxRow) (r : SendResult)
    → is_disconnected r ≡ false
    → 3 ≤ row.attempts
    → (os : List OutboxRow) → All AttemptsLeft os
    → All (Counted row r) os
    → All (Finished row) os
ends_at_four row r d n [] h k = tt
ends_at_four row r d n (o ∷ os) (h, hs) (k, ks) = (done r d k, ends_at_four row r d n os hs ks)
  where
    over : same_status o.status antre ≡ true → o.attempts ≡ suc row.attempts → ⊥
    over w e = let lt = h w in omega (arith, lt, e, n)

    done : (s : SendResult) → is_disconnected s ≡ false → Counted row s o → Finished row o
    done s d k i = elim (Bool-cases (same_status o.status antre)) [
      | inl w ↦ absurd (over w (k i w ∙ tried-connected s row.attempts d))
      | inr w ↦ w
    ]

-- Whatever the provider answers about a claimed row whose count of attempts still stands: every row that waits
-- afterwards has made fewer than four attempts, if that was so before; where the row itself still waits, the answer
-- has cost it one attempt, or none if its number was disconnected; and after three attempts any other answer than
-- that of a disconnected number ends the waiting.
pub apply_result-AttemptsLeft :
    (now : ℕ) (device : DeviceRow) (name : ProviderName) (row : OutboxRow) (r : SendResult)
    (db : Kirim)
    → All (Current row) db.outbox
    → All AttemptsLeft db.outbox
    → All AttemptsLeft (apply_result now device name row r db).outbox
      × All (Counted row r) (apply_result now device name row r db).outbox
      × (is_disconnected r ≡ false
          → 3 ≤ row.attempts
          → All (Finished row) (apply_result now device name row r db).outbox)
apply_result-AttemptsLeft now device name row r db c h = (
  AttemptsLeft-apply_result now device name row r db c h,
  Counted-apply_result now row db c device name r,
  λ d n.
      ends_at_four row r d n (apply_result now device name row r db).outbox
        (AttemptsLeft-apply_result now device name row r db c h)
        (Counted-apply_result now row db c device name r),
)
