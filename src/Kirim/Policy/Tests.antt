-- ===== src/Kirim/Policy/Tests.antt =====
-- The sending rules on concrete times, and the theorems applied to them.
use sq_hub.Common.{
  ℕ, ◌*◌, ◌≤◌, ◌<◌, ◌≡◌, ◌≢◌, ◌⊎◌, ◌↔◌, refl, arith, min, some, none, [], ◌∷◌, true, false,
}
use sq_hub.Kirim.Policy.{
  open_now, closed, offset_ms, send_window, time_of_day_ms, window_decision, DecisionInput,
  notifikasi, send, wait, expire, Fraction, send_gap_ms, webhook_retry_delay_ms, diserahkan,
  Receipt, rank,
}
use sq_hub.Kirim.Policy.Window.{
  send_window-earliest, window_decision-first_moment, window_decision-wait,
}
use sq_hub.Kirim.Policy.Retries.{send_gap_bounds, webhook_retry_schedule}
use sq_hub.Kirim.Policy.Status.{receive_all, highest, receive_all_lem}

abbrev hour : ℕ
hour = 3600000

-- 05:00 WIB of the first day
abbrev early : ℕ
early = 22 * hour

window_tests :
    (send_window early "07:00" "20:30:00" ≡ some (closed (24 * hour)))
    × (send_window (30 * hour) "07:00" "20:30:00" ≡ some open_now)
    × (send_window early "7:00" "20:30" ≡ none)
unfolding send_window time_of_day_ms
window_tests = (refl, refl, refl)

abbrev question : DecisionInput
question = record {
  now = early;
  jenis = notifikasi;
  start = "07:00";
  end = "20:00";
  expires_at = 100 * hour;
  replying = false;
}

seven : time_of_day_ms "07:00" ≡ some (7 * hour)
unfolding time_of_day_ms
seven = refl

eight : time_of_day_ms "20:00" ≡ some (20 * hour)
unfolding time_of_day_ms
eight = refl

waits : window_decision question ≡ some (wait (24 * hour))
unfolding window_decision send_window time_of_day_ms
waits = refl

send_window-earliest_example :
    ((send_window early "07:00" "20:00" ≡ some open_now)
      ↔ ((7 * hour ≤ offset_ms early) × (offset_ms early < 20 * hour)))
    × ((next : ℕ)
        → send_window early "07:00" "20:00" ≡ some (closed next)
        → (early < next)
          × (send_window next "07:00" "20:00" ≡ some open_now)
          × ((t : ℕ) → early ≤ t → t < next → send_window t "07:00" "20:00" ≢ some open_now))
send_window-earliest_example =
    send_window-earliest "07:00" "20:00" (7 * hour) (20 * hour) seven eight (omega arith)
      (omega arith) early

window_decision-wait_example :
    (early < 24 * hour) × (window_decision (record question { now = 24 * hour }) ≡ some send)
window_decision-wait_example =
    window_decision-wait question (7 * hour) (20 * hour) (24 * hour) seven eight (omega arith)
      (omega arith) waits

abbrev below : Fraction
below = record { is_negative = true; top = 1; bottom = 3 }

send_gap_bounds_example :
    (2000 ≤ send_gap_ms below)
    × (send_gap_ms below ≤ 6000)
    × (true ≡ true → send_gap_ms below ≡ 2000)
send_gap_bounds_example = send_gap_bounds below (omega arith)

webhook_retry_schedule_example :
    (webhook_retry_delay_ms 1 ≡ some 30000)
    × ((3 < 8) ↔ ((d : ℕ) × (webhook_retry_delay_ms 3 ≡ some d)))
    × ((d e : ℕ)
        → 0 < 3
        → webhook_retry_delay_ms 3 ≡ some d
        → webhook_retry_delay_ms 4 ≡ some e
        → e ≡ min 3600000 (2 * d))
webhook_retry_schedule_example = webhook_retry_schedule 3

receive_all_lem_example :
    ((k : ℕ)
      → rank diserahkan ≡ some k
      → 1 ≤ k
      → rank (receive_all diserahkan (Receipt.dibaca ∷ Receipt.terkirim ∷ []))
        ≡ some (highest k (Receipt.dibaca ∷ Receipt.terkirim ∷ [])))
    × ((rank diserahkan ≡ none) ⊎ (rank diserahkan ≡ some 0)
        → receive_all diserahkan (Receipt.dibaca ∷ Receipt.terkirim ∷ []) ≡ diserahkan)
receive_all_lem_example = receive_all_lem diserahkan (Receipt.dibaca ∷ Receipt.terkirim ∷ [])

window_decision-first_moment_example :
    (window_decision question ≡ some expire
      → (t : ℕ) → early ≤ t
      → window_decision (record question { now = t }) ≢ some send)
    × ((until : ℕ)
        → window_decision question ≡ some (wait until)
        → (t : ℕ) → early ≤ t
        → t < until
        → window_decision (record question { now = t }) ≢ some send)
window_decision-first_moment_example =
    window_decision-first_moment question (7 * hour) (20 * hour) seven eight (omega arith)
      (omega arith)
