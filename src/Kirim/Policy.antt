-- ===== src/Kirim/Policy.antt =====
-- apps/api/src/modules/kirim/policy.ts: the pure rules of sending. A Date is its number of milliseconds since
-- 1970-01-01 00:00 UTC; a time from that first day on is meant where a local time is taken back to UTC. What
-- `random` returns is a fraction n / d.
pub mod Window
pub mod Retries
pub mod Status
mod Tests
use sq_hub.Common.{
  ℕ, zero, suc, ◌+◌, ◌-◌, ◌*◌, ◌/◌, ◌^◌, max, min, String, Option, none, some, List, [], ◌∷◌, Bool,
  true, false, not, ◌&&◌, ◌||◌, ltb, leb, ◌==◌, if◌then◌else◌,
}
use sq_hub.Common.Text.{codes, is_digit, digit_value}

abbrev pub wib_offset_ms : ℕ
wib_offset_ms = 7 * 60 * 60 * 1000

abbrev pub day_ms : ℕ
day_ms = 24 * 60 * 60 * 1000

-- two digits as a number
two : ℕ → ℕ → Option ℕ
two a b = if is_digit a && is_digit b then some (digit_value a * 10 + digit_value b) else none

clock_ms : Option ℕ → Option ℕ → Option ℕ → Option ℕ
clock_ms (some h) (some m) (some s) = some (((h * 60 + m) * 60 + s) * 1000)
clock_ms _ _ _ = none

-- `/^(\d{2}):(\d{2})(?::(\d{2}))?$/`; none where the source throws
parse_time : List ℕ → Option ℕ
unfolding two clock_ms
parse_time (h ∷ i ∷ c ∷ m ∷ n ∷ []) =
    if c == b':' then clock_ms (two h i) (two m n) (some 0) else none
parse_time (h ∷ i ∷ c ∷ m ∷ n ∷ d ∷ s ∷ t ∷ []) =
    if c == b':' && d == b':' then clock_ms (two h i) (two m n) (two s t) else none
parse_time _ = none

unfoldable pub time_of_day_ms : String → Option ℕ
unfolding parse_time
time_of_day_ms value = parse_time (codes value)

pub data SendWindow : Type 0 where
  open_now : SendWindow
  closed : (next_open_at : ℕ) → SendWindow

-- milliseconds since midnight WIB, and that midnight, on the local scale
abbrev pub local_ms : ℕ → ℕ
local_ms now = now + wib_offset_ms

abbrev pub day_start : ℕ → ℕ
day_start now = local_ms now / day_ms * day_ms

abbrev pub offset_ms : ℕ → ℕ
offset_ms now = local_ms now - day_start now

-- `sendWindow` after its two calls of timeOfDayMs
unfoldable pub window_at : ℕ → ℕ → ℕ → SendWindow
window_at now start_ms end_ms =
    if leb start_ms (offset_ms now) && ltb (offset_ms now) end_ms
    then open_now
    else closed (
        (if ltb (offset_ms now) start_ms
          then day_start now + start_ms
          else day_start now + day_ms + start_ms)
        - wib_offset_ms)

infixl 5 ◌>>=◌
abbrev ◌>>=◌ : {A B : Type 0} → Option A → (A → Option B) → Option B
none >>= f = none
some a >>= f = f a

unfoldable pub send_window : ℕ → String → String → Option SendWindow
unfolding window_at time_of_day_ms
send_window now start end = do
  start_ms ← time_of_day_ms start
  end_ms ← time_of_day_ms end
  some (window_at now start_ms end_ms)

pub data Jenis : Type 0 where
  notifikasi kode percakapan : Jenis

pub data WindowDecision : Type 0 where
  send : WindowDecision
  wait : (until : ℕ) → WindowDecision
  expire : WindowDecision

pub record DecisionInput : Type 0 where
  pub now : ℕ
  pub jenis : Jenis
  pub start : String
  pub end : String
  pub expires_at : ℕ
  pub replying : Bool

abbrev pub is_notifikasi : Jenis → Bool
is_notifikasi notifikasi = true
is_notifikasi _ = false

-- the last part of `windowDecision`, on the window
unfoldable pub decide_window : ℕ → SendWindow → WindowDecision
decide_window expires_at open_now = send
decide_window expires_at (closed next) = if leb expires_at next then expire else wait next

-- none where the source throws, on a start or end that is no time
unfoldable pub window_decision : DecisionInput → Option WindowDecision
unfolding decide_window
window_decision i =
    if leb i.expires_at i.now
    then some expire
    else if not (is_notifikasi i.jenis) || i.replying
    then some send
    else do window ← send_window i.now i.start i.end; some (decide_window i.expires_at window)

-- RETRY_DELAYS_MINUTES = [1, 5, 30]
abbrev pub max_send_attempts : ℕ
max_send_attempts = 4

-- `RETRY_DELAYS_MINUTES[attempts - 1]`; no attempt reads index -1, which is undefined
unfoldable pub retry_delay_ms : ℕ → Option ℕ
retry_delay_ms (suc zero) = some (1 * 60000)
retry_delay_ms (suc (suc zero)) = some (5 * 60000)
retry_delay_ms (suc (suc (suc zero))) = some (30 * 60000)
retry_delay_ms _ = none

unfoldable pub rate_allows : ℕ → ℕ → Bool
rate_allows sent_in_last_minute rate_per_minute = ltb sent_in_last_minute rate_per_minute

-- what `random()` gives: top / bottom, or that below zero; NaN and the infinite numbers are left out
pub record Fraction : Type 0 where
  pub is_negative : Bool
  pub top : ℕ
  pub bottom : ℕ

-- `Math.max(value, 0)`
abbrev pub at_least_zero : Fraction → Fraction
at_least_zero r =
    if r.is_negative then record { is_negative = false; top = 0; bottom = r.bottom } else r

-- `Math.min(value, 0.999999)`
abbrev pub below_one : Fraction → Fraction
below_one r =
    if r.is_negative || leb (r.top * 1000000) (r.bottom * 999999)
    then r
    else record { is_negative = false; top = 999999; bottom = 1000000 }

-- `2_000 + Math.floor(value * 4_001)`, exact; below zero the floor is rounded away from it
abbrev pub gap_of : Fraction → ℕ
gap_of r =
    if r.is_negative
    then 2000 - (r.top * 4001 + r.bottom - 1) / r.bottom
    else 2000 + r.top * 4001 / r.bottom

unfoldable pub send_gap_ms : Fraction → ℕ
send_gap_ms r = gap_of (below_one (at_least_zero r))

pub data OutboundStatus : Type 0 where
  antre diserahkan terkirim dibaca gagal dibatalkan : OutboundStatus

-- what the engine reports
pub data Receipt : Type 0 where
  terkirim dibaca : Receipt

abbrev pub status_of : Receipt → OutboundStatus
status_of terkirim = terkirim
status_of dibaca = dibaca

-- RANK; none where the source reads undefined
abbrev pub rank : OutboundStatus → Option ℕ
rank antre = some 0
rank diserahkan = some 1
rank terkirim = some 2
rank dibaca = some 3
rank gagal = none
rank dibatalkan = none

abbrev pub receipt_rank : Receipt → ℕ
receipt_rank terkirim = 2
receipt_rank dibaca = 3

unfoldable pub advance_status : OutboundStatus → Receipt → Option OutboundStatus
advance_status current incoming = do
  from ← rank current
  if ltb from 1
      then none
      else if ltb from (receipt_rank incoming)
      then some (status_of incoming)
      else none

abbrev pub max_webhook_attempts : ℕ
max_webhook_attempts = 8

unfoldable pub webhook_retry_delay_ms : ℕ → Option ℕ
webhook_retry_delay_ms attempts =
    if leb max_webhook_attempts attempts
    then none
    else some (min (60 * 60000) (30000 * 2 ^ max 0 (attempts - 1)))

unfoldable pub wib_day_start : ℕ → ℕ
wib_day_start now = day_start now - wib_offset_ms
