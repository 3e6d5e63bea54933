-- ===== src/Kirim/Policy/Retries.antt =====
-- Delays between attempts.
use sq_hub.Common.{
  ℕ, zero, suc, ◌*◌, ◌≤◌, ◌<◌, ◌≡◌, ◌↔◌, refl, arith, some, min, Bool-cases, inl, inr, leb, leb→le,
  max, ◌^◌, ◌-◌, ◌/◌, true, false,
}
use native.Mathlib.Nat.{div-lt_iff_lt-mul, pow-suc, zero-div}
use sq_hub.Kirim.Policy.{Fraction, below_one, gap_of, send_gap_ms, webhook_retry_delay_ms}

product_bound : (n d : ℕ) → 0 < d → n * 1000000 ≤ d * 999999 → n * 4001 < 4001 * d
product_bound n d h le = omega arith

fraction_bound : (n d : ℕ) → 0 < d → n * 1000000 ≤ d * 999999 → n * 4001 / d < 4001
fraction_bound n d h le = (div-lt_iff_lt-mul h).1 (product_bound n d h le)

non_negative_bounds :
    (n d : ℕ)
    → 0 < d
    → (2000 ≤ gap_of (below_one (record { is_negative = false; top = n; bottom = d })))
      × (gap_of (below_one (record { is_negative = false; top = n; bottom = d })) ≤ 6000)
non_negative_bounds n d h = elim (Bool-cases (leb (n * 1000000) (d * 999999))) [
  | inl e ↦ rw e (let f = fraction_bound n d h (leb→le _ _ e) in (omega arith, omega arith))
  | inr e ↦ rw e (omega arith)
]

zero_gap : (d : ℕ) → gap_of (below_one (record { is_negative = false; top = 0; bottom = d })) ≡ 2000
zero_gap d = let e : leb (0 * 1000000) (d * 999999) ≡ true = ground arith in rw (e, zero-div d) refl

-- The gap between two sends on one number lies between 2 and 6 seconds, whatever finite number the random source
-- gives, those below zero and above one included; where it is below zero the gap is 2 seconds.
pub send_gap_bounds :
    (r : Fraction)
    → 0 < r.bottom
    → (2000 ≤ send_gap_ms r)
      × (send_gap_ms r ≤ 6000)
      × (r.is_negative ≡ true → send_gap_ms r ≡ 2000)
unfolding send_gap_ms
send_gap_bounds r h = elim (Bool-cases r.is_negative) [
  | inl e ↦ rw e (
    (non_negative_bounds 0 r.bottom h).0,
    (non_negative_bounds 0 r.bottom h).1,
    λ _. zero_gap r.bottom,
  )
  | inr e ↦ rw e (
    (non_negative_bounds r.top r.bottom h).0,
    (non_negative_bounds r.top r.bottom h).1,
    λ k. absurd (no k),
  )
]
  where
    no : false ≡ true → ⊥
    no k = cc

-- Seven failed deliveries are retried, the eighth is the last: the delay is 30 seconds after the first
-- failure, doubles with each, and is capped at an hour.
pub webhook_retry_schedule :
    (a : ℕ)
    → (webhook_retry_delay_ms 1 ≡ some 30000)
      × ((a < 8) ↔ ((d : ℕ) × (webhook_retry_delay_ms a ≡ some d)))
      × ((d e : ℕ)
          → 0 < a
          → webhook_retry_delay_ms a ≡ some d
          → webhook_retry_delay_ms (suc a) ≡ some e
          → e ≡ min 3600000 (2 * d))
unfolding webhook_retry_delay_ms
webhook_retry_schedule zero =
    (refl, (λ h. (30000, refl), λ h. omega arith), λ d e pos h k. absurd (omega arith))
webhook_retry_schedule (suc b) = (
  refl,
  (λ h. (min (60 * 60000) (30000 * 2 ^ max 0 (suc b - 1)), ground arith), λ (d, h). ground arith),
  λ d e pos h k.
      let shift : suc b - 1 ≡ b = omega arith in
      let shift' : suc (suc b) - 1 ≡ suc b = omega arith in
      ground (arith, shift, shift', pow-suc 2 b),
)
