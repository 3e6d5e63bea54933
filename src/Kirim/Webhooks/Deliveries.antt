-- ===== src/Kirim/Webhooks/Deliveries.antt =====
-- The life of a delivery.
use sq_hub.Common.{
  ℕ, suc, ◌+◌, ◌-◌, ◌≤◌, ◌<◌, none, some, List, [], ◌∷◌, Bool, true, false, ◌||◌, ◌≡◌, refl, ap,
  inl, inr, any, take, length, Bool-cases, Option-cases, if◌then◌else◌, arith,
}
use sq_hub.Kirim.Policy.{webhook_retry_delay_ms}
use sq_hub.Kirim.Webhooks.{
  DeliveryStatus, retry, berhasil, habis, DeliveryRow, waits, Answer, is_success, delivered_row,
}

-- the answers to a delivery in turn, as long as it waits
abbrev pub settle : List Answer → DeliveryRow → DeliveryRow
settle [] r = r
settle (a ∷ as') r =
    let served : DeliveryRow = settle as' (delivered_row (suc r.attempts) a r) in
    if waits r.status then served else r

abbrev pub is_berhasil : DeliveryStatus → Bool
is_berhasil berhasil = true
is_berhasil _ = false

settle-final : (as' : List Answer) (r : DeliveryRow) → waits r.status ≡ false → settle as' r ≡ r
settle-final [] r h = refl
settle-final (a ∷ as') r h = rw h refl

last_delay : (n : ℕ) → n < 8 → (webhook_retry_delay_ms (suc n) ≡ none) → n ≡ 7
unfolding webhook_retry_delay_ms
last_delay n h e = ground (arith, h, e)

more_delay : (n d : ℕ) → webhook_retry_delay_ms (suc n) ≡ some d → suc n < 8
unfolding webhook_retry_delay_ms
more_delay n d e = ground (arith, e)

abbrev pub successes : ℕ → List Answer → Bool
successes n as' = any (λ a. is_success a.code) (take n as')

successes-step :
    (n : ℕ) (a : Answer) (as' : List Answer)
    → n < 8
    → successes (8 - n) (a ∷ as') ≡ (is_success a.code || successes (8 - suc n) as')
successes-step n a as' h = ap (λ k. successes k (a ∷ as')) left
  where
    left : 8 - n ≡ suc (8 - suc n)
    left = omega (arith, h)

-- after the first answer
Settled : ℕ → Answer → List Answer → DeliveryRow → Type 0
Settled n a as' z =
    (waits z.status ≡ false)
    × (is_berhasil z.status ≡ (is_success a.code || successes (8 - suc n) as'))
    × (z.attempts ≤ 8)

settled :
    (a : Answer) (as' : List Answer) (r : DeliveryRow)
    → r.attempts < 8
    → ((z : DeliveryRow)
        → waits z.status ≡ true
        → z.attempts ≡ suc r.attempts
        → z.attempts < 8
        → (waits (settle as' z).status ≡ false)
          × (is_berhasil (settle as' z).status ≡ successes (8 - z.attempts) as')
          × ((settle as' z).attempts ≤ 8))
    → Settled r.attempts a as' (settle as' (delivered_row (suc r.attempts) a r))
unfolding Settled delivered_row
settled a as' r h later = elim (Bool-cases (is_success a.code)) [
  | inl s ↦
      rw
        (
          s,
          settle-final as'
              (record r {
                status = berhasil;
                attempts = suc r.attempts;
                last_status_code = a.code;
                delivered_at = some a.at;
              })
              refl,
        )
        (refl, refl, omega (arith, h))
  | inr s ↦ elim (Option-cases (webhook_retry_delay_ms (suc r.attempts))) [
    | inl d ↦
        let seven = last_delay r.attempts h d in
        rw
          (
            s,
            d,
            settle-final as'
                (record r { status = habis; attempts = suc r.attempts; last_status_code = a.code })
                refl,
            seven,
          )
          (refl, refl, omega arith)
    | inr (ms, d) ↦
        rw (s, d)
          (later
            (record r {
              status = retry;
              attempts = suc r.attempts;
              last_status_code = a.code;
              next_attempt_at = a.at + ms;
            })
            refl refl (more_delay r.attempts ms d))
  ]
]

-- A delivery that waits with fewer than eight attempts waits no more when it has been served as often as attempts
-- are left: it has succeeded exactly if one of those answers is a success, and has made eight attempts at most.
pub settle_lem :
    (as' : List Answer) (r : DeliveryRow)
    → waits r.status ≡ true
    → r.attempts < 8
    → 8 ≤ r.attempts + length as'
    → (waits (settle as' r).status ≡ false)
      × (is_berhasil (settle as' r).status ≡ successes (8 - r.attempts) as')
      × ((settle as' r).attempts ≤ 8)
unfolding Settled
settle_lem [] r w h enough = absurd (omega (arith, h, enough))
settle_lem (a ∷ as') r w h enough =
    rw (w, successes-step r.attempts a as' h)
      (settled a as' r h
        (λ z again count less. settle_lem as' z again less (omega (arith, enough, count))))
