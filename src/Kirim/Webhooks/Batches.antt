-- ===== src/Kirim/Webhooks/Batches.antt =====
-- The batch of rows that a round claims: apps/api/src/modules/kirim/webhooks.ts.
use sq_hub.Common.{
  ℕ, zero, suc, List, [], ◌∷◌, Bool, false, ◌≡◌, ◌∙◌, inl, inr, keep, take, All, All-keep, Apart,
  ltb, str_eq, eq_iff, Bool-cases, arith,
}
use sq_hub.Kirim.Webhooks.{DeliveryRow, batch, is_due, insert_due, sort_due, claimed_rows}

-- two rows of one id
abbrev pub same_delivery : DeliveryRow → DeliveryRow → Bool
same_delivery x y = str_eq x.id y.id

same_delivery_sym : (x y : DeliveryRow) → same_delivery x y ≡ same_delivery y x
same_delivery_sym x y = ground (arith, eq_iff x.id y.id, eq_iff y.id x.id)

module _ (P : DeliveryRow → Type 0) where
  All-insert_due :
      (r : DeliveryRow) (xs : List DeliveryRow) → P r → All P xs → All P (insert_due r xs)
  All-insert_due r [] h hs = (h, tt)
  All-insert_due r (x ∷ xs) h (k, ks) =
      elim (Bool-cases (ltb x.next_attempt_at r.next_attempt_at)) [
        | inl e ↦ rw e (k, All-insert_due r xs h ks)
        | inr e ↦ rw e (h, (k, ks))
      ]

  All-sort_due : (xs : List DeliveryRow) → All P xs → All P (sort_due xs)
  All-sort_due [] hs = tt
  All-sort_due (x ∷ xs) (h, hs) = All-insert_due x (sort_due xs) h (All-sort_due xs hs)

  All-take : (n : ℕ) (xs : List DeliveryRow) → All P xs → All P (take n xs)
  All-take zero xs hs = tt
  All-take (suc n) [] hs = tt
  All-take (suc n) (x ∷ xs) (h, hs) = (h, All-take n xs hs)

Apart-keep :
    (p : DeliveryRow → Bool) (xs : List DeliveryRow)
    → Apart same_delivery xs
    → Apart same_delivery (keep p xs)
Apart-keep p [] a = tt
Apart-keep p (x ∷ xs) (a, rest) = elim (Bool-cases (p x)) [
  | inl e ↦ rw e (All-keep (λ y. same_delivery x y ≡ false) p xs a, Apart-keep p xs rest)
  | inr e ↦ rw e (Apart-keep p xs rest)
]

Apart-insert_due :
    (r : DeliveryRow) (xs : List DeliveryRow)
    → All (λ y. same_delivery r y ≡ false) xs
    → Apart same_delivery xs
    → Apart same_delivery (insert_due r xs)
Apart-insert_due r [] h a = (tt, tt)
Apart-insert_due r (x ∷ xs) (h, hs) (a, rest) =
    elim (Bool-cases (ltb x.next_attempt_at r.next_attempt_at)) [
      | inl e ↦ rw e (
        All-insert_due (λ y. same_delivery x y ≡ false) r xs (same_delivery_sym x r ∙ h) a,
        Apart-insert_due r xs hs rest,
      )
      | inr e ↦ rw e ((h, hs), (a, rest))
    ]

Apart-sort_due :
    (xs : List DeliveryRow) → Apart same_delivery xs → Apart same_delivery (sort_due xs)
Apart-sort_due [] a = tt
Apart-sort_due (x ∷ xs) (a, rest) =
    Apart-insert_due x (sort_due xs) (All-sort_due (λ y. same_delivery x y ≡ false) xs a)
      (Apart-sort_due xs rest)

Apart-take :
    (n : ℕ) (xs : List DeliveryRow) → Apart same_delivery xs → Apart same_delivery (take n xs)
Apart-take zero xs a = tt
Apart-take (suc n) [] a = tt
Apart-take (suc n) (x ∷ xs) (a, rest) =
    (All-take (λ y. same_delivery x y ≡ false) n xs a, Apart-take n xs rest)

pub All-claimed_rows :
    (P : DeliveryRow → Type 0) (now : ℕ) (rows : List DeliveryRow)
    → All P rows
    → All P (claimed_rows now rows)
unfolding claimed_rows
All-claimed_rows P now rows h =
    All-take P batch (sort_due (keep (is_due now) rows))
      (All-sort_due P (keep (is_due now) rows) (All-keep P (is_due now) rows h))

pub Apart-claimed_rows :
    (now : ℕ) (rows : List DeliveryRow)
    → Apart same_delivery rows
    → Apart same_delivery (claimed_rows now rows)
unfolding claimed_rows
Apart-claimed_rows now rows a =
    Apart-take batch (sort_due (keep (is_due now) rows))
      (Apart-sort_due (keep (is_due now) rows) (Apart-keep (is_due now) rows a))
