-- ===== src/Kirim/Webhooks/Rounds.antt =====
-- What one round does to each delivery.
use sq_hub.Common.{
  ℕ, suc, Option, none, some, List, [], ◌∷◌, Bool, true, false, ◌≡◌, refl, inl, inr, All, Apart,
  Result, ok, err, Result-cases,
}
use sq_hub.Kirim.Webhooks.{CryptoError, DeliveryRow, Answer, delivered_row}
use sq_hub.Kirim.Webhooks.Batches.{same_delivery}

-- the claimed rows up to the first whose delivery throws
abbrev pub reached : (DeliveryRow → Result CryptoError Answer) → List DeliveryRow → List DeliveryRow
reached answer [] = []
reached answer (c ∷ cs) =
    let rest = reached answer cs in elim (answer c) [ err e ↦ [] | ok a ↦ c ∷ rest ]

-- the row after the delivery of this claimed row
abbrev pub served : Result CryptoError Answer → ℕ → DeliveryRow → DeliveryRow
served (err e) attempts r = r
served (ok a) attempts r = delivered_row attempts a r

-- the row that the loop over these claimed rows leaves
abbrev served_by :
    (DeliveryRow → Result CryptoError Answer) → Option DeliveryRow → DeliveryRow → DeliveryRow
served_by answer none r = r
served_by answer (some c) r = served (answer c) (suc c.attempts) r

abbrev pub is_ok : {A : Type 0} → Result CryptoError A → Bool
is_ok (ok a) = true
is_ok (err e) = false

module _ (answer : DeliveryRow → Result CryptoError Answer) (c : DeliveryRow)
    (cs : List DeliveryRow) where
  reached-ok : {a : Answer} → answer c ≡ ok a → reached answer (c ∷ cs) ≡ c ∷ reached answer cs
  reached-ok e = rw (e, reached) refl

  reached-err : {x : CryptoError} → answer c ≡ err x → reached answer (c ∷ cs) ≡ []
  reached-err e = rw (e, reached) refl

All-reached :
    (P : DeliveryRow → Type 0) (answer : DeliveryRow → Result CryptoError Answer)
    (cs : List DeliveryRow)
    → All P cs
    → All P (reached answer cs)
All-reached P answer [] h = tt
All-reached P answer (c ∷ cs) (h, hs) = elim (Result-cases (answer c)) [
  | inl (a, e) ↦ rw (reached-ok answer c cs e) (h, All-reached P answer cs hs)
  | inr (x, e) ↦ rw (reached-err answer c cs e) tt
]

Apart-reached :
    (answer : DeliveryRow → Result CryptoError Answer) (cs : List DeliveryRow)
    → Apart same_delivery cs
    → Apart same_delivery (reached answer cs)
Apart-reached answer [] a = tt
Apart-reached answer (c ∷ cs) (a, rest) = elim (Result-cases (answer c)) [
  | inl (b, e) ↦
      rw (reached-ok answer c cs e)
        (All-reached (λ y. same_delivery c y ≡ false) answer cs a, Apart-reached answer cs rest)
  | inr (x, e) ↦ rw (reached-err answer c cs e) tt
]
