-- ===== src/Common/Results.antt =====
-- Fallible code over a state: a failure discards the state, as a database transaction rolls back.
use mathlib.Core.Path.{◌≡◌, refl}
use mathlib.Core.Logic.{◌⊎◌, inl, inr}
use mathlib.Core.Bool.{Bool, true, false}

pub data Result {ℓ κ} (E : Type κ) (A : Type ℓ) : Type (ℓ ⊔ κ) where
  ok : A → Result E A
  err : E → Result E A

pub Result-cases {ℓ κ} :
    {E : Type κ} {A : Type ℓ} (r : Result E A) → ((a : A) × (r ≡ ok a)) ⊎ ((e : E) × (r ≡ err e))
Result-cases (ok a) = inl (a, refl)
Result-cases (err e) = inr (e, refl)

abbrev pub Tx : Type 0 → Type 0 → Type 0 → Type 0
Tx S E A = S → Result E (A × S)

module _ {S E : Type 0} where
  abbrev pub pure : {A : Type 0} → A → Tx S E A
  pure a s = ok (a, s)

  abbrev pub throw : {A : Type 0} → E → Tx S E A
  throw e s = err e

  infixl 5 ◌>>=◌ ◌>>◌
  abbrev pub ◌>>=◌ : {A B : Type 0} → Tx S E A → (A → Tx S E B) → Tx S E B
  ◌>>=◌ m f s = elim (m s) [ ok (a, s') ↦ f a s' | err e ↦ err e ]

  abbrev pub ◌>>◌ : {B : Type 0} → Tx S E (Unit {0}) → Tx S E B → Tx S E B
  m >> k = m >>= λ _. k

  -- `if (!b) throw e`
  abbrev pub guard : Bool → E → Tx S E (Unit {0})
  guard true e s = ok (tt, s)
  guard false e s = err e

  abbrev pub modify : (S → S) → Tx S E (Unit {0})
  modify f s = ok (tt, f s)

  abbrev pub gets : {A : Type 0} → (S → A) → Tx S E A
  gets f s = ok (f s, s)

  -- BEGIN, the task, COMMIT; on a throw ROLLBACK, and the error goes on to the caller
  abbrev pub transaction : {A : Type 0} → Tx S E A → S → S × Result E A
  transaction task s = elim (task s) [ ok (a, s') ↦ (s', ok a) | err e ↦ (s, err e) ]

  -- A property of the state holds after a transaction if it holds before it and after its success.
  pub transaction_lem :
      {A : Type 0} (P : S → Type 0) (task : Tx S E A) (s : S)
      → P s
      → ((a : A) (s' : S) → task s ≡ ok (a, s') → P s')
      → P (transaction task s).0
  transaction_lem P task s before after = elim (Result-cases (task s)) [
    | inl ((a, s'), e) ↦ rw (e, transaction) (after a s' e)
    | inr (x, e) ↦ rw (e, transaction) before
  ]
