-- ===== src/Common/Related.antt =====
-- Two lists related row by row: of equal length, or the second with more rows at its end.
use mathlib.Core.Path.{◌≡◌}
use mathlib.Core.Logic.{inl, inr}
use mathlib.Core.Bool.{Bool, true}
use mathlib.Core.List.{List, [], ◌∷◌, ◌++◌}
use sq_hub.Common.Tests.{Bool-cases}
use sq_hub.Common.Tables.{update_row, update_where}

module _ {A : Type 0} (R : A → A → Type 0) where
  abbrev pub Pointwise : List A → List A → Type 0
  Pointwise [] [] = Unit
  Pointwise [] (y ∷ ys) = ⊥
  Pointwise (x ∷ xs) [] = ⊥
  Pointwise (x ∷ xs) (y ∷ ys) = R x y × Pointwise xs ys

  pub Pointwise-refl : ((x : A) → R x x) → (xs : List A) → Pointwise xs xs
  Pointwise-refl r [] = tt
  Pointwise-refl r (x ∷ xs) = (r x, Pointwise-refl r xs)

  pub Pointwise-trans :
      ((x y z : A) → R x y → R y z → R x z)
      → (xs ys zs : List A) → Pointwise xs ys
      → Pointwise ys zs
      → Pointwise xs zs
  Pointwise-trans t [] [] [] h k = tt
  Pointwise-trans t [] [] (z ∷ zs) h k = k
  Pointwise-trans t [] (y ∷ ys) zs h k = absurd h
  Pointwise-trans t (x ∷ xs) [] zs h k = absurd h
  Pointwise-trans t (x ∷ xs) (y ∷ ys) [] h k = absurd k
  Pointwise-trans t (x ∷ xs) (y ∷ ys) (z ∷ zs) h k =
      (t x y z h.0 k.0, Pointwise-trans t xs ys zs h.1 k.1)

  pub Pointwise-update_where :
      (p : A → Bool) (f : A → A) (xs : List A)
      → ((x : A) → R x x)
      → ((x : A) → p x ≡ true → R x (f x))
      → Pointwise xs (update_where p f xs)
  Pointwise-update_where p f [] r h = tt
  Pointwise-update_where p f (x ∷ xs) r h = (step, Pointwise-update_where p f xs r h)
    where
      step : R x (update_row p f x)
      step = elim (Bool-cases (p x)) [ inl e ↦ rw e (h x e) | inr e ↦ rw e (r x) ]

  abbrev pub Extends : List A → List A → Type 0
  Extends [] ys = Unit
  Extends (x ∷ xs) [] = ⊥
  Extends (x ∷ xs) (y ∷ ys) = R x y × Extends xs ys

  pub Pointwise-Extends : (xs ys : List A) → Pointwise xs ys → Extends xs ys
  Pointwise-Extends [] ys h = tt
  Pointwise-Extends (x ∷ xs) [] h = absurd h
  Pointwise-Extends (x ∷ xs) (y ∷ ys) h = (h.0, Pointwise-Extends xs ys h.1)

  pub Extends-append : ((x : A) → R x x) → (xs ys : List A) → Extends xs (xs ++ ys)
  Extends-append r [] ys = tt
  Extends-append r (x ∷ xs) ys = (r x, Extends-append r xs ys)

  pub Extends-trans :
      ((x y z : A) → R x y → R y z → R x z)
      → (xs ys zs : List A) → Extends xs ys
      → Extends ys zs
      → Extends xs zs
  Extends-trans t [] ys zs h k = tt
  Extends-trans t (x ∷ xs) [] zs h k = absurd h
  Extends-trans t (x ∷ xs) (y ∷ ys) [] h k = absurd k
  Extends-trans t (x ∷ xs) (y ∷ ys) (z ∷ zs) h k =
      (t x y z h.0 k.0, Extends-trans t xs ys zs h.1 k.1)
