-- ===== src/Common/Order.antt =====
-- The order of texts in JavaScript, `a < b`: by their code units, which for the texts compared here (dates,
-- UUIDs, identifiers) are the code points.
use Prim.Native.Nat.{ℕ}
use Prim.Native.String.{String}
use mathlib.Core.Path.{◌≡◌, refl, sym, subst, ap₂}
use mathlib.Core.Bool.{Bool, true, false, not}
use mathlib.Core.Logic.{inl, inr}
use mathlib.Core.List.{List, [], ◌∷◌}
use native.Mathlib.Omega.{arith}
use sq_hub.Common.Tests.{ltb, ◌==◌, if◌then◌else◌, Bool-cases}
use sq_hub.Common.Text.{codes}

abbrev pub codes_lt : List ℕ → List ℕ → Bool
codes_lt [] [] = false
codes_lt [] (b ∷ bs) = true
codes_lt (a ∷ as') [] = false
codes_lt (a ∷ as') (b ∷ bs) = let rest = codes_lt as' bs in if a == b then rest else ltb a b

-- `a < b` and `a <= b` of texts
abbrev pub text_lt : String → String → Bool
text_lt a b = codes_lt (codes a) (codes b)

abbrev pub text_le : String → String → Bool
text_le a b = not (text_lt b a)

pub codes_lt_asym : (as' bs : List ℕ) → codes_lt as' bs ≡ true → codes_lt bs as' ≡ false
codes_lt_asym [] [] h = refl
codes_lt_asym [] (b ∷ bs) h = refl
codes_lt_asym (a ∷ as') [] h = cc
codes_lt_asym (a ∷ as') (b ∷ bs) h = ground (arith, h, codes_lt_asym as' bs)

pub codes_lt_trans :
    (as' bs cs : List ℕ) → codes_lt as' bs ≡ true → codes_lt bs cs ≡ true → codes_lt as' cs ≡ true
codes_lt_trans [] [] cs h k = cc
codes_lt_trans [] (b ∷ bs) [] h k = cc
codes_lt_trans [] (b ∷ bs) (c ∷ cs) h k = refl
codes_lt_trans (a ∷ as') [] cs h k = cc
codes_lt_trans (a ∷ as') (b ∷ bs) [] h k = cc
codes_lt_trans (a ∷ as') (b ∷ bs) (c ∷ cs) h k = ground (arith, h, k, codes_lt_trans as' bs cs)

pub codes_lt_tri : (as' bs : List ℕ) → codes_lt as' bs ≡ false → codes_lt bs as' ≡ false → as' ≡ bs
codes_lt_tri [] [] h k = refl
codes_lt_tri [] (b ∷ bs) h k = cc
codes_lt_tri (a ∷ as') [] h k = cc
codes_lt_tri (a ∷ as') (b ∷ bs) h k = elim (Bool-cases (a == b)) [
  | inl e ↦
      let same : a ≡ b = ground (arith, e) in
      ap₂ ◌∷◌ same (codes_lt_tri as' bs (ground (arith, h, e)) (ground (arith, k, e)))
  | inr e ↦ ground (arith, h, k, e)
]

pub codes_lt_irrefl : (as' : List ℕ) → codes_lt as' as' ≡ false
codes_lt_irrefl as' = elim (Bool-cases (codes_lt as' as')) [
  | inl e ↦ codes_lt_asym as' as' e
  | inr e ↦ e
]

-- At least as great as one that is at least as great.
pub codes_le_trans :
    (as' bs cs : List ℕ)
    → codes_lt bs as' ≡ false
    → codes_lt cs bs ≡ false
    → codes_lt cs as' ≡ false
codes_le_trans as' bs cs h k = elim (Bool-cases (codes_lt cs as')) [
  | inr e ↦ e
  | inl e ↦ elim (Bool-cases (codes_lt as' bs)) [
    | inl t ↦ absurd (both (codes_lt_trans cs as' bs e t) k)
    | inr t ↦ subst (λ xs. codes_lt cs xs ≡ false) (sym (codes_lt_tri as' bs t h)) k
  ]
]
  where
    both : codes_lt cs bs ≡ true → codes_lt cs bs ≡ false → ⊥
    both e t = cc
