-- ===== src/Common/Found.antt =====
-- What an INSERT or an UPDATE leaves to be found.
use mathlib.Core.Path.{◌≡◌, refl, ◌∙◌}
use mathlib.Core.Bool.{Bool, true, false}
use mathlib.Core.Option.{none, some}
use mathlib.Core.Logic.{◌⊎◌, inl, inr}
use mathlib.Core.List.{List, [], ◌∷◌}
use sq_hub.Common.Tests.{Bool-cases}
use sq_hub.Common.Lists.{find?, keep, All}
use sq_hub.Common.Tables.{update_row, update_where, upsert, Some}

-- Some row satisfies P, and all rows satisfy what turns that into Q.
pub Some-map :
    {A : Type 0} (P Q H : A → Type 0) (xs : List A)
    → ((x : A) → H x → P x → Q x)
    → All H xs
    → Some P xs
    → Some Q xs
Some-map P Q H [] f hs h = h
Some-map P Q H (x ∷ xs) f (k, hs) (inl h) = inl (f x k h)
Some-map P Q H (x ∷ xs) f (k, hs) (inr h) = inr (Some-map P Q H xs f hs h)

pub Some-of_keep :
    {A : Type 0} (P : A → Type 0) (p : A → Bool) (xs : List A) → Some P (keep p xs) → Some P xs
Some-of_keep P p [] h = h
Some-of_keep P p (x ∷ xs) h = elim (Bool-cases (p x)) [
  | inl e ↦ first (λ k. Some-of_keep P p xs k) (rw e at h)
  | inr e ↦ inr (Some-of_keep P p xs (rw e at h))
]
  where
    first : (Some P (keep p xs) → Some P xs) → P x ⊎ Some P (keep p xs) → Some P (x ∷ xs)
    first later (inl k) = inl k
    first later (inr k) = inr (later k)

-- An upsert leaves a row with the property: the new one, or the one that it changed.
pub Some-upsert :
    {A : Type 0} (P : A → Type 0) (p : A → Bool) (new : A) (f : A → A) (xs : List A)
    → P new
    → ((x : A) → p x ≡ true → P (f x))
    → Some P (upsert p new f xs)
Some-upsert P p new f [] made moved = inl made
Some-upsert P p new f (x ∷ xs) made moved = elim (Bool-cases (p x)) [
  | inl e ↦ rw e (inl (moved x e))
  | inr e ↦ rw e (inr (Some-upsert P p new f xs made moved))
]

-- The row that an upsert leaves under its own selection.
pub find?-upsert :
    {A : Type 0} (p : A → Bool) (new : A) (f : A → A) (xs : List A)
    → p new ≡ true
    → ((x : A) → p x ≡ true → p (f x) ≡ true)
    → find? p (upsert p new f xs) ≡ some (elim (find? p xs) [ none ↦ new | some x ↦ f x ])
find?-upsert p new f [] made moved = rw made
find?-upsert p new f (x ∷ xs) made moved = elim (Bool-cases (p x)) [
  | inl e ↦ rw e (rw (moved x e))
  | inr e ↦ rw e (rw e (find?-upsert p new f xs made moved))
]

-- An UPDATE that leaves no row passing q.
pub All-failed_update_where :
    {A : Type 0} (p q : A → Bool) (f : A → A) (xs : List A)
    → ((x : A) → p x ≡ true → q (f x) ≡ false)
    → ((x : A) → p x ≡ false → q x ≡ false)
    → All (λ x. q x ≡ false) (update_where p f xs)
All-failed_update_where p q f [] hit miss = tt
All-failed_update_where p q f (x ∷ xs) hit miss = elim (Bool-cases (p x)) [
  | inl e ↦ (rw e (hit x e), All-failed_update_where p q f xs hit miss)
  | inr e ↦ (rw e (miss x e), All-failed_update_where p q f xs hit miss)
]

-- An UPDATE that selects a row found leaves what it makes of that row.
pub Some-hit_update_where :
    {A : Type 0} (P : A → Type 0) (q p : A → Bool) (f : A → A) (xs : List A) {a : A}
    → find? q xs ≡ some a
    → p a ≡ true
    → P (f a)
    → Some P (update_where p f xs)
Some-hit_update_where P q p f [] h t k = absurd (cc)
Some-hit_update_where P q p f (x ∷ xs) {a} h t k = elim (Bool-cases (q x)) [
  | inl e ↦ inl (rw (same (rw e at h)) (rw t k))
  | inr e ↦ inr (Some-hit_update_where P q p f xs (rw e at h) t k)
]
  where
    same : some x ≡ some a → x ≡ a
    same e = cc

-- An upsert changes nothing for a selection that its rows do not pass.
pub find?-upsert-other :
    {A : Type 0} (p q : A → Bool) (new : A) (f : A → A) (xs : List A)
    → q new ≡ false
    → ((x : A) → p x ≡ true → (q x ≡ false) × (q (f x) ≡ false))
    → find? q (upsert p new f xs) ≡ find? q xs
find?-upsert-other p q new f [] made apart = rw made refl
find?-upsert-other p q new f (x ∷ xs) made apart = elim (Bool-cases (p x)) [
  | inl e ↦ let (before, after) = apart x e in rw (e, after) (rw before refl)
  | inr e ↦ elim (Bool-cases (q x)) [
    | inl g ↦ rw (e, g) refl
    | inr g ↦ rw (e, g) (find?-upsert-other p q new f xs made apart)
  ]
]

-- An UPDATE that changes no row's place in a selection changes the row that the selection finds.
pub find?-update_where :
    {A : Type 0} (q p : A → Bool) (f : A → A) (xs : List A)
    → ((x : A) → q (f x) ≡ q x)
    → find? q (update_where p f xs)
      ≡ elim (find? q xs) [ none ↦ none | some x ↦ some (update_row p f x) ]
find?-update_where q p f [] same = refl
find?-update_where q p f (x ∷ xs) same = elim (Bool-cases (q x)) [
  | inl e ↦ elim (Bool-cases (p x)) [
    | inl t ↦ rw (e, t, same x ∙ e) refl
    | inr t ↦ rw (e, t) (rw e refl)
  ]
  | inr e ↦ elim (Bool-cases (p x)) [
    | inl t ↦ rw (e, t, same x ∙ e) (find?-update_where q p f xs same)
    | inr t ↦ rw (e, t) (rw e (find?-update_where q p f xs same))
  ]
]
