-- ===== src/Common/Tables.antt =====
-- Database tables as lists of rows: UPDATE, upsert, and the unique indexes that they keep.
use mathlib.Core.Path.{◌≡◌, ◌∙◌}
use mathlib.Core.Bool.{Bool, true, false}
use mathlib.Core.Option.{some}
use mathlib.Core.Logic.{◌⊎◌, inl, inr}
use mathlib.Core.List.{List, [], ◌∷◌, ◌++◌}
use sq_hub.Common.Tests.{if◌then◌else◌, Bool-cases}
use sq_hub.Common.Lists.{find?, All}

module _ {A : Type 0} where
  -- one row of `UPDATE … SET f WHERE p`
  abbrev pub update_row : (A → Bool) → (A → A) → A → A
  update_row p f x = if p x then f x else x

  -- `UPDATE … SET f WHERE p`
  abbrev pub update_where : (A → Bool) → (A → A) → List A → List A
  update_where p f [] = []
  update_where p f (x ∷ xs) = update_row p f x ∷ update_where p f xs

  -- `INSERT … ON CONFLICT … DO UPDATE`: the first row that p selects becomes f of it; with no such
  -- row the new one is added.
  abbrev pub upsert : (A → Bool) → A → (A → A) → List A → List A
  upsert p new f [] = new ∷ []
  upsert p new f (x ∷ xs) = let rest = upsert p new f xs in if p x then f x ∷ xs else x ∷ rest

module _ {A : Type 0} (P : A → Type 0) where
  -- some row satisfies P
  abbrev pub Some : List A → Type 0
  Some [] = ⊥
  Some (x ∷ xs) = P x ⊎ Some xs

  pub Some-append : (xs ys : List A) → Some xs → Some (xs ++ ys)
  Some-append (x ∷ xs) ys (inl h) = inl h
  Some-append (x ∷ xs) ys (inr h) = inr (Some-append xs ys h)
  Some-append [] ys h = absurd h

  -- Rows that keep their own property, and rows that the update leaves alone.
  pub Some-update_where :
      (Q : A → Type 0) (p : A → Bool) (f : A → A) (xs : List A)
      → ((x : A) → p x ≡ true → Q x → P x → P (f x))
      → All Q xs
      → Some xs
      → Some (update_where p f xs)
  Some-update_where Q p f [] step qs h = absurd h
  Some-update_where Q p f (x ∷ xs) step (q, qs) (inl h) = elim (Bool-cases (p x)) [
    | inl e ↦ inl (rw e (step x e q h))
    | inr e ↦ inl (rw e h)
  ]
  Some-update_where Q p f (x ∷ xs) step (q, qs) (inr h) = inr (Some-update_where Q p f xs step qs h)

  -- What holds of some row after an UPDATE held of some row before it, or follows from the update.
  pub Some-of_update_where :
      (p : A → Bool) (f : A → A) (xs : List A)
      → ((x : A) → p x ≡ true → P (f x) → P x)
      → Some (update_where p f xs)
      → Some xs
  Some-of_update_where p f [] back h = absurd h
  Some-of_update_where p f (x ∷ xs) back (inl h) = elim (Bool-cases (p x)) [
    | inl e ↦ inl (back x e (rw e at h))
    | inr e ↦ inl (rw e at h)
  ]
  Some-of_update_where p f (x ∷ xs) back (inr h) = inr (Some-of_update_where p f xs back h)

  pub Some-of_upsert :
      (Q : Type 0) (p : A → Bool) (new : A) (f : A → A) (xs : List A)
      → (P new → Q)
      → ((x : A) → p x ≡ true → P (f x) → Q)
      → Some (upsert p new f xs)
      → Some xs ⊎ Q
  Some-of_upsert Q p new f [] made moved (inl h) = inr (made h)
  Some-of_upsert Q p new f [] made moved (inr h) = absurd h
  Some-of_upsert Q p new f (x ∷ xs) made moved h = elim (Bool-cases (p x)) [
    | inl e ↦ hit e (rw e at h)
    | inr e ↦ miss (λ k. Some-of_upsert Q p new f xs made moved k) (rw e at h)
  ]
    where
      hit : p x ≡ true → P (f x) ⊎ Some xs → Some (x ∷ xs) ⊎ Q
      hit e (inl k) = inr (moved x e k)
      hit e (inr k) = inl (inr k)

      miss :
          (Some (upsert p new f xs) → Some xs ⊎ Q)
          → P x ⊎ Some (upsert p new f xs)
          → Some (x ∷ xs) ⊎ Q
      miss later (inl k) = inl (inl k)
      miss later (inr k) = elim (later k) [ inl t ↦ inl (inr t) | inr q ↦ inr q ]

  pub All-update_where :
      (H : A → Type 0) (p : A → Bool) (f : A → A) (xs : List A)
      → ((x : A) → p x ≡ true → H x → P x → P (f x))
      → All H xs
      → All P xs
      → All P (update_where p f xs)
  All-update_where H p f [] step hs ps = ps
  All-update_where H p f (x ∷ xs) step (h, hs) (q, ps) = elim (Bool-cases (p x)) [
    | inl e ↦ (rw e (step x e h q), All-update_where H p f xs step hs ps)
    | inr e ↦ (rw e q, All-update_where H p f xs step hs ps)
  ]

  pub All-upsert :
      (p : A → Bool) (new : A) (f : A → A) (xs : List A)
      → P new
      → ((x : A) → p x ≡ true → P x → P (f x))
      → All P xs
      → All P (upsert p new f xs)
  All-upsert p new f [] hn step h = (hn, tt)
  All-upsert p new f (x ∷ xs) hn step (hx, hs) = elim (Bool-cases (p x)) [
    | inl e ↦ rw e (step x e hx, hs)
    | inr e ↦ rw e (hx, All-upsert p new f xs hn step hs)
  ]

-- A unique index: `same x y` says that the two rows collide in it.
module _ {A : Type 0} (same : A → A → Bool) where
  abbrev pub Apart : List A → Type 0
  Apart [] = Unit
  Apart (x ∷ xs) = All (λ y. same x y ≡ false) xs × Apart xs

  pub Apart-append :
      (xs : List A) (new : A) → All (λ y. same y new ≡ false) xs → Apart xs → Apart (xs ++ new ∷ [])
  Apart-append [] new h a = (tt, tt)
  Apart-append (x ∷ xs) new (h, hs) (a, rest) = (snoc xs a, Apart-append xs new hs rest)
    where
      snoc :
          (ys : List A)
          → All (λ y. same x y ≡ false) ys
          → All (λ y. same x y ≡ false) (ys ++ new ∷ [])
      snoc [] g = (h, tt)
      snoc (y ∷ ys) (g, gs) = (g, snoc ys gs)

  -- An update that makes no two rows collide which did not before.
  pub Apart-update_where :
      (p : A → Bool) (f : A → A) (xs : List A)
      → ((x y : A) → same (update_row p f x) (update_row p f y) ≡ true → same x y ≡ true)
      → Apart xs
      → Apart (update_where p f xs)
  Apart-update_where p f [] step a = a
  Apart-update_where p f (x ∷ xs) step (a, rest) = (apart xs a, Apart-update_where p f xs step rest)
    where
      apart :
          (ys : List A)
          → All (λ y. same x y ≡ false) ys
          → All (λ y. same (update_row p f x) y ≡ false) (update_where p f ys)
      apart [] g = tt
      apart (y ∷ ys) (g, gs) = (
        elim (Bool-cases (same (update_row p f x) (update_row p f y))) [
          | inl e ↦ absurd (differ (step x y e) g)
          | inr e ↦ e
        ],
        apart ys gs,
      )
        where
          differ : same x y ≡ true → same x y ≡ false → ⊥
          differ e g = cc

  -- With a unique index, a row that collides with the row found is that row.
  pub Apart-find? :
      (p : A → Bool) (xs : List A) {a : A}
      → ((x y : A) → p x ≡ true → p y ≡ true → same x y ≡ true)
      → Apart xs
      → find? p xs ≡ some a
      → All (λ x. p x ≡ true → x ≡ a) xs
  Apart-find? p [] collide rest h = tt
  Apart-find? p (x ∷ xs) {a} collide (u, us) h = elim (Bool-cases (p x)) [
    | inl e ↦ (λ _. here (rw e at h), others e xs u)
    | inr e ↦ (λ t. absurd (both e t), Apart-find? p xs collide us (rw e at h))
  ]
    where
      here : some x ≡ some a → x ≡ a
      here e = cc

      both : p x ≡ false → p x ≡ true → ⊥
      both e t = cc

      clash : {y : A} → same x y ≡ true → same x y ≡ false → ⊥
      clash e t = cc

      others :
          p x ≡ true
          → (ys : List A) → All (λ y. same x y ≡ false) ys
          → All (λ y. p y ≡ true → y ≡ a) ys
      others e [] g = tt
      others e (y ∷ ys) (g, gs) = (λ t. absurd (clash (collide x y e t) g), others e ys gs)

  pub Apart-upsert :
      (p : A → Bool) (new : A) (f : A → A) (xs : List A)
      → ((x : A) → p x ≡ false → same x new ≡ false)
      → ((x y : A) → same x (f y) ≡ same x y)
      → ((x y : A) → same (f x) y ≡ same x y)
      → Apart xs
      → Apart (upsert p new f xs)
  Apart-upsert p new f [] fresh right left a = (tt, tt)
  Apart-upsert p new f (x ∷ xs) fresh right left (a, rest) = elim (Bool-cases (p x)) [
    | inl e ↦ rw e (moved xs a, rest)
    | inr e ↦ rw e (apart e xs a, Apart-upsert p new f xs fresh right left rest)
  ]
    where
      moved : (ys : List A) → All (λ y. same x y ≡ false) ys → All (λ y. same (f x) y ≡ false) ys
      moved [] g = tt
      moved (y ∷ ys) (g, gs) = (left x y ∙ g, moved ys gs)

      apart :
          p x ≡ false
          → (ys : List A) → All (λ y. same x y ≡ false) ys
          → All (λ y. same x y ≡ false) (upsert p new f ys)
      apart e [] g = (fresh x e, tt)
      apart e (y ∷ ys) (g, gs) = elim (Bool-cases (p y)) [
        | inl t ↦ rw t (right x y ∙ g, gs)
        | inr t ↦ rw t (g, apart e ys gs)
      ]
