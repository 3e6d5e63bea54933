-- ===== src/OrganizationDirectory/Sync/Orders.antt =====
-- The order of revisions that `assertNoRegression` keeps.
use sq_hub.Common.{
  ℕ, String, List, [], ◌∷◌, true, false, ◌≡◌, refl, sym, subst, ◌⊎◌, inl, inr, ◌↔◌, length,
  Bool-cases, ok, arith,
}
use sq_hub.Common.Text.{codes}
use sq_hub.Common.Order.{
  codes_lt, text_lt, codes_lt_trans, codes_lt_tri, codes_lt_irrefl, codes_le_trans,
}
use sq_hub.OrganizationDirectory.{Snapshot}
use sq_hub.OrganizationDirectory.Validation.{not_older, revision, assert_no_regression}

not_older_inv :
    (a b : List ℕ) (as' bs : List (List ℕ))
    → not_older (a ∷ as') (b ∷ bs) ≡ true
    → (codes_lt b a ≡ true) ⊎ ((a ≡ b) × (not_older as' bs ≡ true))
unfolding not_older
not_older_inv a b as' bs h = elim (Bool-cases (codes_lt b a)) [
  | inl e ↦ inl e
  | inr e ↦ elim (Bool-cases (codes_lt a b)) [
    | inl t ↦ absurd (no (rw (e, t, not_older) at h))
    | inr t ↦ inr (codes_lt_tri a b t e, rw (e, t, not_older) at h)
  ]
]
  where
    no : false ≡ true → ⊥
    no e = cc

not_older-lt :
    (a b : List ℕ) (as' bs : List (List ℕ))
    → codes_lt b a ≡ true
    → not_older (a ∷ as') (b ∷ bs) ≡ true
unfolding not_older
not_older-lt a b as' bs h = rw (h, not_older) refl

not_older-eq :
    (a b : List ℕ) (as' bs : List (List ℕ))
    → a ≡ b
    → not_older as' bs ≡ true
    → not_older (a ∷ as') (b ∷ bs) ≡ true
unfolding not_older
not_older-eq a b as' bs e h =
    subst (λ c. not_older (a ∷ as') (c ∷ bs) ≡ true) e (rw (codes_lt_irrefl a, not_older) h)

not_older_refl : (as' : List (List ℕ)) → not_older as' as' ≡ true
unfolding not_older
not_older_refl [] = refl
not_older_refl (a ∷ as') = not_older-eq a a as' as' refl (not_older_refl as')

not_older_trans :
    (as' bs cs : List (List ℕ))
    → length as' ≡ length bs
    → length bs ≡ length cs
    → not_older as' bs ≡ true
    → not_older bs cs ≡ true
    → not_older as' cs ≡ true
unfolding not_older
not_older_trans [] bs cs l m h k = refl
not_older_trans (a ∷ as') [] cs l m h k = absurd (omega (arith, l))
not_older_trans (a ∷ as') (b ∷ bs) [] l m h k = absurd (omega (arith, m))
not_older_trans (a ∷ as') (b ∷ bs) (c ∷ cs) l m h k = elim (not_older_inv a b as' bs h) [
  | inl e ↦ elim (not_older_inv b c bs cs k) [
    | inl f ↦ not_older-lt a c as' cs (codes_lt_trans c b a f e)
    | inr (f, s) ↦ not_older-lt a c as' cs (subst (λ d. codes_lt d a ≡ true) f e)
  ]
  | inr (e, r) ↦ elim (not_older_inv b c bs cs k) [
    | inl f ↦ not_older-lt a c as' cs (subst (λ d. codes_lt c d ≡ true) (sym e) f)
    | inr (f, s) ↦
        not_older-eq a c as' cs (cc)
          (not_older_trans as' bs cs (omega (arith, l)) (omega (arith, m)) r s)
  ]
]

module _ (date_parse : String → ℕ) where
  -- What a snapshot that is no regression has: a business date that is no earlier, and a revision no older.
  pub assert_no_regression_iff :
      (next previous : Snapshot)
      → (assert_no_regression date_parse next previous ≡ ok tt) ↔ (
          (text_lt next.as_of previous.as_of ≡ false)
          × (not_older (revision date_parse next.source) (revision date_parse previous.source)
              ≡ true))
  unfolding assert_no_regression
  assert_no_regression_iff next previous = ground arith

  pub assert_no_regression_refl : (s : Snapshot) → assert_no_regression date_parse s s ≡ ok tt
  assert_no_regression_refl s =
      (assert_no_regression_iff s s).1
        (codes_lt_irrefl (codes s.as_of), not_older_refl (revision date_parse s.source))

  pub assert_no_regression_trans :
      (c b a : Snapshot)
      → assert_no_regression date_parse c b ≡ ok tt
      → assert_no_regression date_parse b a ≡ ok tt
      → assert_no_regression date_parse c a ≡ ok tt
  unfolding revision
  assert_no_regression_trans c b a h k =
      let (later, newer) = (assert_no_regression_iff c b).0 h in
      let (later', newer') = (assert_no_regression_iff b a).0 k in
      (assert_no_regression_iff c a).1 (
        codes_le_trans (codes a.as_of) (codes b.as_of) (codes c.as_of) later' later,
        not_older_trans (revision date_parse c.source) (revision date_parse b.source)
            (revision date_parse a.source) refl refl newer newer',
      )
