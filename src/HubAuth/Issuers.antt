-- ===== src/HubAuth/Issuers.antt =====
-- Who a login transaction expects: `normalizeIssuer` and `sameIdentity` of apps/api/src/modules/hub-auth/service.ts.
use sq_hub.Common.{
  ℕ, zero, suc, ◌≡◌, ◌≢◌, refl, sym, ◌∙◌, ap, arith, String, Option, some, List, [], ◌∷◌, ◌++◌,
  true, ◌==◌, eq_iff, inl, inr, Bool-cases, Option-cases,
}
use sq_hub.Common.Text.{codes}
use sq_hub.HubAuth.Store.{AuthTransaction, SessionIdentity, truthy, read_transaction}
use sq_hub.HubAuth.Service.{normalize_issuer, same_codes, expected_identity, identity_accepted}

abbrev pub slashes : ℕ → List ℕ
slashes zero = []
slashes (suc k) = b'/' ∷ slashes k

-- two issuers that differ in trailing slashes alone
abbrev pub SameIssuer : String → String → Type 0
SameIssuer a b =
    (base : List ℕ) × (m : ℕ) × (n : ℕ) × (codes a ≡ base ++ slashes m)
    × (codes b ≡ base ++ slashes n)

normalize_issuer-step :
    (c : ℕ) (cs rest : List ℕ) (k : ℕ)
    → normalize_issuer cs ≡ rest
    → cs ≡ rest ++ slashes k
    → (j : ℕ) × (c ∷ cs ≡ normalize_issuer (c ∷ cs) ++ slashes j)
unfolding normalize_issuer
normalize_issuer-step c cs [] k e h = elim (Bool-cases (c == b'/')) [
  | inl f ↦ (suc k, rw (e, normalize_issuer, f) (ground (arith, f, h)))
  | inr f ↦ (k, rw (e, normalize_issuer, f) (ap (λ r. c ∷ r) h))
]
normalize_issuer-step c cs (d ∷ ds) k e h = (k, rw (e, normalize_issuer) (ap (λ r. c ∷ r) h))

-- normalize_issuer takes trailing slashes off, and nothing else.
normalize_issuer_lem : (cs : List ℕ) → (k : ℕ) × (cs ≡ normalize_issuer cs ++ slashes k)
unfolding normalize_issuer
normalize_issuer_lem [] = (0, refl)
normalize_issuer_lem (c ∷ cs) =
    let (k, e) = normalize_issuer_lem cs in
    normalize_issuer-step c cs (normalize_issuer cs) k refl e

same_codes_lem : (xs ys : List ℕ) → same_codes xs ys ≡ true → xs ≡ ys
same_codes_lem [] [] h = refl
same_codes_lem [] (y ∷ ys) h = cc
same_codes_lem (x ∷ xs) [] h = cc
same_codes_lem (x ∷ xs) (y ∷ ys) h =
    let rest : xs ≡ ys = same_codes_lem xs ys (ground (arith, h)) in ground (arith, h, rest)

same_issuer :
    (a b : String)
    → same_codes (normalize_issuer (codes a)) (normalize_issuer (codes b)) ≡ true
    → SameIssuer a b
same_issuer a b h =
    let (m, e) = normalize_issuer_lem (codes a) in
    let (n, f) = normalize_issuer_lem (codes b) in
    (
      normalize_issuer (codes a),
      m,
      n,
      e,
      f ∙ ap (λ cs. cs ++ slashes n) (sym (same_codes_lem _ _ h)),
    )

-- the person is the one that the transaction expects, as far as it expects one
pub record Expected (t : AuthTransaction) (i : SessionIdentity) : Type 0 where
  pub issuer : (x : String) → t.expected_issuer ≡ some x → x ≢ "" → SameIssuer i.issuer x
  pub subject : (x : String) → t.expected_subject ≡ some x → x ≢ "" → i.subject ≡ x

pub truthy-some : (v : Option String) (x : String) → v ≡ some x → x ≢ "" → truthy v ≡ some x
truthy-some v x e filled = rw e (ground (arith, filled, eq_iff x ""))

module _ (t : AuthTransaction) (i : SessionIdentity) (h : identity_accepted t i ≡ true) where
  accepted-issuer : (x : String) → t.expected_issuer ≡ some x → SameIssuer i.issuer x
  unfolding expected_identity
  accepted-issuer x e = elim (Option-cases t.expected_subject) [
    | inl f ↦ absurd (ground (arith, e, f, h))
    | inr (y, f) ↦ same_issuer i.issuer x (ground (arith, e, f, h))
  ]

  accepted-subject : (x : String) → t.expected_subject ≡ some x → i.subject ≡ x
  unfolding expected_identity
  accepted-subject x e = elim (Option-cases t.expected_issuer) [
    | inl f ↦ absurd (ground (arith, e, f, h))
    | inr (y, f) ↦ ground (arith, e, f, h, eq_iff i.subject x)
  ]

pub accepted-Expected :
    (t : AuthTransaction) (i : SessionIdentity)
    → identity_accepted (read_transaction t) i ≡ true
    → Expected t i
accepted-Expected t i h = record {
  issuer = λ x e filled.
      accepted-issuer (read_transaction t) i h x (truthy-some t.expected_issuer x e filled);
  subject = λ x e filled.
      accepted-subject (read_transaction t) i h x (truthy-some t.expected_subject x e filled);
}
