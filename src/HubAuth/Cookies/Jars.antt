-- ===== src/HubAuth/Cookies/Jars.antt =====
-- What comes back from a browser's cookies.
use sq_hub.Common.{
  ℕ, Option, none, List, [], ◌∷◌, ◌++◌, Bool, true, false, not, ◌&&◌, ◌≡◌, refl, ap, ap₂, ◌∙◌, inl,
  inr, All, Bool-cases, ◌==◌, if◌then◌else◌,
}
use sq_hub.HubAuth.Service.{same_codes}
use sq_hub.HubAuth.Cookies.{
  is_space, trim_start, push_kept, trim_end, trim, push_code, split_parts, raw_name, raw_value,
  present, find_part, read_cookie, attributes, build_cookie,
}

-- neither a space nor a semicolon; in a name, no `=` either
abbrev pub is_plain : ℕ → Bool
is_plain c = not (is_space c) && not (c == b';')

abbrev pub Plain : List ℕ → Type 0
Plain cs = All (λ c. is_plain c ≡ true) cs

abbrev pub Name : List ℕ → Type 0
Name cs = All (λ c. (is_plain c ≡ true) × ((c == b'=') ≡ false)) cs

abbrev pub pair : List ℕ × List ℕ → List ℕ
pair (name, value) = name ++ b'=' ∷ value

-- the cookies as a browser sends them
abbrev pub more : List (List ℕ × List ℕ) → List ℕ
more [] = []
more (q ∷ qs) = b';' ∷ b' ' ∷ pair q ++ more qs

abbrev pub header : List (List ℕ × List ℕ) → List ℕ
header [] = []
header (q ∷ qs) = pair q ++ more qs

-- the value under a name, the first of them, and none where it is empty
abbrev pub look_up : List (List ℕ × List ℕ) → List ℕ → Option (List ℕ)
look_up [] name = none
look_up ((n, v) ∷ qs) name =
    let rest = look_up qs name in if same_codes n name then present v else rest

both_not : (a b : Bool) → (not a && not b) ≡ true → (a ≡ false) × (b ≡ false)
both_not false false h = (refl, refl)
both_not false true h = cc
both_not true b h = cc

no_space : (c : ℕ) → is_plain c ≡ true → is_space c ≡ false
no_space c h = (both_not (is_space c) (c == b';') h).0

no_semicolon : (c : ℕ) → is_plain c ≡ true → (c == b';') ≡ false
no_semicolon c h = (both_not (is_space c) (c == b';') h).1

split-append : (p rest : List ℕ) → Plain p → split_parts (p ++ b';' ∷ rest) ≡ p ∷ split_parts rest
split-append [] rest h = refl
split-append (c ∷ p) rest (h, hs) =
    rw (no_semicolon c h) (ap (push_code c) (split-append p rest hs))

split-alone : (p : List ℕ) → Plain p → split_parts p ≡ p ∷ []
split-alone [] h = refl
split-alone (c ∷ p) (h, hs) = rw (no_semicolon c h) (ap (push_code c) (split-alone p hs))

trim_end-Plain : (p : List ℕ) → Plain p → trim_end p ≡ p
trim_end-Plain [] h = refl
trim_end-Plain (c ∷ p) (h, hs) = ap (push_kept c) (trim_end-Plain p hs) ∙ kept p
  where
    kept : (ds : List ℕ) → push_kept c ds ≡ c ∷ ds
    kept [] = rw (no_space c h) refl
    kept (d ∷ ds) = refl

trim-Plain : (p : List ℕ) → Plain p → trim p ≡ p
trim-Plain [] h = refl
trim-Plain (c ∷ p) (h, hs) = ap trim_start (trim_end-Plain (c ∷ p) (h, hs)) ∙ rw (no_space c h) refl

trim-spaced : (c : ℕ) (p : List ℕ) → Plain (c ∷ p) → trim (b' ' ∷ c ∷ p) ≡ c ∷ p
trim-spaced c p (h, hs) =
    ap (λ ds. trim_start (push_kept b' ' ds)) (trim_end-Plain (c ∷ p) (h, hs))
    ∙ rw (no_space c h) refl

raw_name-pair : (n v : List ℕ) → Name n → raw_name (pair (n, v)) ≡ n
raw_name-pair [] v h = refl
raw_name-pair (c ∷ n) v ((h, e), hs) = rw e (ap (◌∷◌ c) (raw_name-pair n v hs))

raw_value-pair : (n v : List ℕ) → Name n → raw_value (pair (n, v)) ≡ v
raw_value-pair [] v h = refl
raw_value-pair (c ∷ n) v ((h, e), hs) = rw e (raw_value-pair n v hs)

abbrev pub Clean : List ℕ × List ℕ → Type 0
Clean (n, v) = Name n × Plain v

Plain-pair : (q : List ℕ × List ℕ) → Clean q → Plain (pair q)
Plain-pair ([], v) (h, k) = (refl, k)
Plain-pair (c ∷ n, v) ((h, hs), k) = (h.0, Plain-pair (n, v) (hs, k))

abbrev spaced : List (List ℕ × List ℕ) → List (List ℕ)
spaced [] = []
spaced (q ∷ qs) = (b' ' ∷ pair q) ∷ spaced qs

append_nothing : (p : List ℕ) → p ++ [] ≡ p
append_nothing [] = refl
append_nothing (c ∷ p) = ap (◌∷◌ c) (append_nothing p)

split-more :
    (p : List ℕ) (qs : List (List ℕ × List ℕ))
    → Plain p
    → All Clean qs
    → split_parts (p ++ more qs) ≡ p ∷ spaced qs
split-more p [] h hs = ap split_parts (append_nothing p) ∙ split-alone p h
split-more p (q ∷ qs) h (k, ks) =
    split-append p (b' ' ∷ pair q ++ more qs) h
    ∙ ap (λ ps. p ∷ push_code b' ' ps) (split-more (pair q) qs (Plain-pair q k) ks)

trim-pair : (q : List ℕ × List ℕ) → Clean q → trim (b' ' ∷ pair q) ≡ pair q
trim-pair ([], v) k = trim-spaced b'=' v (Plain-pair ([], v) k)
trim-pair (c ∷ n, v) k = trim-spaced c (n ++ b'=' ∷ v) (Plain-pair (c ∷ n, v) k)

-- one part that trims to a pair
found_part :
    (part : List ℕ) (q : List ℕ × List ℕ) (ps : List (List ℕ)) (name : List ℕ)
    → Clean q
    → trim part ≡ pair q
    → find_part (part ∷ ps) name ≡ (if same_codes q.0 name then present q.1 else find_part ps name)
found_part part (n, v) ps name (h, k) e = rw (e, raw_name-pair n v h, raw_value-pair n v h) refl

find_part-spaced :
    (qs : List (List ℕ × List ℕ)) (name : List ℕ)
    → All Clean qs
    → find_part (spaced qs) name ≡ look_up qs name
find_part-spaced [] name h = refl
find_part-spaced ((n, v) ∷ qs) name (h, hs) =
    found_part (b' ' ∷ pair (n, v)) (n, v) (spaced qs) name h (trim-pair (n, v) h)
    ∙ ap (λ o. if same_codes n name then present v else o) (find_part-spaced qs name hs)

read_cookie-parts : (cs name : List ℕ) → read_cookie cs name ≡ find_part (split_parts cs) name
unfolding read_cookie
read_cookie-parts [] name = elim (Bool-cases (same_codes [] name)) [
  | inl e ↦ rw e refl
  | inr e ↦ rw e refl
]
read_cookie-parts (c ∷ cs) name = refl

read_cookie-header :
    (qs : List (List ℕ × List ℕ)) (name : List ℕ)
    → All Clean qs
    → read_cookie (header qs) name ≡ look_up qs name
read_cookie-header [] name h =
    read_cookie-parts [] name
    ∙ elim (Bool-cases (same_codes [] name)) [ inl e ↦ rw e refl | inr e ↦ rw e refl ]
read_cookie-header ((n, v) ∷ qs) name (h, hs) =
    read_cookie-parts (pair (n, v) ++ more qs) name
    ∙ ap (λ ps. find_part ps name) (split-more (pair (n, v)) qs (Plain-pair (n, v) h) hs)
    ∙ found_part (pair (n, v)) (n, v) (spaced qs) name h
        (trim-Plain (pair (n, v)) (Plain-pair (n, v) h))
    ∙ ap (λ o. if same_codes n name then present v else o) (find_part-spaced qs name hs)

-- the pair that a browser keeps of a Set-Cookie text: what stands before its first semicolon
abbrev pub kept_pair : List ℕ → List ℕ
kept_pair [] = []
kept_pair (c ∷ cs) = let rest = kept_pair cs in if c == b';' then [] else c ∷ rest

abbrev pub sent_more : List (List ℕ) → List ℕ
sent_more [] = []
sent_more (s ∷ ss) = b';' ∷ b' ' ∷ kept_pair s ++ sent_more ss

-- the Cookie header for the Set-Cookie texts of a site
abbrev pub sent : List (List ℕ) → List ℕ
sent [] = []
sent (s ∷ ss) = kept_pair s ++ sent_more ss

kept_pair-append : (p rest : List ℕ) → Plain p → kept_pair (p ++ b';' ∷ rest) ≡ p
kept_pair-append [] rest h = refl
kept_pair-append (c ∷ p) rest (h, hs) =
    rw (no_semicolon c h) (ap (◌∷◌ c) (kept_pair-append p rest hs))

kept_pair-pair :
    (n v rest : List ℕ) → Clean (n, v) → kept_pair (n ++ b'=' ∷ v ++ b';' ∷ rest) ≡ pair (n, v)
kept_pair-pair [] v rest (h, k) = ap (◌∷◌ b'=') (kept_pair-append v rest k)
kept_pair-pair (c ∷ n) v rest ((h, hs), k) =
    rw (no_semicolon c h.0) (ap (◌∷◌ c) (kept_pair-pair n v rest (hs, k)))

module _ (show : ℕ → List ℕ) (max_age : ℕ) (secure : Bool) where
  abbrev pub built : List (List ℕ × List ℕ) → List (List ℕ)
  built [] = []
  built ((n, v) ∷ qs) = build_cookie show n v max_age secure ∷ built qs

  kept_pair-build_cookie :
      (n v : List ℕ) → Clean (n, v) → kept_pair (build_cookie show n v max_age secure) ≡ pair (n, v)
  unfolding build_cookie
  kept_pair-build_cookie n v h = kept_pair-pair n v (attributes show max_age secure) h

  sent_more-built : (qs : List (List ℕ × List ℕ)) → All Clean qs → sent_more (built qs) ≡ more qs
  sent_more-built [] h = refl
  sent_more-built ((n, v) ∷ qs) (h, hs) =
      ap₂ (λ p m. b';' ∷ b' ' ∷ p ++ m) (kept_pair-build_cookie n v h) (sent_more-built qs hs)

  -- Cookies that buildCookie makes come back: of the header that a browser sends for them, readCookie gives under
  -- each name the value of the first cookie of that name, null where it is empty or there is none, if names and
  -- values hold no spaces and no semicolons, nor the names an `=`.
  pub read_cookie-build_cookie :
      (qs : List (List ℕ × List ℕ)) (name : List ℕ)
      → All Clean qs
      → read_cookie (sent (built qs)) name ≡ look_up qs name
  read_cookie-build_cookie [] name h = read_cookie-header [] name h
  read_cookie-build_cookie ((n, v) ∷ qs) name (h, hs) =
      ap (λ cs. read_cookie cs name)
        (ap₂ (λ p m. p ++ m) (kept_pair-build_cookie n v h) (sent_more-built qs hs))
      ∙ read_cookie-header ((n, v) ∷ qs) name (h, hs)
