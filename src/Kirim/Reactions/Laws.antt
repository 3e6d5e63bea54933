-- ===== src/Kirim/Reactions/Laws.antt =====
-- The list of reactions as a map from reactors to emojis.
use mathlib.Core.Option
use sq_hub.Common.{
  ℕ, suc, ◌-◌, ◌≤◌, ◌<◌, ◌≡◌, ◌↔◌, refl, ap, arith, Option, none, some, List, [], ◌∷◌, ◌++◌, map,
  false, not, String, find?, keep, length, take_last, length-append, length-drop, length-keep,
  find?-append, find?-keep, find?-keep-none, Bool-cases, Option-cases, inl, inr, str_eq, eq_iff,
  if◌then◌else◌,
}
use sq_hub.Kirim.Reactions.{
  StoredReaction, by_key, name_officer, max_reactions, entry_of, repeated, replaced, removed,
  next_reactions,
}

-- the emoji that stands for a reactor
abbrev pub emoji_of : String → List StoredReaction → Option String
emoji_of k list = Option.map (λ item. item.emoji) (find? (by_key k) list)

-- Fewer reactors than the limit: nothing is cut off.
take_last_all {ℓ} : {A : Type ℓ} (n : ℕ) (xs : List A) → length xs ≤ n → take_last n xs ≡ xs
take_last_all n xs h = let e : length xs - n ≡ 0 = omega arith in rw e

replaced_lem :
    (list : List StoredReaction) (input : StoredReaction)
    → length list < max_reactions
    → (replaced list input).0 ≡ keep (λ item. not (by_key input.k item)) list ++ entry_of input ∷ []
unfolding replaced
replaced_lem list input h = take_last_all max_reactions _ (
    omega (
      arith,
      length-append (keep (λ item. not (by_key input.k item)) list) (entry_of input ∷ []),
      length-keep (λ item. not (by_key input.k item)) list,
    ))

-- the emoji that a reactor asks for; `""` asks for none
abbrev pub wanted : StoredReaction → Option String
wanted input = if str_eq input.emoji "" then none else some input.emoji

kept :
    (k j : String) (list : List StoredReaction)
    → find? (by_key j) (keep (λ item. not (by_key k item)) list)
      ≡ (if str_eq k j then none else find? (by_key j) list)
kept k j list = elim (Bool-cases (str_eq k j)) [
  | inl e ↦ rw e (
      find?-keep-none (λ item. not (by_key k item)) (by_key j) list
        (λ x t. ground (arith, eq_iff x.k k, eq_iff x.k j, eq_iff k j)))
  | inr e ↦ rw e (
      find?-keep (λ item. not (by_key k item)) (by_key j) list
        (λ x t. ground (arith, eq_iff x.k k, eq_iff x.k j, eq_iff k j)))
]

emoji_of-name_officer :
    (j : String) (input : StoredReaction) (list : List StoredReaction)
    → emoji_of j (map (name_officer input) list) ≡ emoji_of j list
emoji_of-name_officer j input [] = refl
emoji_of-name_officer j input (item ∷ list) = ground (arith, emoji_of-name_officer j input list)

emoji_of-removed :
    (j : String) (list : List StoredReaction) (input : StoredReaction)
    → emoji_of j (removed list input).0 ≡ (if str_eq input.k j then none else emoji_of j list)
unfolding removed
emoji_of-removed j list input = ground (arith, kept input.k j list, eq_iff input.k j)

emoji_of-replaced :
    (j : String) (list : List StoredReaction) (input : StoredReaction)
    → length list < max_reactions
    → emoji_of j (replaced list input).0
      ≡ (if str_eq input.k j then some input.emoji else emoji_of j list)
emoji_of-replaced j list input h = rw (replaced_lem list input h) (
    ground (
      arith,
      find?-append (by_key j) (keep (λ item. not (by_key input.k item)) list) (entry_of input ∷ []),
      kept input.k j list,
    ))

emoji_of-repeated :
    (j : String) (list : List StoredReaction) (existing input : StoredReaction)
    → emoji_of j (repeated list existing input).0 ≡ emoji_of j list
unfolding repeated
emoji_of-repeated j list existing input = ground (arith, emoji_of-name_officer j input list)

emoji_of-next_reactions :
    (list : List StoredReaction) (input : StoredReaction)
    → length list < max_reactions
    → (j : String)
    → emoji_of j (next_reactions list input).0
      ≡ (if str_eq input.k j then wanted input else emoji_of j list)
unfolding next_reactions
emoji_of-next_reactions list input h j = elim (Bool-cases (str_eq input.emoji "")) [
  | inl e ↦ rw e (emoji_of-removed j list input)
  | inr e ↦ rw e (elim (Option-cases (find? (by_key input.k) list)) [
    | inl missing ↦ rw missing (emoji_of-replaced j list input h)
    | inr (old, found) ↦ elim (Bool-cases (str_eq old.emoji input.emoji)) [
      | inl same ↦ ground (
        arith,
        emoji_of-repeated j list old input,
        eq_iff old.emoji input.emoji,
        eq_iff input.k j,
      )
      | inr other ↦ ground (arith, emoji_of-replaced j list input h)
    ]
  ])
]

changed_iff :
    (list : List StoredReaction) (input : StoredReaction)
    → ((next_reactions list input).1 ≡ false) ↔ (emoji_of input.k list ≡ wanted input)
unfolding next_reactions removed replaced repeated
changed_iff list input = elim (Option-cases (find? (by_key input.k) list)) [
  | inl missing ↦ ground arith
  | inr (old, found) ↦ ground (arith, eq_iff old.emoji input.emoji)
]

-- A reaction sets or removes the emoji of its reactor and of nobody else, on a message with fewer reactors
-- than the limit; it is reported as a change exactly when the emoji asked for is not the one that stood.
pub next_reactions_lem :
    (list : List StoredReaction) (input : StoredReaction)
    → length list < max_reactions
    → ((j : String)
        → emoji_of j (next_reactions list input).0
          ≡ (if str_eq input.k j then wanted input else emoji_of j list))
      × (((next_reactions list input).1 ≡ false) ↔ (emoji_of input.k list ≡ wanted input))
next_reactions_lem list input h = (emoji_of-next_reactions list input h, changed_iff list input)

length-map-officer :
    (input : StoredReaction) (list : List StoredReaction)
    → length (map (name_officer input) list) ≡ length list
length-map-officer input [] = refl
length-map-officer input (x ∷ list) = ap suc (length-map-officer input list)

length-replaced :
    (list : List StoredReaction) (input : StoredReaction)
    → length (replaced list input).0 ≤ max_reactions
unfolding replaced
length-replaced list input = omega (
  arith,
  length-drop
      (length (keep (λ item. not (by_key input.k item)) list ++ entry_of input ∷ [])
        - max_reactions)
      (keep (λ item. not (by_key input.k item)) list ++ entry_of input ∷ []),
)

-- A message keeps at most 1024 reactors, whatever reaction comes.
pub length-next_reactions :
    (list : List StoredReaction) (input : StoredReaction)
    → length list ≤ max_reactions
    → length (next_reactions list input).0 ≤ max_reactions
unfolding next_reactions removed repeated
length-next_reactions list input h = ground (
  arith,
  length-replaced list input,
  length-keep (λ item. not (by_key input.k item)) list,
  length-map-officer input list,
)
