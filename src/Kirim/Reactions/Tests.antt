-- ===== src/Kirim/Reactions/Tests.antt =====
-- Reactions on a concrete message.
use sq_hub.Common.{
  ◌≤◌, ◌≡◌, ◌↔◌, refl, arith, String, Option, none, some, List, [], ◌∷◌, true, false, length,
  str_eq, if◌then◌else◌,
}
use sq_hub.Kirim.Reactions.{StoredReaction, anggota, max_reactions, next_reactions}
use sq_hub.Kirim.Reactions.Laws.{emoji_of, wanted, next_reactions_lem, length-next_reactions}

abbrev reaction : String → String → Option String → StoredReaction
reaction key emoji officer = record {
  k = key;
  dari = anggota;
  emoji = emoji;
  at = "2026-01-01";
  enc = none;
  petugas = officer;
}

abbrev stored : List StoredReaction
stored = reaction "a" "heart" none ∷ reaction "b" "thumb" none ∷ []

reaction_tests :
    (next_reactions stored (reaction "a" "" none) ≡ (reaction "b" "thumb" none ∷ [], true))
    × (next_reactions stored (reaction "a" "heart" (some "o"))
        ≡ (reaction "a" "heart" (some "o") ∷ reaction "b" "thumb" none ∷ [], false))
    × (next_reactions stored (reaction "a" "thumb" none)
        ≡ (reaction "b" "thumb" none ∷ reaction "a" "thumb" none ∷ [], true))
unfolding next_reactions
reaction_tests = (refl, refl, refl)

next_reactions_lem_example :
    ((j : String)
      → emoji_of j (next_reactions stored (reaction "a" "thumb" none)).0
        ≡ (if str_eq "a" j then wanted (reaction "a" "thumb" none) else emoji_of j stored))
    × (((next_reactions stored (reaction "a" "thumb" none)).1 ≡ false)
        ↔ (emoji_of "a" stored ≡ wanted (reaction "a" "thumb" none)))
next_reactions_lem_example = next_reactions_lem stored (reaction "a" "thumb" none) (omega arith)

length-next_reactions_example :
    length (next_reactions stored (reaction "c" "thumb" none)).0 ≤ max_reactions
length-next_reactions_example =
    length-next_reactions stored (reaction "c" "thumb" none) (omega arith)
