-- ===== src/Kirim/Reactions.antt =====
-- apps/api/src/modules/kirim/message-state.ts: `nextReactions`, the reactions on one message.
pub mod Laws
mod Tests
use sq_hub.Common.{
  ℕ, String, Option, none, some, List, [], ◌∷◌, ◌++◌, map, Bool, true, false, not, ◌&&◌, find?,
  keep, take_last, str_eq, if◌then◌else◌,
}

-- who reacted: `kontak`, `nomor_ini` or `anggota`
pub data From : Type 0 where
  kontak nomor_ini anggota : From

pub record StoredReaction : Type 0 where
  pub k : String
  pub dari : From
  pub emoji : String
  pub at : String
  pub enc : Option String
  pub petugas : Option String

abbrev pub max_reactions : ℕ
max_reactions = 1024

abbrev pub by_key : String → StoredReaction → Bool
by_key k item = str_eq item.k k

-- `...(v ? { field: v } : {})`: an empty text leaves the field out
abbrev pub truthy : Option String → Option String
truthy none = none
truthy (some v) = if str_eq v "" then none else some v

-- `a !== b` on texts that may be undefined
abbrev pub differs : Option String → Option String → Bool
differs none none = false
differs (some a) (some b) = not (str_eq a b)
differs _ _ = true

abbrev pub with_petugas : Option String → StoredReaction → StoredReaction
with_petugas p item = record item { petugas = p }

abbrev pub name_officer : StoredReaction → StoredReaction → StoredReaction
name_officer input item = if by_key input.k item then with_petugas input.petugas item else item

abbrev pub is_some_text : Option String → Bool
is_some_text none = false
is_some_text (some v) = not (str_eq v "")

-- the same emoji again: only the officer may be recorded
unfoldable pub repeated :
    List StoredReaction → StoredReaction → StoredReaction → List StoredReaction × Bool
repeated list existing input =
    if is_some_text input.petugas && differs existing.petugas input.petugas
    then (map (name_officer input) list, false)
    else (list, false)

abbrev pub entry_of : StoredReaction → StoredReaction
entry_of input = record input { enc = truthy input.enc; petugas = truthy input.petugas }

-- a new reactor, or another emoji
unfoldable pub replaced : List StoredReaction → StoredReaction → List StoredReaction × Bool
replaced list input = (
  take_last max_reactions (keep (λ item. not (by_key input.k item)) list ++ entry_of input ∷ []),
  true,
)

-- `""` as the emoji removes the reaction
unfoldable pub removed : List StoredReaction → StoredReaction → List StoredReaction × Bool
removed list input = elim (find? (by_key input.k) list) [
  | some _ ↦ (keep (λ item. not (by_key input.k item)) list, true)
  | none ↦ (list, false)
]

-- The filter on items with a text key keeps every item of this type.
unfoldable pub next_reactions : List StoredReaction → StoredReaction → List StoredReaction × Bool
unfolding repeated replaced removed
next_reactions current input =
    if str_eq input.emoji "" then removed current input else elim (find? (by_key input.k) current) [
      | none ↦ replaced current input
      | some existing ↦
          if str_eq existing.emoji input.emoji
          then repeated current existing input
          else replaced current input
    ]
