-- ===== src/Kirim/Worker/Candidates.antt =====
-- The rows that `claim` of apps/api/src/modules/kirim/worker.ts looks at, in its order.
use sq_hub.Common.{
  ℕ, zero, suc, ◌+◌, ◌*◌, String, Option, none, some, List, [], ◌∷◌, Bool, true, false, not, ◌&&◌,
  ◌||◌, ltb, leb, ◌==◌, any, keep, find?, str_eq, if◌then◌else◌,
}
use sq_hub.Kirim.Policy.{antre, is_notifikasi}
use sq_hub.Kirim.Outbox.{
  Prioritas, kode, petugas, tinggi, normal, Arah, masuk, keluar, OutboxRow, MessageRow, DeviceRow,
  Kirim, same_status,
}

abbrev pub max_candidates_per_device : ℕ
max_candidates_per_device = 20

pub record Candidate : Type 0 where
  pub row : OutboxRow
  pub replying : Bool

abbrev pub is_antre : OutboxRow → Bool
is_antre o = same_status o.status antre

abbrev pub due_at : ℕ → OutboxRow → Bool
due_at now o = is_antre o && leb o.next_attempt_at now

unfoldable pub take : {A : Type 0} → ℕ → List A → List A
take zero xs = []
take (suc n) [] = []
take (suc n) (x ∷ xs) = x ∷ take n xs

abbrev pub priority_no : Prioritas → ℕ
priority_no kode = 0
priority_no petugas = 1
priority_no tinggi = 2
priority_no normal = 3

abbrev pub is_masuk : Arah → Bool
is_masuk masuk = true
is_masuk keluar = false

abbrev pub same_conversation : Option String → Option String → Bool
same_conversation (some a) (some b) = str_eq a b
same_conversation _ _ = false

-- the person wrote within the hour before the message was queued, or the minute after
unfoldable pub is_replying : OutboxRow → MessageRow → List MessageRow → Bool
is_replying o m messages =
    is_notifikasi o.jenis
    && any
        (λ i.
          same_conversation i.conversation_id m.conversation_id
          && (is_masuk i.arah
              && (not i.diimpor
                  && (leb o.created_at (i.created_at + 60 * 60000)
                      && leb i.created_at (o.created_at + 60000)))))
        messages

-- the JOIN of due rows with their messages
unfoldable pub joined : List MessageRow → List OutboxRow → List Candidate
unfolding is_replying
joined messages [] = []
joined messages (o ∷ os) =
    let rest = joined messages os in
    elim (find? (λ m. str_eq m.id o.message_id) messages) [
      | none ↦ rest
      | some m ↦ record { row = o; replying = is_replying o m messages } ∷ rest
    ]

unfoldable pub comes_first : Candidate → Candidate → Bool
comes_first a b =
    ltb (priority_no a.row.prioritas) (priority_no b.row.prioritas)
    || (priority_no a.row.prioritas == priority_no b.row.prioritas
        && leb a.row.created_at b.row.created_at)

unfoldable pub insert : Candidate → List Candidate → List Candidate
unfolding comes_first
insert c [] = c ∷ []
insert c (d ∷ ds) = let rest = insert c ds in if comes_first c d then c ∷ d ∷ ds else d ∷ rest

unfoldable pub sort : List Candidate → List Candidate
unfolding insert
sort [] = []
sort (c ∷ cs) = insert c (sort cs)

-- the SELECT of `claim`; rows of equal priority and age keep their order
unfoldable pub candidates : ℕ → DeviceRow → Kirim → List Candidate
unfolding joined sort take
candidates now device db =
    take max_candidates_per_device (
      sort
        (joined db.messages (keep (λ o. str_eq o.device_id device.id && due_at now o) db.outbox)))
