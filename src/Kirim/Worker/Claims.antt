-- ===== src/Kirim/Worker/Claims.antt =====
-- What `claim` of apps/api/src/modules/kirim/worker.ts picks, and that its lease keeps the row to itself.
use sq_hub.Common.{
  ℕ, zero, suc, ◌+◌, ◌≤◌, ◌<◌, ◌≡◌, ◌≢◌, subst, arith, String, Option, none, some, List, [], ◌∷◌,
  Bool, true, ◌&&◌, find?, keep, All, All-keep, update_where, str_eq, eq_iff, inl, inr, Bool-cases,
  Option-cases, Result, ok, err, update_row,
}
use sq_hub.Kirim.Policy.{antre, WindowDecision, send, wait, expire, window_decision}
use sq_hub.Kirim.Outbox.{OutboxRow, MessageRow, DeviceRow, Kirim, transition_outbox, same_status}
use sq_hub.Kirim.Worker.{
  lease_ms, max_candidates_per_device, WorkerError, Candidate, due_at, take, joined, comes_first,
  insert, sort, candidates, set_next_attempt, decision_input, claim_first, claim, expired_change,
}

-- a row of this number that waits and whose time has come
abbrev pub Due : ℕ → DeviceRow → Candidate → Type 0
Due now d c =
    (c.row.device_id ≡ d.id)
    × ((same_status c.row.status antre ≡ true) × (c.row.next_attempt_at ≤ now))

module _ (P : Candidate → Type 0) where
  All-take : (n : ℕ) (cs : List Candidate) → All P cs → All P (take n cs)
  unfolding take
  All-take zero cs h = tt
  All-take (suc n) [] h = tt
  All-take (suc n) (c ∷ cs) h = (h.0, All-take n cs h.1)

  All-insert : (c : Candidate) (cs : List Candidate) → P c → All P cs → All P (insert c cs)
  unfolding insert
  All-insert c [] h hs = (h, tt)
  All-insert c (d ∷ ds) h hs = elim (Bool-cases (comes_first c d)) [
    | inl e ↦ rw e (h, hs)
    | inr e ↦ rw e (hs.0, All-insert c ds h hs.1)
  ]

  All-sort : (cs : List Candidate) → All P cs → All P (sort cs)
  unfolding sort
  All-sort [] h = tt
  All-sort (c ∷ cs) h = All-insert c (sort cs) h.0 (All-sort cs h.1)

All-joined :
    (P : OutboxRow → Type 0) (messages : List MessageRow) (os : List OutboxRow)
    → All P os
    → All (λ c. P c.row) (joined messages os)
unfolding joined
All-joined P messages [] h = tt
All-joined P messages (o ∷ os) h =
    elim (Option-cases (find? (λ m. str_eq m.id o.message_id) messages)) [
      | inl e ↦ rw (e, joined) (All-joined P messages os h.1)
      | inr (m, e) ↦ rw (e, joined) (h.0, All-joined P messages os h.1)
    ]

All-passed : {A : Type 0} (p : A → Bool) (xs : List A) → All (λ x. p x ≡ true) (keep p xs)
All-passed p [] = tt
All-passed p (x ∷ xs) = elim (Bool-cases (p x)) [
  | inl e ↦ rw e (e, All-passed p xs)
  | inr e ↦ rw e (All-passed p xs)
]

-- Every candidate is due, and a fact of all rows of the outbox holds of it.
candidates_lem :
    (P : OutboxRow → Type 0) (now : ℕ) (d : DeviceRow) (db : Kirim)
    → All P db.outbox
    → All (λ c. Due now d c × P c.row) (candidates now d db)
unfolding candidates
candidates_lem P now d db h =
    All-take (λ c. Due now d c × P c.row) max_candidates_per_device (sort (joined db.messages due))
      (All-sort (λ c. Due now d c × P c.row) (joined db.messages due)
        (All-joined (λ o. DueRow o × P o) db.messages due
          (both due (All-passed wanted db.outbox) (All-keep P wanted db.outbox h))))
  where
    wanted : OutboxRow → Bool
    wanted o = str_eq o.device_id d.id && due_at now o

    due : List OutboxRow
    due = keep wanted db.outbox

    DueRow : OutboxRow → Type 0
    DueRow o =
        (o.device_id ≡ d.id) × ((same_status o.status antre ≡ true) × (o.next_attempt_at ≤ now))

    both :
        (os : List OutboxRow)
        → All (λ o. wanted o ≡ true) os
        → All P os
        → All (λ o. DueRow o × P o) os
    both [] h k = tt
    both (o ∷ os) h k = ((due_row o h.0, k.0), both os h.1 k.1)
      where
        due_row : (o : OutboxRow) → wanted o ≡ true → DueRow o
        due_row o h = ground (arith, eq_iff o.device_id d.id)

abbrev Leased : ℕ → String → List OutboxRow → Type 0
Leased until id os = All (λ o. o.id ≡ id → o.next_attempt_at ≡ until) os

Leased-set_next_attempt :
    (now : ℕ) (id : String) (next : ℕ) (db : Kirim)
    → Leased next id (set_next_attempt now id next db).outbox
unfolding set_next_attempt
Leased-set_next_attempt now id next db = go db.outbox
  where
    go :
        (os : List OutboxRow)
        → Leased next id (
            update_where
              (λ o. str_eq o.id id)
              (λ o. record o { next_attempt_at = next; updated_at = now })
              os)
    go [] = tt
    go (o ∷ os) = (leased o, go os)
      where
        leased :
            (o : OutboxRow)
            → (update_row
                (λ o. str_eq o.id id)
                (λ o. record o { next_attempt_at = next; updated_at = now })
                o).id
              ≡ id
            → (update_row
                (λ o. str_eq o.id id)
                (λ o. record o { next_attempt_at = next; updated_at = now })
                o).next_attempt_at
              ≡ next
        leased o e = ground (arith, e, eq_iff o.id id)

-- what a claim that did not throw shows of the row it took
abbrev Found : (Candidate → Kirim → Type 0) → Result WorkerError (Option Candidate × Kirim) → Type 0
Found Q (ok (none, db)) = Unit
Found Q (ok (some c, db)) = Q c db
Found Q (err e) = Unit

abbrev Picked : (Candidate → Type 0) → ℕ → DeviceRow → Candidate → Kirim → Type 0
Picked P now d c db =
    P c
    × ((window_decision (decision_input now d c) ≡ some send)
        × Leased (now + lease_ms) c.row.id db.outbox)

claim_first-Picked :
    (P : Candidate → Type 0) (now : ℕ) (d : DeviceRow) (cs : List Candidate) (db : Kirim)
    → All P cs
    → Found (Picked P now d) (claim_first now d cs db)
unfolding claim_first
claim_first-Picked P now d [] db h = tt
claim_first-Picked P now d (c ∷ cs) db h =
    elim (Option-cases (window_decision (decision_input now d c))) [
      | inl e ↦ rw (e, claim_first) tt
      | inr (x, e) ↦ decided (λ x. claim_first-Picked P now d cs x h.1) x e
    ]
  where
    decided :
        ((x : Kirim) → Found (Picked P now d) (claim_first now d cs x))
        → (x : WindowDecision) → window_decision (decision_input now d c) ≡ some x
        → Found (Picked P now d) (claim_first now d (c ∷ cs) db)
    decided more expire e =
        rw (e, claim_first) (more (transition_outbox now (expired_change c.row.id) db).0)
    decided more (wait until) e =
        rw (e, claim_first) (more (set_next_attempt now c.row.id until db))
    decided more send e =
        rw (e, claim_first) (h.0, (e, Leased-set_next_attempt now c.row.id (now + lease_ms) db))

claim-Picked :
    (P : OutboxRow → Type 0) (now : ℕ) (d : DeviceRow) (db : Kirim) (c : Candidate) (db' : Kirim)
    → All P db.outbox
    → claim now d db ≡ ok (some c, db')
    → Picked (λ c. Due now d c × P c.row) now d c db'
unfolding claim
claim-Picked P now d db c db' h e = subst (Found (Picked (λ c. Due now d c × P c.row) now d)) e (
    claim_first-Picked (λ c. Due now d c × P c.row) now d (candidates now d db) db
      (candidates_lem P now d db h))

All-Unit : (os : List OutboxRow) → All (λ o. Unit {0}) os
All-Unit [] = tt
All-Unit (o ∷ os) = (tt, All-Unit os)

-- The row that a claim takes belongs to the number, waits, is due, and may be sent now by its send window.
pub claim-Due :
    (now : ℕ) (d : DeviceRow) (db db' : Kirim) (c : Candidate)
    → claim now d db ≡ ok (some c, db')
    → Due now d c × (window_decision (decision_input now d c) ≡ some send)
claim-Due now d db db' c e =
    let picked = claim-Picked (λ o. Unit) now d db c db' (All-Unit db.outbox) e in
    (picked.0.0, picked.1.0)

-- From the state that a claim leaves, the row that it took is not claimed again, for any number and by any
-- process, before its lease of 60 seconds runs out.
pub claim-lease :
    (now later : ℕ) (d d' : DeviceRow) (db db' db'' : Kirim) (c c' : Candidate)
    → claim now d db ≡ ok (some c, db')
    → later < now + lease_ms
    → claim later d' db' ≡ ok (some c', db'')
    → c'.row.id ≢ c.row.id
claim-lease now later d d' db db' db'' c c' e before again same =
    let first = claim-Picked (λ o. Unit) now d db c db' (All-Unit db.outbox) e in
    let second =
      claim-Picked (λ o. o.id ≡ c.row.id → o.next_attempt_at ≡ now + lease_ms) later d' db' c' db''
        first.1.1 again in
    omega (arith, second.0.1 same, second.0.0.1.1, before)
