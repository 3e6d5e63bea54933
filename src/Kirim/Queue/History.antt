-- ===== src/Kirim/Queue/History.antt =====
-- The history of the outbox under all operations that move its rows, in any order.
use sq_hub.Common.{
  ℕ, ◌≡◌, refl, ◌∙◌, sym, subst, arith, String, some, List, [], ◌∷◌, ◌++◌, Bool, true, false, ◌||◌,
  ◌&&◌, not, find?, any, str_eq, inl, inr, Option-cases, transaction, Bool-cases, Extends,
  Extends-append, Extends-trans, Pointwise, Pointwise-Extends,
}
use sq_hub.Kirim.Policy.{
  OutboundStatus, antre, diserahkan, terkirim, dibaca, gagal, dibatalkan, Receipt, terkirim, dibaca,
  advance_status,
}
use sq_hub.Kirim.Outbox.{
  OutboxRow, DeviceRow, ProviderName, Kirim, Change, same_status, moves, transition_outbox,
}
use sq_hub.Kirim.Outbox.Evolution.{
  Evolves, Evolved, Evolved-refl, Evolved-transition_outbox, same_status_lem,
}
use sq_hub.Kirim.Worker.{SendResult, expire_due, claim, apply_result, release_lease}
use sq_hub.Kirim.Worker.Moves.{
  Evolved-expire_due, Evolved-claim, Evolved-apply_result, Evolved-release_lease,
}
use sq_hub.Kirim.Queue.{
  retry, retry_change, cancel, cancel_change, lock_outbox, never_again, apply_receipt,
  receipt_change, advance_device_sent, sent_as,
}

-- what may become of a status in time: a message that was handed over is never queued again
abbrev pub may_become : OutboundStatus → OutboundStatus → Bool
may_become antre t = true
may_become gagal t = true
may_become diserahkan t =
    same_status t diserahkan || (same_status t terkirim || same_status t dibaca)
may_become terkirim t = same_status t terkirim || same_status t dibaca
may_become dibaca t = same_status t dibaca
may_become dibatalkan t = same_status t dibatalkan

stays : (s : OutboundStatus) → may_become s s ≡ true
stays s = ground arith

joins :
    (s t u : OutboundStatus) → may_become s t ≡ true → may_become t u ≡ true → may_become s u ≡ true
joins s t u h k = ground arith

advances :
    (s : OutboundStatus) (r : Receipt) (t : OutboundStatus)
    → advance_status s r ≡ some t
    → may_become s t ≡ true
unfolding advance_status
advances antre r t h = refl
advances gagal r t h = refl
advances diserahkan terkirim t h = ground (arith, h)
advances diserahkan dibaca t h = ground (arith, h)
advances terkirim terkirim t h = ground (arith, h)
advances terkirim dibaca t h = ground (arith, h)
advances dibaca terkirim t h = ground (arith, h)
advances dibaca dibaca t h = ground (arith, h)
advances dibatalkan r t h = ground (arith, h)

-- the operations that write to the outbox; a new row may be any
pub data Step : Kirim → Kirim → Type 0 where
  queue : {db : Kirim} (o : OutboxRow) → Step db (record db { outbox = db.outbox ++ o ∷ [] })
  sweep : {db : Kirim} (now : ℕ) → Step db (expire_due now db).0
  lease : {db : Kirim} (now : ℕ) (d : DeviceRow) → Step db (transaction (claim now d) db).0
  unlease : {db : Kirim} (now : ℕ) (id : String) → Step db (release_lease now id db)
  answer :
      {db : Kirim} (now : ℕ) (d : DeviceRow) (name : ProviderName) (row : OutboxRow)
      (r : SendResult)
      → Step db (apply_result now d name row r db)
  repeat : {db : Kirim} (now : ℕ) (id : String) → Step db (transaction (retry now id) db).0
  drop_out : {db : Kirim} (now : ℕ) (id : String) → Step db (transaction (cancel now id) db).0
  receipt :
      {db : Kirim} (now : ℕ) (device_id : String) (ids : List String) (r : Receipt)
      → Step db (apply_receipt now device_id ids r db)

pub data Steps : Kirim → Kirim → Type 0 where
  done : {db : Kirim} → Steps db db
  after : {a b c : Kirim} → Steps a b → Step b c → Steps a c

abbrev Grown : Kirim → Kirim → Type 0
Grown db db' = Extends (Evolves may_become) db.outbox db'.outbox

same : (db : Kirim) → Evolved may_become db db
same db = Evolved-refl may_become stays joins db

Grown-Evolved : (db db' : Kirim) → Evolved may_become db db' → Grown db db'
Grown-Evolved db db' h = Pointwise-Extends (Evolves may_become) db.outbox db'.outbox h

-- A change that starts from the one status `from`.
moved :
    (now : ℕ) (c : Change) (from : OutboundStatus) (db : Kirim)
    → c.from_statuses ≡ from ∷ []
    → may_become from c.status ≡ true
    → Evolved may_become db (transition_outbox now c db).0
moved now c from db only ok_move =
    Evolved-transition_outbox may_become stays joins now c db
      (λ o m. subst (λ s. may_become s c.status ≡ true) (sym (at o m)) ok_move)
  where
    at : (o : OutboxRow) → moves c o ≡ true → o.status ≡ from
    at o m =
        same_status_lem o.status from
          (listed (same_status o.status from) (str_eq o.id c.outbox_id) (rw only at m))
      where
        listed : (b c : Bool) → (c && (b || false)) ≡ true → b ≡ true
        listed b c h = ground arith

Evolved-retry :
    (now : ℕ) (id : String) (db : Kirim) → Evolved may_become db (transaction (retry now id) db).0
unfolding retry lock_outbox
Evolved-retry now id db = elim (Option-cases (find? (λ o. str_eq o.message_id id) db.outbox)) [
  | inl e ↦ rw (e, transaction) (same db)
  | inr (o, e) ↦ elim (Bool-cases (same_status o.status gagal && not (never_again o.error_code))) [
    | inl f ↦ rw (e, transaction, f) (moved now (retry_change o) gagal db refl refl)
    | inr f ↦ rw (e, transaction, f) (same db)
  ]
]

Evolved-cancel :
    (now : ℕ) (id : String) (db : Kirim) → Evolved may_become db (transaction (cancel now id) db).0
unfolding cancel lock_outbox
Evolved-cancel now id db = elim (Option-cases (find? (λ o. str_eq o.message_id id) db.outbox)) [
  | inl e ↦ rw (e, transaction) (same db)
  | inr (o, e) ↦ elim (Bool-cases (same_status o.status antre)) [
    | inl f ↦ rw (e, transaction, f) (moved now (cancel_change o) antre db refl refl)
    | inr f ↦ rw (e, transaction, f) (same db)
  ]
]

outbox-advance_device_sent :
    (id : String) (ids : List String) (r : Receipt) (db : Kirim)
    → (advance_device_sent id ids r db).outbox ≡ db.outbox
unfolding advance_device_sent
outbox-advance_device_sent id ids r db = ground arith

Evolved-apply_receipt :
    (now : ℕ) (id : String) (ids : List String) (r : Receipt) (db : Kirim)
    → Evolved may_become db (apply_receipt now id ids r db)
unfolding apply_receipt
Evolved-apply_receipt now id ids r db =
    elim (Option-cases (
      find? (λ o. any (λ m. str_eq m.id o.message_id && sent_as id ids m) db.messages) db.outbox)) [
        | inl e ↦
            rw (e, apply_receipt)
              (subst (λ os. Pointwise (Evolves may_become) db.outbox os)
                (sym (outbox-advance_device_sent id ids r db)) (same db))
        | inr (o, e) ↦ elim (Option-cases (advance_status o.status r)) [
          | inl f ↦ rw (e, f, apply_receipt) (same db)
          | inr (next, f) ↦
              rw (e, f, apply_receipt)
                (moved now (receipt_change o next) o.status db refl (advances o.status r next f))
        ]
      ]

Step-Grown : {db db' : Kirim} → Step db db' → Grown db db'
Step-Grown {db} {db'} (queue o) =
    Extends-append (Evolves may_become) (λ x. (refl, stays x.status)) db.outbox (o ∷ [])
Step-Grown {db} {db'} (sweep now) =
    Grown-Evolved db db' (Evolved-expire_due may_become stays joins refl refl now db)
Step-Grown {db} {db'} (lease now d) =
    Grown-Evolved db db' (Evolved-claim may_become stays joins refl refl now d db)
Step-Grown {db} {db'} (unlease now id) =
    Grown-Evolved db db' (Evolved-release_lease may_become stays joins refl refl now id db)
Step-Grown {db} {db'} (answer now d name row r) =
    Grown-Evolved db db' (Evolved-apply_result may_become stays joins refl refl now d name row r db)
Step-Grown {db} {db'} (repeat now id) = Grown-Evolved db db' (Evolved-retry now id db)
Step-Grown {db} {db'} (drop_out now id) = Grown-Evolved db db' (Evolved-cancel now id db)
Step-Grown {db} {db'} (receipt now id ids r) =
    Grown-Evolved db db' (Evolved-apply_receipt now id ids r db)

-- Under any sequence of sweeps, claims, released leases, provider answers, retries, cancellations, receipts
-- and new messages, each row of the outbox keeps its place and its id, and its status goes where may_become
-- lets it: a message that was handed over, delivered, read or cancelled is never queued again or failed, and
-- the reports on it never go backwards.
pub Steps-never_back :
    {db db' : Kirim} → Steps db db' → Extends (Evolves may_become) db.outbox db'.outbox
Steps-never_back {db} done = Grown-Evolved db db (same db)
Steps-never_back {db} {db'} (after {b = b} h k) =
    Extends-trans (Evolves may_become)
      (λ x y z f g. (g.0 ∙ f.0, joins x.status y.status z.status f.1 g.1)) db.outbox b.outbox
      db'.outbox (Steps-never_back h) (Step-Grown k)
