-- ===== src/Kirim/Outbox/Evolution.antt =====
-- What one operation on the outbox does to its rows, whatever moves of a status are allowed.
use sq_hub.Common.{
  All, ℕ, ◌≡◌, refl, sym, ◌∙◌, subst, arith, String, none, some, List, [], ◌∷◌, Bool, true, false,
  find?, update_where, str_eq, inl, inr, Bool-cases, Option-cases, Pointwise, Pointwise-refl,
  Pointwise-trans, Pointwise-update_where,
}
use sq_hub.Kirim.Policy.{OutboundStatus}
use sq_hub.Kirim.Outbox.{
  OutboxRow, Kirim, Event, Change, StatusChange, moves, moved_row, same_status, enqueue_webhook,
  enqueue_all, device_moves, device_status, device_status_recipients, message_moves, with_provider,
  change_of, status_event, set_device_status, enqueue_message_status, transition_outbox,
  DeviceStatus,
}

outbox-enqueue_webhook :
    (now : ℕ) (c : String) (e : Event) (db : Kirim)
    → (enqueue_webhook now c e db).outbox ≡ db.outbox
unfolding enqueue_webhook
outbox-enqueue_webhook now c e db = ground arith

outbox-enqueue_all :
    (now : ℕ) (cs : List String) (e : Event) (db : Kirim)
    → (enqueue_all now cs e db).outbox ≡ db.outbox
unfolding enqueue_all
outbox-enqueue_all now [] e db = refl
outbox-enqueue_all now (c ∷ cs) e db =
    outbox-enqueue_all now cs e (enqueue_webhook now c e db) ∙ outbox-enqueue_webhook now c e db

pub outbox-set_device_status :
    (now : ℕ) (id : String) (s : DeviceStatus) (db : Kirim)
    → (set_device_status now id s db).0.outbox ≡ db.outbox
unfolding set_device_status
outbox-set_device_status now id s db = elim (Option-cases (find? (device_moves id s) db.devices)) [
  | inl e ↦ rw (e, set_device_status) refl
  | inr (d, e) ↦
      rw (e, set_device_status)
        (outbox-enqueue_all now (device_status_recipients d moved) (device_status d.kode s) moved)
]
  where
    moved : Kirim
    moved = record db {
      devices =
          update_where (device_moves id s) (λ x. record x { status = s; status_berubah_at = now })
            db.devices;
    }

outbox-enqueue_message_status :
    (now : ℕ) (s : StatusChange) (db : Kirim) → (enqueue_message_status now s db).outbox ≡ db.outbox
unfolding enqueue_message_status
outbox-enqueue_message_status now s db = elim (Option-cases s.owner_consumer_id) [
  | inl e ↦ rw (e, enqueue_message_status) (first)
  | inr (owner, e) ↦ elim (Bool-cases (str_eq owner s.consumer_id)) [
    | inl f ↦ rw (e, enqueue_message_status, f) (first)
    | inr f ↦
        rw (e, enqueue_message_status, f)
          (outbox-enqueue_webhook now owner (status_event s none)
              (enqueue_webhook now s.consumer_id (status_event s s.ref) db)
            ∙ first)
  ]
]
  where
    first : (enqueue_webhook now s.consumer_id (status_event s s.ref) db).outbox ≡ db.outbox
    first = outbox-enqueue_webhook now s.consumer_id (status_event s s.ref) db

module _ (H P : OutboxRow → Type 0) (p : OutboxRow → Bool)
    (left : (o : OutboxRow) → p o ≡ false → H o → P o) where
  All-of_none : (os : List OutboxRow) → find? p os ≡ none → All H os → All P os
  All-of_none [] e h = tt
  All-of_none (o ∷ os) e (h, hs) = elim (Bool-cases (p o)) [
    | inl k ↦ absurd (hit (rw k at e))
    | inr k ↦ (left o k h, All-of_none os (rw k at e) hs)
  ]
    where
      hit : some o ≡ none → ⊥
      hit k = cc

  -- What an update makes of the rows that it meets, and what holds of the others, holds of every row.
  pub All-update_where_of :
      (f : OutboxRow → OutboxRow)
      → ((o : OutboxRow) → p o ≡ true → H o → P (f o))
      → (os : List OutboxRow) → All H os
      → All P (update_where p f os)
  All-update_where_of f made [] h = tt
  All-update_where_of f made (o ∷ os) (h, hs) = elim (Bool-cases (p o)) [
    | inl k ↦ rw k (made o k h, All-update_where_of f made os hs)
    | inr k ↦ rw k (left o k h, All-update_where_of f made os hs)
  ]

-- What a transition makes of the rows that it moves, and what holds of those that it leaves, holds of every row.
pub All-transition_outbox_of :
    (H P : OutboxRow → Type 0) (now : ℕ) (c : Change) (db : Kirim)
    → ((o : OutboxRow) → moves c o ≡ true → H o → P (moved_row now c o))
    → ((o : OutboxRow) → moves c o ≡ false → H o → P o)
    → All H db.outbox
    → All P (transition_outbox now c db).0.outbox
unfolding transition_outbox
All-transition_outbox_of H P now c db made left h =
    elim (Option-cases (find? (moves c) db.outbox)) [
      | inl e ↦ rw (e, transition_outbox) (All-of_none H P (moves c) left db.outbox e h)
      | inr (o, e) ↦
          rw (e, transition_outbox)
            (subst (λ os. All P os) (sym (outbox-enqueue_message_status now (told o) (moved o)))
              (All-update_where_of H P (moves c) left (moved_row now c) made db.outbox h))
    ]
  where
    moved : OutboxRow → Kirim
    moved o = record db {
      outbox = update_where (moves c) (moved_row now c) db.outbox;
      messages =
          update_where (message_moves o.message_id db.devices)
            (with_provider now c.status c.provider) db.messages;
    }

    told : OutboxRow → StatusChange
    told o = change_of c o db.devices (find? (message_moves o.message_id db.devices) db.messages)

-- What holds of every row of the outbox holds after a transition, if the rows that it moves keep it.
pub All-transition_outbox :
    (P : OutboxRow → Type 0) (now : ℕ) (c : Change) (db : Kirim)
    → ((o : OutboxRow) → moves c o ≡ true → P o → P (moved_row now c o))
    → All P db.outbox
    → All P (transition_outbox now c db).0.outbox
All-transition_outbox P now c db keeps h =
    All-transition_outbox_of P P now c db keeps (λ o m k. k) h

-- a row keeps its id, and its status becomes one that `may` allows
abbrev pub Evolves : (OutboundStatus → OutboundStatus → Bool) → OutboxRow → OutboxRow → Type 0
Evolves may o o' = (o'.id ≡ o.id) × (may o.status o'.status ≡ true)

abbrev pub Evolved : (OutboundStatus → OutboundStatus → Bool) → Kirim → Kirim → Type 0
Evolved may db db' = Pointwise (Evolves may) db.outbox db'.outbox

-- A status tested equal to another is that one.
pub same_status_lem : (a b : OutboundStatus) → same_status a b ≡ true → a ≡ b
same_status_lem a b h = ground arith

module _ (may : OutboundStatus → OutboundStatus → Bool)
    (stays : (s : OutboundStatus) → may s s ≡ true)
    (joins : (s t u : OutboundStatus) → may s t ≡ true → may t u ≡ true → may s u ≡ true) where
  pub Evolved-refl : (db : Kirim) → Evolved may db db
  Evolved-refl db = Pointwise-refl (Evolves may) (λ o. (refl, stays o.status)) db.outbox

  pub Evolved-trans : (a b c : Kirim) → Evolved may a b → Evolved may b c → Evolved may a c
  Evolved-trans a b c h k =
      Pointwise-trans (Evolves may)
        (λ x y z f g. (g.0 ∙ f.0, joins x.status y.status z.status f.1 g.1)) a.outbox b.outbox
        c.outbox h k

  -- A change of rows that leaves their id and status alone.
  pub Evolved-update :
      (p : OutboxRow → Bool) (f : OutboxRow → OutboxRow) (db : Kirim)
      → ((o : OutboxRow) → (f o).id ≡ o.id)
      → ((o : OutboxRow) → (f o).status ≡ o.status)
      → Pointwise (Evolves may) db.outbox (update_where p f db.outbox)
  Evolved-update p f db same_id same_st =
      Pointwise-update_where (Evolves may) p f db.outbox (λ o. (refl, stays o.status))
        (λ o _. (same_id o, subst (λ s. may o.status s ≡ true) (sym (same_st o)) (stays o.status)))

  pub Evolved-transition_outbox :
      (now : ℕ) (c : Change) (db : Kirim)
      → ((o : OutboxRow) → moves c o ≡ true → may o.status c.status ≡ true)
      → Evolved may db (transition_outbox now c db).0
  unfolding transition_outbox
  Evolved-transition_outbox now c db h = elim (Option-cases (find? (moves c) db.outbox)) [
    | inl e ↦ rw (e, transition_outbox) (Evolved-refl db)
    | inr (o, e) ↦
        rw (e, transition_outbox)
          (subst (λ os. Pointwise (Evolves may) db.outbox os)
            (sym (outbox-enqueue_message_status now (told o) (moved o)))
            (Pointwise-update_where (Evolves may) (moves c) (moved_row now c) db.outbox
              (λ x. (refl, stays x.status)) (λ x m. (refl, h x m))))
  ]
    where
      moved : OutboxRow → Kirim
      moved o = record db {
        outbox = update_where (moves c) (moved_row now c) db.outbox;
        messages =
            update_where (message_moves o.message_id db.devices)
              (with_provider now c.status c.provider) db.messages;
      }

      told : OutboxRow → StatusChange
      told o = change_of c o db.devices (find? (message_moves o.message_id db.devices) db.messages)
