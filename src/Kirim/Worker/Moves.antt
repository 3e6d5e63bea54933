-- ===== src/Kirim/Worker/Moves.antt =====
-- How a round of the send worker moves the rows of the outbox.
use sq_hub.Common.{
  ℕ, suc, leb, ◌+◌, ◌≡◌, refl, subst, sym, arith, String, Option, none, some, List, [], ◌∷◌, Bool,
  true, false, ◌||◌, ◌&&◌, ltb, keep, update_where, str_eq, inl, inr, Bool-cases, Option-cases,
  Result, Result-cases, ok, err, transaction, transaction_lem, length, Pointwise,
}
use sq_hub.Kirim.Policy.{
  OutboundStatus, antre, diserahkan, gagal, WindowDecision, send, wait, expire, window_decision,
  rate_allows,
}
use sq_hub.Kirim.Outbox.{
  ErrorCode, ProviderName, OutboxRow, DeviceRow, Kirim, same_status, terputus, transition_outbox,
}
use sq_hub.Kirim.Outbox.Evolution.{
  Evolves, Evolved, Evolved-refl, Evolved-trans, Evolved-update, Evolved-transition_outbox,
  outbox-set_device_status, same_status_lem,
}
use sq_hub.Kirim.Worker.{
  take, lease_ms, WorkerError, SendResult, handed_over, rejected, retryable, device_disconnected,
  Candidate, is_antre, expire_all, expire_due, expired_change, set_next_attempt, claim_first, claim,
  candidates, release_lease, apply_result, pause_device, schedule_retry, fail, handed_over_change,
  failed_change, next_delay, decision_input,
}
use sq_hub.Kirim.Worker.Rounds.{
  after_claim, sendable, is_recent, send_time, Round, Setup, serve, serve_all, run_once,
}

-- the moves of the worker: a waiting row fails or is handed over, all others stay
abbrev pub worker_may : OutboundStatus → OutboundStatus → Bool
worker_may antre t = same_status t antre || (same_status t gagal || same_status t diserahkan)
worker_may s t = same_status s t

module _ (may : OutboundStatus → OutboundStatus → Bool)
    (stays : (s : OutboundStatus) → may s s ≡ true)
    (joins : (s t u : OutboundStatus) → may s t ≡ true → may t u ≡ true → may s u ≡ true)
    (fails : may antre gagal ≡ true) (hands : may antre diserahkan ≡ true) where
  from_antre :
      (t : OutboundStatus)
      → may antre t ≡ true
      → (o : OutboxRow) (id : String)
      → (str_eq o.id id && (same_status o.status antre || false)) ≡ true
      → may o.status t ≡ true
  from_antre t h o id m =
      subst (λ s. may s t ≡ true) (sym (same_status_lem o.status antre (ground arith))) h

  Evolved-expired :
      (now : ℕ) (id : String) (db : Kirim)
      → Evolved may db (transition_outbox now (expired_change id) db).0
  Evolved-expired now id db =
      Evolved-transition_outbox may stays joins now (expired_change id) db
        (λ o m. from_antre gagal fails o id m)

  Evolved-expire_all :
      (now : ℕ) (os : List OutboxRow) (db : Kirim) → Evolved may db (expire_all now os db)
  unfolding expire_all
  Evolved-expire_all now [] db = Evolved-refl may stays joins db
  Evolved-expire_all now (o ∷ os) db =
      let next = (transition_outbox now (expired_change o.id) db).0 in
      Evolved-trans may stays joins db next (expire_all now os next) (Evolved-expired now o.id db)
        (Evolved-expire_all now os next)

  pub Evolved-expire_due : (now : ℕ) (db : Kirim) → Evolved may db (expire_due now db).0
  unfolding expire_due
  Evolved-expire_due now db =
      Evolved-expire_all now (take 200 (keep (λ o. is_antre o && leb o.expires_at now) db.outbox))
        db

  Evolved-set_next_attempt :
      (now : ℕ) (id : String) (next : ℕ) (db : Kirim)
      → Evolved may db (set_next_attempt now id next db)
  unfolding set_next_attempt
  Evolved-set_next_attempt now id next db =
      Evolved-update may stays joins _ _ db (λ o. refl) (λ o. refl)

  pub Evolved-release_lease :
      (now : ℕ) (id : String) (db : Kirim) → Evolved may db (release_lease now id db)
  unfolding release_lease
  Evolved-release_lease now id db = Evolved-update may stays joins _ _ db (λ o. refl) (λ o. refl)

  Evolved-fail :
      (now : ℕ) (row : OutboxRow) (code : ErrorCode) (db : Kirim)
      → Evolved may db (fail now row code db)
  unfolding fail
  Evolved-fail now row code db =
      Evolved-transition_outbox may stays joins now (failed_change row code) db
        (λ o m. from_antre gagal fails o row.id m)

  Evolved-pause_device :
      (now : ℕ) (device : DeviceRow) (row : OutboxRow) (db : Kirim)
      → Evolved may db (pause_device now device row db)
  unfolding pause_device
  Evolved-pause_device now device row db =
      subst (λ os. Pointwise (Evolves may) db.outbox os)
        (sym (outbox-set_device_status now device.id terputus paused))
        (Evolved-update may stays joins _ _ db (λ o. refl) (λ o. refl))
    where
      paused : Kirim
      paused = record db {
        outbox =
            update_where (λ o. str_eq o.id row.id && is_antre o)
              (λ o. record o { next_attempt_at = now; updated_at = now }) db.outbox;
      }

  pub Evolved-apply_result :
      (now : ℕ) (device : DeviceRow) (name : ProviderName) (row : OutboxRow) (r : SendResult)
      (db : Kirim)
      → Evolved may db (apply_result now device name row r db)
  unfolding apply_result schedule_retry
  Evolved-apply_result now device name row (handed_over id dry) db =
      Evolved-transition_outbox may stays joins now (handed_over_change row name id dry) db
        (λ o m. from_antre diserahkan hands o row.id m)
  Evolved-apply_result now device name row device_disconnected db =
      Evolved-pause_device now device row db
  Evolved-apply_result now device name row (rejected code) db = Evolved-fail now row code db
  Evolved-apply_result now device name row (retryable code) db =
      elim (Option-cases (next_delay (suc row.attempts))) [
        | inl e ↦ rw (e, apply_result) (Evolved-fail now row code db)
        | inr (delay, e) ↦
            rw (e, apply_result) (Evolved-update may stays joins _ _ db (λ o. refl) (λ o. refl))
      ]

  -- what holds of the state after a claim that did not throw
  abbrev Claims : (Kirim → Type 0) → Result WorkerError (Option Candidate × Kirim) → Type 0
  Claims P (ok (found, db)) = P db
  Claims P (err e) = Unit

  Evolved-claim_first :
      (now : ℕ) (device : DeviceRow) (cs : List Candidate) (start db : Kirim)
      → Evolved may start db
      → Claims (Evolved may start) (claim_first now device cs db)
  unfolding claim_first
  Evolved-claim_first now device [] start db h = h
  Evolved-claim_first now device (c ∷ cs) start db h =
      elim (Option-cases (window_decision (decision_input now device c))) [
        | inl e ↦ rw (e, claim_first) tt
        | inr (d, e) ↦ decided (λ x k. Evolved-claim_first now device cs start x k) d e
      ]
    where
      later : (db' : Kirim) → Evolved may db db' → Evolved may start db'
      later db' k = Evolved-trans may stays joins start db db' h k

      decided :
          ((x : Kirim)
            → Evolved may start x
            → Claims (Evolved may start) (claim_first now device cs x))
          → (d : WindowDecision) → window_decision (decision_input now device c) ≡ some d
          → Claims (Evolved may start) (claim_first now device (c ∷ cs) db)
      decided more expire e =
          rw (e, claim_first)
            (more (transition_outbox now (expired_change c.row.id) db).0 (
              later (transition_outbox now (expired_change c.row.id) db).0
                (Evolved-expired now c.row.id db)))
      decided more (wait until) e =
          rw (e, claim_first)
            (more (set_next_attempt now c.row.id until db) (
              later (set_next_attempt now c.row.id until db)
                (Evolved-set_next_attempt now c.row.id until db)))
      decided more send e =
          rw (e, claim_first)
            (later (set_next_attempt now c.row.id (now + lease_ms) db)
              (Evolved-set_next_attempt now c.row.id (now + lease_ms) db))

  pub Evolved-claim :
      (now : ℕ) (device : DeviceRow) (db : Kirim)
      → Evolved may db (transaction (claim now device) db).0
  unfolding claim
  Evolved-claim now device db =
      transaction_lem (Evolved may db) (claim now device) db (Evolved-refl may stays joins db)
        (λ found db' e. subst (Claims (Evolved may db)) e (
          Evolved-claim_first now device (candidates now device db) db db
            (Evolved-refl may stays joins db)))

  Evolved-after_claim :
      (s : Setup) (d : DeviceRow) (w : Round) (start : Kirim)
      (claimed : Kirim × Result WorkerError (Option Candidate))
      → Evolved may start claimed.0
      → Evolved may start (after_claim s d w claimed).0.db
  unfolding after_claim
  Evolved-after_claim s d w start (db, err e) h = h
  Evolved-after_claim s d w start (db, ok none) h = h
  Evolved-after_claim s d w start (db, ok (some c)) h = elim (Bool-cases (s.provides d.provider)) [
    | inl e ↦
        let next = apply_result s.now d d.provider c.row (s.deliver d c) db in
        rw (e, after_claim)
          (Evolved-trans may stays joins start db next h
            (Evolved-apply_result s.now d d.provider c.row (s.deliver d c) db))
    | inr e ↦
        rw (e, after_claim)
          (Evolved-trans may stays joins start db (release_lease s.now c.row.id db) h
            (Evolved-release_lease s.now c.row.id db))
  ]

  pub Evolved-serve : (s : Setup) (d : DeviceRow) (w : Round) → Evolved may w.db (serve s d w).0.db
  unfolding serve
  Evolved-serve s d w = elim (Bool-cases (ltb s.node (send_time w.next_send_at d.id))) [
    | inl e ↦ rw (e, serve) (Evolved-refl may stays joins w.db)
    | inr e ↦
        elim (Bool-cases
          (rate_allows (length (keep (is_recent s.now d.id) w.db.messages)) d.rate_per_menit)) [
            | inl f ↦
                rw (e, f, serve)
                  (Evolved-after_claim s d w w.db (transaction (claim s.now d) w.db)
                    (Evolved-claim s.now d w.db))
            | inr f ↦ rw (e, f, serve) (Evolved-refl may stays joins w.db)
          ]
  ]

  Evolved-serve_all :
      (s : Setup) (ds : List DeviceRow) (w : Round) → Evolved may w.db (serve_all s ds w).0.db
  unfolding serve_all
  Evolved-serve_all s [] w = Evolved-refl may stays joins w.db
  Evolved-serve_all s (d ∷ ds) w = elim (Result-cases (serve s d w).1) [
    | inl (u, e) ↦
        rw (e, serve_all)
          (Evolved-trans may stays joins w.db (serve s d w).0.db
            (serve_all s ds (serve s d w).0).0.db (Evolved-serve s d w)
            (Evolved-serve_all s ds (serve s d w).0))
    | inr (x, e) ↦ rw (e, serve_all) (Evolved-serve s d w)
  ]

  -- A round of the worker keeps every row of the outbox in its place, with its id, and moves its status only
  -- as `may` allows, where `may` is a preorder that allows a waiting row to fail and to be handed over.
  pub Evolved-run_once : (s : Setup) (w : Round) → Evolved may w.db (run_once s w).0.db
  unfolding run_once
  Evolved-run_once s w =
      let db = (expire_due s.now w.db).0 in
      let w' = record w { db = db; sent = 0 } in
      let ds = keep (sendable s.now db) db.devices in
      Evolved-trans may stays joins w.db db (serve_all s ds w').0.db (Evolved-expire_due s.now w.db)
        (Evolved-serve_all s ds w')

-- Whatever the provider answers, a round of the worker keeps every row of the outbox in its place, with its
-- id; only a row that waits changes its status, and it fails or is handed over.
pub run_once-moves :
    (s : Setup) (w : Round) → Pointwise (Evolves worker_may) w.db.outbox (run_once s w).0.db.outbox
run_once-moves = Evolved-run_once worker_may stays joins refl refl
  where
    stays : (s : OutboundStatus) → worker_may s s ≡ true
    stays s = ground arith

    joins :
        (s t u : OutboundStatus)
        → worker_may s t ≡ true
        → worker_may t u ≡ true
        → worker_may s u ≡ true
    joins s t u h k = ground arith
