-- ===== src/PlatformAdmin/Traces.antt =====
-- Everything that a session can do through the Hub, as steps on the tables, and what holds after any
-- number of them.
use sq_hub.Common.{◌≡◌, ◌⊎◌, Some, Some-map, Bool-cases, inl, inr, String, transaction_lem}
use sq_hub.Common.Identity.{Identity, Env, same_identity}
use sq_hub.PlatformAdmin.Store.{confirmed, Db, revoke}
use sq_hub.PlatformAdmin.Proposals.{
  DecideInput, ProposeInput, confirm, cancel, propose, confirm_task, cancel_task, propose_task,
}
use sq_hub.PlatformAdmin.Service.{
  Session, authorized_lem, session_actor, hub_propose, hub_confirm, hub_cancel, hub_revoke,
}
use sq_hub.PlatformAdmin.Invariant.{WellFormed, CheckedProposal, DecidedByThird}
use sq_hub.PlatformAdmin.Inversion.{confirm_inv, cancel_inv, propose_inv}
use sq_hub.PlatformAdmin.Preserved.{
  Confirmed-WellFormed, Cancelled-WellFormed, Proposed-WellFormed, revoke-WellFormed,
}
use sq_hub.PlatformAdmin.FourEyes.{IsAdmin}
use sq_hub.PlatformAdmin.Explains.{
  IsConfirmedFor, HasConfirmed, Explains, Explains-refl, Confirmed-Explains, Cancelled-Explains,
  Proposed-Explains, revoke-Explains,
}

-- One request of the Admin Center; whether it succeeds does not matter.
pub data HubStep (sha256 : String → String) (db db' : Db) : Type 0 where
  proposes :
      (env : Env) (s : Session) (i : Identity) (reason : String)
      → db' ≡ (hub_propose sha256 env s i reason db).0
      → HubStep sha256 db db'
  confirms :
      (env : Env) (s : Session) (id : String)
      → db' ≡ (hub_confirm sha256 env s id db).0
      → HubStep sha256 db db'
  cancels :
      (env : Env) (s : Session) (id : String)
      → db' ≡ (hub_cancel sha256 env s id db).0
      → HubStep sha256 db db'
  revokes :
      (env : Env) (s : Session) (i : Identity) (reason : String)
      → db' ≡ (hub_revoke sha256 env s i reason db).0
      → HubStep sha256 db db'

pub data Reach (sha256 : String → String) (db : Db) : Db → Type 0 where
  here : Reach sha256 db db
  next : {mid last : Db} → Reach sha256 db mid → HubStep sha256 mid last → Reach sha256 db last

-- the invariant of a trace that starts at `first`
record Traced (i : Identity) (first db : Db) : Type 0 where
  wf : WellFormed db
  explained : IsAdmin i db → IsAdmin i first ⊎ HasConfirmed i db

Traced-next :
    (i : Identity) (first db db' : Db)
    → Traced i first db
    → WellFormed db'
    → Explains i db db'
    → Traced i first db'
Traced-next i first db db' t w x = record { wf = w; explained = λ h. chain (x.explains h) }
  where
    kept : IsAdmin i first ⊎ HasConfirmed i db → IsAdmin i first ⊎ HasConfirmed i db'
    kept (inl k) = inl k
    kept (inr k) = inr (x.keeps k)

    chain : IsAdmin i db ⊎ HasConfirmed i db' → IsAdmin i first ⊎ HasConfirmed i db'
    chain (inl k) = kept (t.explained k)
    chain (inr k) = inr k

module _ (sha256 : String → String) (i : Identity) (env : Env) (db : Db) (w : WellFormed db) where
  -- what every request keeps
  abbrev Kept : Db → Type 0
  Kept d = WellFormed d × Explains i db d

  unchanged : Kept db
  unchanged = (w, Explains-refl i db)

  hub_confirm-Kept : (s : Session) (id : String) → Kept (hub_confirm sha256 env s id db).0
  unfolding hub_confirm confirm
  hub_confirm-Kept s id = authorized_lem Kept s (confirm sha256 env input) db unchanged (
      transaction_lem Kept (confirm_task sha256 env input) db unchanged (λ r d e.
        let c = confirm_inv sha256 env input db e in
        (Confirmed-WellFormed c w, Confirmed-Explains i env input db d w c)))
    where
      input : DecideInput
      input = record { proposal_id = id; decider = s.identity; actor = session_actor sha256 s }

  hub_cancel-Kept : (s : Session) (id : String) → Kept (hub_cancel sha256 env s id db).0
  unfolding hub_cancel cancel
  hub_cancel-Kept s id = authorized_lem Kept s (cancel sha256 env input) db unchanged (
      transaction_lem Kept (cancel_task sha256 env input) db unchanged (λ r d e.
        let c = cancel_inv sha256 env input db e in
        (Cancelled-WellFormed c w, Cancelled-Explains i env input db d w c)))
    where
      input : DecideInput
      input = record { proposal_id = id; decider = s.identity; actor = session_actor sha256 s }

  propose-Kept : (input : ProposeInput) → Kept (propose sha256 env input db).0
  unfolding propose
  propose-Kept input = elim (Bool-cases (same_identity input.identity input.proposer)) [
    | inl e ↦ rw e unchanged
    | inr e ↦ rw e (
        transaction_lem Kept (propose_task sha256 env input) db unchanged (λ r d t.
          let c = propose_inv sha256 env input db t in
          (Proposed-WellFormed c w, Proposed-Explains i env input db d c)))
  ]

  hub_propose-Kept :
      (s : Session) (j : Identity) (reason : String) → Kept (hub_propose sha256 env s j reason db).0
  unfolding hub_propose
  hub_propose-Kept s j reason =
      authorized_lem Kept s (propose sha256 env _) db unchanged (propose-Kept _)

  hub_revoke-Kept :
      (s : Session) (j : Identity) (reason : String) → Kept (hub_revoke sha256 env s j reason db).0
  unfolding hub_revoke
  hub_revoke-Kept s j reason =
      authorized_lem Kept s (revoke sha256 env _) db unchanged
        (revoke-WellFormed sha256 env db w _, revoke-Explains sha256 i env _ db)

HubStep-Kept :
    (sha256 : String → String) (i : Identity) {db db' : Db}
    → HubStep sha256 db db'
    → WellFormed db
    → WellFormed db' × Explains i db db'
HubStep-Kept sha256 i {db} (proposes env s j reason e) w =
    rw e (hub_propose-Kept sha256 i env db w s j reason)
HubStep-Kept sha256 i {db} (confirms env s id e) w = rw e (hub_confirm-Kept sha256 i env db w s id)
HubStep-Kept sha256 i {db} (cancels env s id e) w = rw e (hub_cancel-Kept sha256 i env db w s id)
HubStep-Kept sha256 i {db} (revokes env s j reason e) w =
    rw e (hub_revoke-Kept sha256 i env db w s j reason)

Reach-Traced :
    (sha256 : String → String) (i : Identity) {first last : Db}
    → Reach sha256 first last
    → WellFormed first
    → Traced i first last
Reach-Traced sha256 i here w = record { wf = w; explained = λ h. inl h }
Reach-Traced sha256 i {first} (next {mid} {last} r step) w =
    let t = Reach-Traced sha256 i r w in
    let (w', x) = HubStep-Kept sha256 i step t.wf in Traced-next i first mid last t w' x

-- After any requests of the Admin Center on well-formed tables, the tables are well formed, and whoever is
-- an active administrator was one at the start or has a confirmed proposal that a third person, neither
-- its proposer nor the candidate, decided.
pub Reach-explained :
    (sha256 : String → String) (first last : Db) (i : Identity)
    → WellFormed first
    → Reach sha256 first last
    → WellFormed last
      × (IsAdmin i last
          → IsAdmin i first
            ⊎ Some
                (λ p. (p.identity ≡ i) × (p.status ≡ confirmed) × DecidedByThird p)
                last.proposals)
Reach-explained sha256 first last i w r =
    let t = Reach-Traced sha256 i r w in (t.wf, λ h. decided t (t.explained h))
  where
    decided :
        Traced i first last
        → IsAdmin i first ⊎ HasConfirmed i last
        → IsAdmin i first
          ⊎ Some (λ p. (p.identity ≡ i) × (p.status ≡ confirmed) × DecidedByThird p) last.proposals
    decided t (inl h) = inl h
    decided t (inr h) = inr (
        Some-map (IsConfirmedFor i)
          (λ p. (p.identity ≡ i) × (p.status ≡ confirmed) × DecidedByThird p) CheckedProposal
          last.proposals (λ p c (same, k). (same, k, c.confirmed_by k)) t.wf.proposals_checked h)
