-- ===== src/PlatformAdmin/Preserved.antt =====
-- Every operation of platform-admin keeps the tables well formed, whether it succeeds or fails.
use sq_hub.Common.{
  ◌<◌, some, List, [], ◌∷◌, true, false, ◌≡◌, ◌≢◌, refl, arith, Bool-cases, find?, find?-test,
  update_where, upsert, String, inl, inr, All, All-any, All-map, All-append, All-update_where,
  All-upsert, Apart, Apart-append, Apart-update_where, Apart-find?, Apart-upsert, eq_iff,
  transaction_lem, transaction,
}
use sq_hub.Common.Identity.{Identity, Env, same_identity}
use sq_hub.PlatformAdmin.Store.{
  Membership, ProposalRow, ProposalStatus, confirmed, cancelled, Db, GrantInput, of_identity, grant,
  revoke, activated_row, reactivated_row, revoked_row, active_of,
}
use sq_hub.PlatformAdmin.Proposals.{
  ProposeInput, DecideInput, is_pending, has_id, pending_of, lapsed_of, expire_row, proposed_row,
  granted_input, decided_row, confirm, confirm_task, cancel, cancel_task, propose, propose_task,
}
use sq_hub.PlatformAdmin.Invariant.{
  WellFormed, CheckedAdmin, CheckedProposal, same_admin, same_id, both_pending,
  activated_row-Checked, reactivated_row-Checked, revoked_row-Checked, expire_row-Checked,
  confirm_row-Checked, cancel_row-Checked,
}
use sq_hub.PlatformAdmin.Inversion.{
  Confirmed, confirm_inv, Cancelled, cancel_inv, Proposed, propose_inv, swept,
}

module _ (env : Env) (id : String) (input : GrantInput) (rows : List Membership) where
  upsert_unique :
      Apart same_admin rows
      → Apart same_admin (
          upsert
            (of_identity input.identity)
            (activated_row env id input)
            (reactivated_row env input)
            rows)
  upsert_unique a =
      Apart-upsert same_admin (of_identity input.identity) (activated_row env id input)
        (reactivated_row env input) rows (λ x e. e) (λ x y. refl) (λ x y. refl) a

  upsert-Checked :
      All CheckedAdmin rows
      → All CheckedAdmin (
          upsert
            (of_identity input.identity)
            (activated_row env id input)
            (reactivated_row env input)
            rows)
  upsert-Checked h =
      All-upsert CheckedAdmin (of_identity input.identity) (activated_row env id input)
        (reactivated_row env input) rows (activated_row-Checked env id input)
        (λ m _ _. reactivated_row-Checked env input m) h

-- A decision leaves the identifiers alone and no row newly pending.
module _ (env : Env) (status : ProposalStatus) (by : Identity) (id : String)
    (settled : is_pending status ≡ false) (rows : List ProposalRow) where
  decide-ids :
      Apart same_id rows → Apart same_id (update_where (has_id id) (decided_row env status by) rows)
  decide-ids a =
      Apart-update_where same_id (has_id id) (decided_row env status by) rows
        (λ x y e. ground arith) a

  decide-pending :
      Apart both_pending rows
      → Apart both_pending (update_where (has_id id) (decided_row env status by) rows)
  decide-pending a =
      Apart-update_where both_pending (has_id id) (decided_row env status by) rows
        (λ x y e. ground arith) a

-- The row that `lockProposal` finds is the only row with its identifier.
pub only_row :
    (id : String) (rows : List ProposalRow) (p : ProposalRow)
    → Apart same_id rows
    → find? (has_id id) rows ≡ some p
    → All (λ x. has_id p.id x ≡ true → x ≡ p) rows
only_row id rows p a found =
    All-map (λ x. has_id id x ≡ true → x ≡ p) (λ x. has_id p.id x ≡ true → x ≡ p) rows
      (λ x same t. same (rw (← eq) t))
      (Apart-find? same_id (has_id id) rows
        (λ x y s t. ground (arith, eq_iff x.id id, eq_iff y.id id, eq_iff x.id y.id)) a found)
  where
    eq : p.id ≡ id
    eq = (eq_iff p.id id).0 (find?-test (has_id id) rows found)

pub Confirmed-WellFormed :
    {env : Env} {input : DecideInput} {db db' : Db}
    → Confirmed env input db db'
    → WellFormed db
    → WellFormed db'
Confirmed-WellFormed {env} {input} {db} {db'} c w = record {
  admins_unique = rw c.admins (upsert_unique env (env.uuid 0) granted db.admins w.admins_unique);
  admins_checked = rw c.admins (upsert-Checked env (env.uuid 0) granted db.admins w.admins_checked);
  ids_unique =
      rw c.proposals (decide-ids env confirmed input.decider p.id refl db.proposals w.ids_unique);
  one_pending =
      rw c.proposals
        (decide-pending env confirmed input.decider p.id refl db.proposals w.one_pending);
  proposals_checked = rw c.proposals (
      All-update_where CheckedProposal (λ x. has_id p.id x ≡ true → x ≡ p) (has_id p.id)
        (decided_row env confirmed input.decider) db.proposals decided
        (only_row input.proposal_id db.proposals p w.ids_unique c.found) w.proposals_checked);
}
  where
    p : ProposalRow
    p = c.proposal

    granted : GrantInput
    granted = granted_input c.proposal input.actor

    decided :
        (x : ProposalRow)
        → has_id p.id x ≡ true
        → (has_id p.id x ≡ true → x ≡ p)
        → CheckedProposal x
        → CheckedProposal (decided_row env confirmed input.decider x)
    decided x t same k =
        confirm_row-Checked env input.decider x (λ e. c.checked.not_proposer (rw (← same t) e))
          (λ e. c.checked.not_candidate (rw (← same t) e)) k

pub Cancelled-WellFormed :
    {env : Env} {input : DecideInput} {db db' : Db}
    → Cancelled env input db db'
    → WellFormed db
    → WellFormed db'
Cancelled-WellFormed {env} {input} {db} {db'} c w = record {
  admins_unique = rw c.admins w.admins_unique;
  admins_checked = rw c.admins w.admins_checked;
  ids_unique =
      rw c.proposals (decide-ids env cancelled input.decider p.id refl db.proposals w.ids_unique);
  one_pending =
      rw c.proposals
        (decide-pending env cancelled input.decider p.id refl db.proposals w.one_pending);
  proposals_checked = rw c.proposals (
      All-update_where CheckedProposal CheckedProposal (has_id p.id)
        (decided_row env cancelled input.decider) db.proposals
        (λ x _ k _. cancel_row-Checked env input.decider x k) w.proposals_checked
        w.proposals_checked);
}
  where
    p : ProposalRow
    p = c.proposal

module _ (env : Env) (input : ProposeInput) (rows : List ProposalRow) where
  abbrev sweep : List ProposalRow
  sweep = update_where (lapsed_of env input.identity) (expire_row env) rows

  sweep-ids : Apart same_id rows → Apart same_id sweep
  sweep-ids a =
      Apart-update_where same_id (lapsed_of env input.identity) (expire_row env) rows
        (λ x y e. ground arith) a

  sweep-pending : Apart both_pending rows → Apart both_pending sweep
  sweep-pending a =
      Apart-update_where both_pending (lapsed_of env input.identity) (expire_row env) rows
        (λ x y e. ground arith) a

  sweep-Checked : All CheckedProposal rows → All CheckedProposal sweep
  sweep-Checked h =
      All-update_where CheckedProposal CheckedProposal (lapsed_of env input.identity)
        (expire_row env) rows (λ x _ k _. expire_row-Checked env x k) h h

proposed_row-Checked :
    (env : Env) (id : String) (input : ProposeInput)
    → env.db < input.expires_at
    → input.proposer ≢ input.identity
    → CheckedProposal (proposed_row env id input)
proposed_row-Checked env id input lasts not_self = record {
  lasts = lasts;
  not_self = not_self;
  undecided = λ _. (refl, refl, refl);
  decided = λ h. absurd (h refl);
  cancelled_by = λ e. absurd (cc);
  confirmed_by = λ e. absurd (cc);
}

pub Proposed-WellFormed :
    {env : Env} {input : ProposeInput} {db db' : Db}
    → Proposed env input db db'
    → WellFormed db
    → WellFormed db'
Proposed-WellFormed {env} {input} {db} {db'} c w = record {
  admins_unique = rw c.admins w.admins_unique;
  admins_checked = rw c.admins w.admins_checked;
  ids_unique = rw c.proposals (
      Apart-append same_id (swept env input db) row
        (All-any (has_id (env.uuid 0)) (swept env input db) c.fresh)
        (sweep-ids env input db.proposals w.ids_unique));
  one_pending = rw c.proposals (
      Apart-append both_pending (swept env input db) row
        (All-map (λ x. pending_of input.identity x ≡ false) (λ x. both_pending x row ≡ false)
          (swept env input db) (λ x e. ground arith)
          (All-any (pending_of input.identity) (swept env input db) c.alone))
        (sweep-pending env input db.proposals w.one_pending));
  proposals_checked = rw c.proposals (
      All-append CheckedProposal (swept env input db) (row ∷ [])
        (sweep-Checked env input db.proposals w.proposals_checked)
        (proposed_row-Checked env (env.uuid 0) input c.lasts c.not_self, tt));
}
  where
    row : ProposalRow
    row = proposed_row env (env.uuid 0) input

module _ (sha256 : String → String) (env : Env) (db : Db) (w : WellFormed db) where
  -- Confirming a proposal, whatever comes of it, leaves well formed tables well formed.
  pub confirm-WellFormed : (input : DecideInput) → WellFormed (confirm sha256 env input db).0
  unfolding confirm
  confirm-WellFormed input =
      transaction_lem WellFormed (confirm_task sha256 env input) db w
        (λ r db' e. Confirmed-WellFormed (confirm_inv sha256 env input db e) w)

  -- Cancelling a proposal, whatever comes of it, leaves well formed tables well formed.
  pub cancel-WellFormed : (input : DecideInput) → WellFormed (cancel sha256 env input db).0
  unfolding cancel
  cancel-WellFormed input =
      transaction_lem WellFormed (cancel_task sha256 env input) db w
        (λ r db' e. Cancelled-WellFormed (cancel_inv sha256 env input db e) w)

  propose_task-WellFormed :
      (input : ProposeInput) → WellFormed (transaction (propose_task sha256 env input) db).0
  propose_task-WellFormed input =
      transaction_lem WellFormed (propose_task sha256 env input) db w
        (λ r db' e. Proposed-WellFormed (propose_inv sha256 env input db e) w)

  -- Proposing an administrator, whatever comes of it, leaves well formed tables well formed.
  pub propose-WellFormed : (input : ProposeInput) → WellFormed (propose sha256 env input db).0
  unfolding propose
  propose-WellFormed input = elim (Bool-cases (same_identity input.identity input.proposer)) [
    | inl e ↦ rw e w
    | inr e ↦ rw e (propose_task-WellFormed input)
  ]

  -- A grant leaves well formed tables well formed.
  pub grant-WellFormed : (input : GrantInput) → WellFormed (grant sha256 env input db).0
  unfolding grant
  grant-WellFormed input = record {
    admins_unique = upsert_unique env (env.uuid 0) input db.admins w.admins_unique;
    admins_checked = upsert-Checked env (env.uuid 0) input db.admins w.admins_checked;
    ids_unique = w.ids_unique;
    one_pending = w.one_pending;
    proposals_checked = w.proposals_checked;
  }

  -- A revocation, of an administrator or of nobody, leaves well formed tables well formed.
  pub revoke-WellFormed : (input : GrantInput) → WellFormed (revoke sha256 env input db).0
  unfolding revoke
  revoke-WellFormed input = record {
    admins_unique =
        Apart-update_where same_admin (active_of input.identity) (revoked_row env input) db.admins
          (λ x y e. ground arith) w.admins_unique;
    admins_checked =
        All-update_where CheckedAdmin CheckedAdmin (active_of input.identity)
          (revoked_row env input) db.admins (λ m _ _ _. revoked_row-Checked env input m)
          w.admins_checked w.admins_checked;
    ids_unique = w.ids_unique;
    one_pending = w.one_pending;
    proposals_checked = w.proposals_checked;
  }
