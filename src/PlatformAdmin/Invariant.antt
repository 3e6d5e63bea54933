-- ===== src/PlatformAdmin/Invariant.antt =====
-- What holds of the tables of platform-admin between two transactions: the CHECK constraints and the
-- unique indexes of migrations/0003 and 0012, which the code's own checks keep.
use sq_hub.Common.{
  ◌<◌, none, some, Bool, true, ◌&&◌, ◌≡◌, ◌≢◌, refl, arith, is_some, str_eq, All, Apart, String,
}
use sq_hub.Common.Identity.{Identity, Env, same_identity}
use sq_hub.PlatformAdmin.Store.{
  active, revoked, Membership, ProposalRow, pending, confirmed, cancelled, Db, GrantInput,
  activated_row, reactivated_row, revoked_row,
}
use sq_hub.PlatformAdmin.Proposals.{is_pending, expire_row, decided_row}

abbrev pub same_admin : Membership → Membership → Bool
same_admin a b = same_identity a.identity b.identity

abbrev pub same_id : ProposalRow → ProposalRow → Bool
same_id p q = str_eq p.id q.id

abbrev pub both_pending : ProposalRow → ProposalRow → Bool
both_pending p q =
    is_pending p.status && (is_pending q.status && same_identity p.identity q.identity)

-- CHECK of platform_administrators
pub record CheckedAdmin (m : Membership) : Type 0 where
  pub granted : m.status ≡ active → is_some m.granted_at ≡ true
  pub not_revoked : m.status ≡ active → m.revoked_at ≡ none
  pub revoked_once : m.status ≡ revoked → is_some m.revoked_at ≡ true

-- Somebody other than the proposer and the candidate decided the row.
pub record DecidedByThird (p : ProposalRow) : Type 0 where
  pub decider : Identity
  pub issuer : p.decided_issuer ≡ some decider.issuer
  pub subject : p.decided_subject ≡ some decider.subject
  pub not_proposer : decider ≢ p.proposer
  pub not_candidate : decider ≢ p.identity

-- CHECKs of platform_admin_proposals
pub record CheckedProposal (p : ProposalRow) : Type 0 where
  pub lasts : p.created_at < p.expires_at
  pub not_self : p.proposer ≢ p.identity
  pub undecided :
      p.status ≡ pending
      → (p.decided_at ≡ none) × (p.decided_issuer ≡ none) × (p.decided_subject ≡ none)
  pub decided : p.status ≢ pending → is_some p.decided_at ≡ true
  pub cancelled_by :
      p.status ≡ cancelled → (is_some p.decided_issuer ≡ true) × (is_some p.decided_subject ≡ true)
  pub confirmed_by : p.status ≡ confirmed → DecidedByThird p

pub record WellFormed (db : Db) : Type 0 where
  pub admins_unique : Apart same_admin db.admins
  pub admins_checked : All CheckedAdmin db.admins
  pub ids_unique : Apart same_id db.proposals
  pub one_pending : Apart both_pending db.proposals
  pub proposals_checked : All CheckedProposal db.proposals

-- Rows that an operation writes.

pub activated_row-Checked :
    (env : Env) (id : String) (input : GrantInput) → CheckedAdmin (activated_row env id input)
activated_row-Checked env id input = ground arith

pub reactivated_row-Checked :
    (env : Env) (input : GrantInput) (m : Membership) → CheckedAdmin (reactivated_row env input m)
reactivated_row-Checked env input m = ground arith

pub revoked_row-Checked :
    (env : Env) (input : GrantInput) (m : Membership) → CheckedAdmin (revoked_row env input m)
revoked_row-Checked env input m = ground arith

pub expire_row-Checked :
    (env : Env) (p : ProposalRow) → CheckedProposal p → CheckedProposal (expire_row env p)
expire_row-Checked env p c = record {
  lasts = c.lasts;
  not_self = c.not_self;
  undecided = λ e. absurd (cc);
  decided = λ _. refl;
  cancelled_by = λ e. absurd (cc);
  confirmed_by = λ e. absurd (cc);
}

pub confirm_row-Checked :
    (env : Env) (by : Identity) (p : ProposalRow)
    → by ≢ p.proposer
    → by ≢ p.identity
    → CheckedProposal p
    → CheckedProposal (decided_row env confirmed by p)
confirm_row-Checked env by p h k c = record {
  lasts = c.lasts;
  not_self = c.not_self;
  undecided = λ e. absurd (cc);
  decided = λ _. refl;
  cancelled_by = λ e. absurd (cc);
  confirmed_by = λ _. record {
    decider = by;
    issuer = refl;
    subject = refl;
    not_proposer = h;
    not_candidate = k;
  };
}

pub cancel_row-Checked :
    (env : Env) (by : Identity) (p : ProposalRow)
    → CheckedProposal p
    → CheckedProposal (decided_row env cancelled by p)
cancel_row-Checked env by p c = record {
  lasts = c.lasts;
  not_self = c.not_self;
  undecided = λ e. absurd (cc);
  decided = λ _. refl;
  cancelled_by = λ _. (refl, refl);
  confirmed_by = λ e. absurd (cc);
}
