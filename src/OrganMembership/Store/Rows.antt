-- ===== src/OrganMembership/Store/Rows.antt =====
-- apps/api/src/modules/organ-membership/repository.ts: the rows of organ_memberships, the inputs of the operations,
-- and what each statement selects and writes in one row.
use sq_hub.Common.{
  ℕ, String, Option, none, some, List, [], ◌∷◌, Bool, true, false, ◌&&◌, ◌||◌, find?, str_eq,
  if◌then◌else◌,
}
use sq_hub.Common.Identity.{Identity, ActorRef, AuditEvent, Env, same_identity}
use sq_hub.Common.Order.{text_lt, text_le}

pub data Organ : Type 0 where
  pembina pengurus pengawas : Organ

pub data ProvisioningPath : Type 0 where
  existing_staff organ_identity : ProvisioningPath

pub data MembershipStatus : Type 0 where
  active ended : MembershipStatus

pub record Terms : Type 0 where
  pub organ : Organ
  pub position_label : Option String
  pub term_start : String
  pub term_end : Option String

pub record MembershipRow : Type 0 where
  pub id : String
  pub identity : Identity
  pub terms : Terms
  pub status : MembershipStatus
  pub reason : String
  pub provisioning_path : ProvisioningPath
  pub actor : ActorRef
  pub created_at : ℕ
  pub updated_at : ℕ
  pub ended_at : Option ℕ

pub record OrganDb : Type 0 where
  pub memberships : List MembershipRow
  pub audit : List AuditEvent

pub data OrganStoreError : Type 0 where
  conflict not_found : OrganStoreError

abbrev pub is_active : MembershipStatus → Bool
is_active active = true
is_active ended = false

abbrev pub is_organ_identity : ProvisioningPath → Bool
is_organ_identity organ_identity = true
is_organ_identity existing_staff = false

abbrev pub has_row_id : String → MembershipRow → Bool
has_row_id id r = str_eq r.id id

-- the rows that `getActive` selects
abbrev pub active_of : Identity → MembershipRow → Bool
active_of i r = same_identity r.identity i && is_active r.status

abbrev pub get_by_id : String → OrganDb → Option MembershipRow
get_by_id id db = find? (has_row_id id) db.memberships

abbrev pub in_term : String → Terms → Bool
in_term today t =
    text_le t.term_start today && elim t.term_end [ none ↦ true | some e ↦ text_lt today e ]

-- The primary key, and the index of the one active membership: either gives a unique violation.
abbrev pub collides : MembershipRow → MembershipRow → Bool
collides x y =
    str_eq x.id y.id
    || (same_identity x.identity y.identity && (is_active x.status && is_active y.status))

abbrev pub organ_text : Organ → String
organ_text pembina = "pembina"
organ_text pengurus = "pengurus"
organ_text pengawas = "pengawas"

abbrev pub path_text : ProvisioningPath → String
path_text existing_staff = "existing_staff"
path_text organ_identity = "organ_identity"

abbrev pub membership_payload : MembershipRow → String → List (String × Option String)
membership_payload r reason =
    ("membershipId", some r.id)
    ∷ ("organ", some (organ_text r.terms.organ))
    ∷ ("positionLabel", r.terms.position_label)
    ∷ ("termStart", some r.terms.term_start)
    ∷ ("termEnd", r.terms.term_end)
    ∷ ("provisioningPath", some (path_text r.provisioning_path))
    ∷ ("reason", some reason)
    ∷ []

-- `...(input.source ? { source: input.source } : {})`
abbrev pub source_payload : Option String → List (String × Option String)
source_payload none = []
source_payload (some s) = if str_eq s "" then [] else ("source", some s) ∷ []

pub record CreateInput : Type 0 where
  pub identity : Identity
  pub terms : Terms
  pub reason : String
  pub provisioning_path : ProvisioningPath
  pub actor : ActorRef

pub record ChangeInput : Type 0 where
  pub id : String
  pub terms : Terms
  pub reason : String
  pub actor : ActorRef

pub record EndInput : Type 0 where
  pub id : String
  pub reason : String
  pub actor : ActorRef
  pub source : Option String

abbrev pub new_membership : Env → CreateInput → MembershipRow
new_membership env input = record {
  id = env.uuid 0;
  identity = input.identity;
  terms = input.terms;
  status = active;
  reason = input.reason;
  provisioning_path = input.provisioning_path;
  actor = input.actor;
  created_at = env.db;
  updated_at = env.db;
  ended_at = none;
}

abbrev pub active_row : String → MembershipRow → Bool
active_row id r = str_eq r.id id && is_active r.status

abbrev pub changed : Env → ChangeInput → MembershipRow → MembershipRow
changed env input r = record r {
  terms = input.terms;
  reason = input.reason;
  actor = input.actor;
  updated_at = env.db;
}

abbrev pub ended_row : Env → EndInput → MembershipRow → MembershipRow
ended_row env input r = record r {
  status = ended;
  ended_at = some env.db;
  reason = input.reason;
  actor = input.actor;
  updated_at = env.db;
}

abbrev pub of_path_b : Identity → MembershipRow → Bool
of_path_b i r = same_identity r.identity i && is_organ_identity r.provisioning_path

abbrev pub as_existing_staff : Env → MembershipRow → MembershipRow
as_existing_staff env r = record r { provisioning_path = existing_staff; updated_at = env.db }
