-- ===== src/Common/Identity.antt =====
-- The types that the modules of apps/api/src share: identities, actors and audit events
-- (apps/api/src/modules/application-access/types.ts), and what a request takes from outside.
use Prim.Native.Nat.{ℕ}
use Prim.Native.String.{String}
use mathlib.Core.Path.{◌≡◌, refl}
use mathlib.Core.Logic.{◌↔◌}
use mathlib.Core.Bool.{Bool, true, ◌&&◌}
use mathlib.Core.Option.{Option}
use mathlib.Core.List.{List}
use native.Mathlib.Omega.{arith}
use text.Mathlib.Text.{◌==◌ as str_eq}
use text.Mathlib.TextEquality.{eq_iff}

pub record Identity : Type 0 where
  pub issuer : String
  pub subject : String

pub data ActorKind : Type 0 where
  human service system : ActorKind

pub record ActorRef : Type 0 where
  pub kind : ActorKind
  pub ref : String

pub data Outcome : Type 0 where
  succeeded failed noop : Outcome

-- A row of platform_audit_events; a payload value is a text or null.
pub record AuditEvent : Type 0 where
  pub id : String
  pub actor : ActorRef
  pub action : String
  pub target_type : String
  pub target_ref : String
  pub outcome : Outcome
  pub payload : List (String × Option String)
  pub occurred_at : ℕ

-- What one request reads from outside: the clock of the Node process and `now()` of the database,
-- both in milliseconds, and the identifiers that `randomUUID` returns, by their order.
pub record Env : Type 0 where
  pub node : ℕ
  pub db : ℕ
  pub uuid : ℕ → String

unfoldable pub same_identity : Identity → Identity → Bool
same_identity a b = str_eq a.issuer b.issuer && str_eq a.subject b.subject

pub same_identity_iff : (a b : Identity) → (same_identity a b ≡ true) ↔ (a ≡ b)
unfolding same_identity
same_identity_iff a b = ground (arith, eq_iff a.issuer b.issuer, eq_iff a.subject b.subject)

pub same_identity_refl : (a : Identity) → same_identity a a ≡ true
same_identity_refl a = (same_identity_iff a a).1 refl

pub same_identity_sym : (a b : Identity) → same_identity a b ≡ same_identity b a
same_identity_sym a b = ground (arith, same_identity_iff a b, same_identity_iff b a)
