-- ===== src/PlatformAdmin.antt =====
-- Platform administrators (apps/api/src/modules/platform-admin): the membership table and its audit
-- trail, the proposals that two administrators decide, and the service that authorizes a session.
pub mod Store
pub mod Proposals
pub mod Service
pub mod Invariant
pub mod Inversion
pub mod Preserved
pub mod Keys
pub mod FourEyes
pub mod Sessions
pub mod Explains
pub mod Traces
mod Tests
