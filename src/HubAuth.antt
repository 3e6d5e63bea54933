-- ===== src/HubAuth.antt =====
-- apps/api/src/modules/hub-auth: signing in at the Hub and the sessions of the Hub.
pub mod Store
pub mod Service
pub mod Creation
pub mod Sessions
pub mod Cookies
pub mod Logins
pub mod Issuers
pub mod Replacements
pub mod Entries
mod Tests
