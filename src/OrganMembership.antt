-- ===== src/OrganMembership.antt =====
-- apps/api/src/modules/organ-membership: who sits in an organ of the foundation, and for which term.
pub mod Store
pub mod Seats
pub mod Service
mod Tests
