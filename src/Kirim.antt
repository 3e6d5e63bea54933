-- ===== src/Kirim.antt =====
-- apps/api/src/modules/kirim: the WhatsApp gateway.
pub mod Policy
pub mod Reactions
pub mod Outbox
pub mod Worker
pub mod Queue
pub mod Webhooks
