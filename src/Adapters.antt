-- ===== src/Adapters.antt =====
-- packages/shared/src/adapters: what the clients of Meta's APIs make of a response.
pub mod Whatsapp
pub mod Meta
