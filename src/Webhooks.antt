-- ===== src/Webhooks.antt =====
-- packages/shared/src/meta and packages/shared/src/handlers/webhooks: what a webhook delivery becomes.
pub mod Json
pub mod Schemas
pub mod Signature
pub mod Parser
pub mod Ingest
pub mod Meta
pub mod Tests
