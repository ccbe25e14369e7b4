-- ===== src/Processing.antt =====
-- The handlers that match an event against automations, packages/shared/src/handlers/process*.ts:
-- what they share, and one module for each.
pub mod Loop
pub mod Dm
pub mod Comment
pub mod Whatsapp
pub mod Tests
