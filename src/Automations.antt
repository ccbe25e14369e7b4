-- ===== src/Automations.antt =====
-- packages/shared/src/handlers/automations: what the web application does to automations.
pub mod Preview
pub mod Duplicate
pub mod Tests
