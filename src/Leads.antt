-- ===== src/Leads.antt =====
-- packages/shared/src/handlers/leads: what the web application does to leads.
pub mod Tags
pub mod Capture
