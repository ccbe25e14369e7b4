-- ===== src/Templates.antt =====
-- packages/shared/src/handlers/whatsappTemplates: message templates and Meta's review of them.
pub mod StatusWebhook
