-- ===== src/Whatsapp.antt =====
-- The pure parts of packages/shared/src/whatsapp.
pub mod ServiceWindow
pub mod Rates
pub mod StopKeywords
