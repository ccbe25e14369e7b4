-- ===== src/Tenants.antt =====
-- Tenants, their users and what a request may touch.
pub mod Slug
pub mod Repo
pub mod Pagination
pub mod Access
pub mod Tests
