-- ===== src/Security.antt =====
-- src/pt-security-settings.c: the password page, which drives the change of the password.
pub mod Entry
pub mod Groups
pub mod Apply
pub mod Protocol
pub mod Stale
mod Examples
