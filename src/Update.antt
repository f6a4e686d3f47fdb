-- ===== src/Update.antt =====
-- src/pt-update-progress.c: the update page.
pub mod State
pub mod Transaction
pub mod Provision
pub mod Time
pub mod Step
pub mod Invariant
pub mod Ready
pub mod Repairs
pub mod Outcome
pub mod Failures
pub mod Conflicts
pub mod Clock
pub mod Rounds
mod Examples
pub mod Verdict
pub mod Properties
