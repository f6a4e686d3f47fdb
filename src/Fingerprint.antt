-- ===== src/Fingerprint.antt =====
-- src/pt-security-settings-fingerprint.c: the enrolment of a finger.
pub mod State
pub mod Signals
pub mod Step
pub mod Fingers
pub mod Shown
mod Examples
