-- ===== src/Face.antt =====
-- src/pt-security-settings-face.c: the enrolment of a face.
pub mod State
pub mod Write
pub mod Agent
pub mod Frames
pub mod Step
pub mod Thread
pub mod Races
pub mod Paced
pub mod Guarded
pub mod Closed
pub mod Handover
mod Examples
