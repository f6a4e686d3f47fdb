-- ===== src/Passwd.antt =====
-- src/run-passwd.c: a password is changed by the program `passwd`, run in the background. It is fed from
-- a queue, and what it prints decides what is going on.
pub mod State
pub mod Messages
pub mod Process
pub mod Watch
pub mod Verdicts
pub mod Resources
pub mod Output
