-- ===== src/Setup.antt =====
-- src/pt-window.c with src/pt-security-settings.c, src/run-passwd.c and src/cc-language-chooser.c: the
-- parts of the program together.
pub mod State
pub mod Step
pub mod Refines
pub mod Sent
pub mod Held
pub mod Calls
pub mod Applied
pub mod Safety
pub mod Reads
pub mod Ends
pub mod Changes
pub mod Conversation
pub mod OneChange
pub mod Finish
pub mod Examples
