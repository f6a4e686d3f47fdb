-- ===== src/Window.antt =====
-- src/pt-window.c: the window, its pages and the commits at its end.
pub mod State
pub mod Appearance
pub mod Scaling
pub mod Pages
pub mod Skip
pub mod Commits
pub mod Step
pub mod Exit
pub mod Safety
pub mod Skipped
pub mod Buttons
mod Examples
pub mod Shown
pub mod Opacity
