-- ===== src/Network.antt =====
-- src/cc-network-list.c: the Wi-Fi page.
pub mod Points
pub mod Rows
pub mod Connect
pub mod Chosen
pub mod Active
pub mod Indicator
pub mod Timer
pub mod Strongest
pub mod Unique
mod Examples
