-- ===== src/Highlevel.antt =====
-- Package highlevel.
pub mod Routes
pub mod Methods
pub mod Inbox
pub mod Tracking
pub mod Serve
pub mod Reads
pub mod Writes
mod Examples
