-- ===== src/Tracker.antt =====
-- The browser tracker, tracker/src/main.ts.
pub mod Config
pub mod Logs
pub mod Message
pub mod State
pub mod Session
pub mod Transport
pub mod Handle
pub mod Ids
pub mod Init
pub mod Widget
