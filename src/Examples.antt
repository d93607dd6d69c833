-- ===== src/Examples.antt =====
-- The theorems applied at concrete inputs, and tests of the definitions by evaluation.
mod Scene
mod Visits
mod Batches
mod Network
mod Setups
mod Widgets
mod Dashboards
mod Replays
mod Panels
mod Conversations
mod Deliveries
mod Tables
mod Journals
mod Broadcasts
