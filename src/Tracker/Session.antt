-- ===== src/Tracker/Session.antt =====
-- The visit's life cycle in tracker/src/main.ts: buffering and flushing, the recorder, pings, the
-- start of a visit from the stored one, its end, its split, and the handlers of the timers and the
-- page's events. Each handler takes the environment and the state, and returns the new state.
pub mod Record
pub mod Visit
pub mod Start
pub mod Run
pub mod Bounds
pub mod Lifetime
pub mod Delivery
pub mod Ends
pub mod Splits
pub mod Keys
pub mod Distinct
pub mod Stored
pub mod Tab
