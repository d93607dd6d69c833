-- ===== src/Dashboard.antt =====
-- The dashboard (dashboard/src): the stylesheets of a replay, the dropdown, the Analyze page's
-- reports, and the lists of recordings and logs.
pub mod CssAssets
pub mod Text
pub mod Select
pub mod Analyze
pub mod Sessions
pub mod Logs
