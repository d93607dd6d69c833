-- ===== src/Panel.antt =====
-- The widget's own interface (tracker/src/widget.ts), as far as it is modelled.
pub mod Connection
pub mod Tickets
pub mod Campaigns
pub mod Announcements
