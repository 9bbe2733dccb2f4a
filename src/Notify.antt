-- ===== src/Notify.antt =====
-- Notifications (linkmoth_notify.py): quiet hours, the alerts that they defer, the recovery notice and
-- the dashboard's inbox.
pub mod Quiet
pub mod Clock
pub mod Hours
pub mod Deferred
pub mod Summary
pub mod Recovery
pub mod Dedupe
pub mod Inbox
mod Tests
