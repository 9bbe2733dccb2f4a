-- ===== src/Webhooks.antt =====
-- Outbound webhooks (linkmoth_webhooks.py): the settings, the persistent queue and its drain.
pub mod Data
pub mod Emit
pub mod Trim
pub mod Shed
pub mod Rows
pub mod Manage
pub mod Target
pub mod Pinned
pub mod Headers
pub mod Masked
pub mod Accepted
pub mod Settle
pub mod Queue
pub mod Event
pub mod Reach
mod Tests
pub mod Drain
