-- ===== src/Inbound.antt =====
-- Inbound webhooks (linkmoth_kuma_proxy.py): Uptime Kuma's and the generic one.
pub mod Parse
pub mod Handle
pub mod Silence
mod Tests
