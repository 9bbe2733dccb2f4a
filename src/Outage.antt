-- ===== src/Outage.antt =====
-- Network-wide outages: the alerts that are held back (linkmoth_kuma_proxy.py) and the tracker that
-- decides when an outage begins and ends (linkmoth_outage.py).
pub mod Store
pub mod Digest
pub mod Tracker
pub mod Recovery
pub mod Cleared
pub mod Kept
pub mod Liveness
mod Tests
