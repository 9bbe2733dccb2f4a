-- ===== src/Incidents.antt =====
-- Incidents: the outage intervals of linkmoth_core.py, and the part of linkmoth_engine.py that opens,
-- rechecks and closes an incident.
pub mod Data
pub mod Segments
pub mod Store
pub mod Mirror
pub mod Told
pub mod Accounts
pub mod Kept
pub mod Agreement
pub mod Derived
pub mod Engine
pub mod Single
pub mod Calls
pub mod Loop
pub mod Rechecks
pub mod Measure
pub mod Seconds
mod Tests
