-- ===== src/Diagnosis.antt =====
-- The fault ladder of linkmoth_probes.py: its rungs, the verdict on a run and the confidence in it,
-- and the test for a network-wide outage of linkmoth_kuma_proxy.py.
pub mod Check
pub mod Probes
pub mod Ladder
pub mod Verdict
pub mod Rules
pub mod Global
pub mod Quality
pub mod Blame
pub mod Shape
pub mod Cache
pub mod Flight
pub mod Faults
pub mod Agreement
pub mod Grades
mod Tests
