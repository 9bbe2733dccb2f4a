-- ===== src/Devices.antt =====
-- LAN device monitoring (linkmoth_devices.py): validation, the debounced state of a device, the
-- check slots and the schedule.
pub mod Data
pub mod Validate
pub mod Check
pub mod Debounce
pub mod Manager
pub mod Schedule
pub mod Alternation
pub mod History
pub mod Slots
pub mod Settled
mod Tests
