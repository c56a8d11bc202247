-- ===== src/Events.antt =====
-- model.py, storage/events.py: the event log and the supersession links between its rows.
pub mod Row
pub mod Links
pub mod Chains
pub mod Acyclic
mod Tests
