-- ===== src/Evidence.antt =====
-- storage/cursors.py, storage/evidence.py, integration/session.py: transcripts are stored as chains
-- of deltas.
pub mod Lines
pub mod Splitting
pub mod Cursors
pub mod Chain
pub mod Reload
pub mod Marks
pub mod Storing
pub mod RoundTrip
pub mod Overlap
pub mod Dedup
pub mod Advance
pub mod Fuel
mod Tests
