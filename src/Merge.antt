-- ===== src/Merge.antt =====
-- delta/merge.py, delta/decay.py, delta/cascade.py, quality/gate.py: the merge at a session's end.
pub mod World
pub mod Gate
pub mod Ingest
pub mod Decay
pub mod Cascade
pub mod Supersede
pub mod Run
pub mod Archive
pub mod Gates
pub mod Admission
pub mod Commit
pub mod Untouched
pub mod Linked
pub mod Stored
pub mod Between
pub mod Replay
pub mod Program
mod Tests
