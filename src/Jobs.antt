-- ===== src/Jobs.antt =====
-- storage/jobs.py: the staged extraction queue, and what holds of it.
pub mod Row
pub mod Queue
pub mod Recovery
pub mod Calls
pub mod Changes
pub mod Validity
pub mod Lifecycle
pub mod Claims
pub mod Enqueue
pub mod Orphans
pub mod Listing
mod Tests
