-- ===== src/Caches.antt =====
-- storage/grep_cache.py, storage/read_cache.py, storage/denied_reads.py, storage/write_cache.py,
-- storage/render_ledger.py, storage/symbol_files.py: what the hooks remember.
pub mod Grep
pub mod Covers
pub mod Stale
pub mod Sessions
pub mod Windows
pub mod Writes
pub mod Skeletons
pub mod Shown
mod Tests
mod LedgerTests
