-- ===== src/Projection.antt =====
-- storage/projections.py, storage/consolidate.py, injection/ordering.py: what of the event log a
-- prompt shows, and under which heading.
pub mod Consolidate
pub mod Mentions
pub mod Ordering
pub mod Paths
pub mod Build
pub mod Reload
pub mod Current
pub mod Pick
pub mod Sections
mod Tests
mod ViewTests
