-- ===== src/Compression.antt =====
-- compression/greedy.py: which events go into a prompt.
pub mod Greedy
pub mod Sorted
pub mod Chosen
pub mod Budget
mod Tests
