-- ===== src/Paths.antt =====
-- src/protocyte/paths.py: portable names of generated files.
pub mod Segment
pub mod Base
pub mod Safe
pub mod Decode
pub mod Budget
pub mod Tests
