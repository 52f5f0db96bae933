-- ===== src/RandomFilter.antt =====
-- sim/alloc/RandomFilter.py: a random subset of the objects of a trace.
pub mod Defs
pub mod Coherent
mod Tests
