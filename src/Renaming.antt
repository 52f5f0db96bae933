-- ===== src/Renaming.antt =====
-- sim/RenamingAllocatorBase.py: an allocator's events under the addresses of the trace, renamed
-- to the addresses that the allocator under it chooses.
pub mod Defs
pub mod Live
pub mod Named
pub mod Sequences
mod Tests
