-- ===== src/NoReuse.antt =====
-- sim/alloc/NoReuse.py: an allocator that gives no address twice.
pub mod Defs
pub mod First
mod Tests
