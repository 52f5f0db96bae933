-- ===== src/SegFreeList.antt =====
-- sim/SegFreeList.py: free spans, in lists by size and in an index by address.
pub mod Dict
pub mod Defs
pub mod Search
pub mod Spans
pub mod Grow
pub mod Insert
pub mod Classes
pub mod Linked
pub mod Remove
pub mod Expunge
pub mod Order
pub mod Extern
pub mod Ranges
pub mod Expunged
pub mod Numbered
pub mod Resized
mod Tests
