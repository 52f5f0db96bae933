-- ===== src/Clingy.antt =====
-- sim/ClingyAllocatorBase.py: an allocator of buckets, each of one size class.
pub mod Sizes
mod Tests
pub mod States
pub mod Defs
pub mod Alloc
pub mod Free
pub mod Realloc
pub mod Accounts
pub mod Placing
pub mod OfMap
pub mod Junking
pub mod Large
pub mod Freeing
pub mod Fit
mod Heaps
pub mod Revoke
pub mod Greatest
pub mod Due
