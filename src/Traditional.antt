-- ===== src/Traditional.antt =====
-- sim/TraditionalAllocatorBase.py: an allocator of single objects, in the manner of dlmalloc.
pub mod States
pub mod Defs
pub mod Alloc
pub mod Free
pub mod Revoke
pub mod Pages
pub mod Balanced
pub mod Freeing
pub mod Requests
pub mod Placing
pub mod Served
pub mod Fill
pub mod TidyList
pub mod Kept
pub mod Sound
pub mod Freed
pub mod Allotted
pub mod Reached
pub mod Tidied
pub mod Revoking
pub mod Due
mod Heaps
