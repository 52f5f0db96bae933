-- ===== src/IntervalMap.antt =====
-- common/intervalmap.py: `IntervalMap`, a piecewise constant function on an interval of the
-- natural numbers. `Defs` has the state, the constructor and the readers, `Mark` the update, and
-- the other modules the proofs.
pub mod Defs
pub mod Mark
pub mod Get
pub mod Tiles
pub mod Paint
pub mod Coalesce
pub mod Aligned
pub mod Absorb
pub mod Inner
pub mod Overlap
pub mod AtBase
pub mod Inside
pub mod Unaligned
pub mod Correct
pub mod Update
pub mod Refines
pub mod Limits
pub mod Widen
mod Tests
pub mod Counts
pub mod Slices
pub mod Edges
pub mod Maximal
pub mod Listing
pub mod Carved
pub mod Pieces
pub mod Interface
pub mod Filled
