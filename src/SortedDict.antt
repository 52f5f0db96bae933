-- ===== src/SortedDict.antt =====
-- The `SortedDict` of the sortedcontainers package, with natural numbers as keys. The package is
-- not part of the repository: its operations are a parameter, and what the program relies on are
-- the laws of this record, each of which gives the effect of one operation on `d.items()`.
pub mod Items
mod Defs
pub mod Assoc
pub mod Located
pub use Defs.{SortedDict, key_of}
