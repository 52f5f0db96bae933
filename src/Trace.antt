-- ===== src/Trace.antt =====
-- common/run.py: the reader of a trace, `Run`, and its writer, `Unrun`.
pub mod Text
pub mod Numerals
pub mod Dict
pub mod Calls
pub mod Run
pub mod Unrun
pub mod Fields
pub mod Reread
pub mod Allocs
pub mod Maps
pub mod RoundTrip
pub mod Kinds
pub mod Lines
pub mod Counted
pub mod Comments
pub mod Odd
pub mod Tests
