-- ===== src/Lib.antt =====
-- A verification library for the memory allocator analysis tools: models of the program's components
-- in Python, and theorems about them.
--
-- Parts. An `IntervalMap` (common/intervalmap.py) keeps a piecewise constant function on an interval
-- of the natural numbers; the allocator models of sim/ use it for the states of buckets, segments and
-- pages. `RenamingAllocatorBase` (sim/RenamingAllocatorBase.py) is what the allocator models inherit: it
-- takes the events of a trace, calls the allocator's own `_alloc`, `_free`, `_try_realloc` and
-- `_maybe_revoke`, and publishes the events under the allocator's addresses. `ClingyAllocatorBase`
-- (sim/ClingyAllocatorBase.py) is such an allocator, of buckets of one size class each.
-- `SegFreeListBase` (sim/SegFreeList.py) keeps the free spans of an allocator, in lists by size.
--
-- IntervalMap.antt and the files below it model common/intervalmap.py. `Defs` has the object's fields
-- as the record `IntervalMap`, `__init__` as `init`, and `__getitem__` as `get_item` (a number) and
-- `get_slice` (a slice). `Mark` has `mark`, cut at its stages: `mark_body` is the method, with
-- `self.mark` as an argument; `mark_unaligned` is the branch where loc is no key, `mark_aligned` what
-- follows from `if sz == szex`, `absorb` the loop, `coalesce` and `coalesce_left` the blocks at the end.
-- The calls of `self.vcc` are recorded in the field `changes`, so a callback is taken to return and to
-- leave the map alone. A method that raises hands back the object as it stood then (`Outcome`).
-- Sizes and positions are natural numbers: a call with a negative size is not modelled.
--
-- Renaming.antt and the files below it model sim/RenamingAllocatorBase.py. `Defs` has the table
-- `_tva2eva` and the events published so far as the record `Renamer`, and a function of the same name for
-- each handler; `handle` is the dispatch by the name of the event. The methods of the child class are
-- the interface `Child`. `Named` compares the table with the published events, whatever the child
-- does; `Contract`, in `Live`, is what the theorem on a resize under a new name takes of the child. A
-- trace has begin ≤ end in every record; a difference below zero is not modelled.
--
-- SegFreeList.antt and the files below it model sim/SegFreeList.py, where a free list coalesces by itself:
-- `Defs` has the lists by size, the order of release, the index by address and the ends of the spans as
-- the record `FreeList`, and the methods under their names. A node of pyllist.dllist is a value with the
-- list it is in; the operations of the lists and their laws are a parameter. Sizes are natural numbers,
-- so the assertion of `_segix` that a size is not negative holds by itself.
--
-- RandomFilter.antt and the files below it model sim/alloc/RandomFilter.py, which passes on a subset of a
-- trace; the hash that decides is a parameter.
--
-- Clingy.antt and the files below it model sim/ClingyAllocatorBase.py, under the names of the methods:
-- `Sizes` the size classes and the bucket arithmetic, `States` the states of a bucket and, as the
-- interface `BucketMap`, what the allocator uses of its map `_bix2state`; `OfMap` fills it with
-- `IntervalMap`. `Defs` has the fields as the record `Clingy`, and the methods that mark buckets; `Alloc`,
-- `Free`, `Realloc` and `Revoke` have the methods of these names. Assertions are taken to be on, with paranoia 0. A
-- doubly linked list is a list of numbered nodes. The placement methods and `_on_bucket_free` are the
-- parameter `Policy`, which has no data of its own; `Fit` has those of sim/alloc/TypelessClingy.py,
-- and `Due` its `_maybe_revoke`, with whole numbers for the factors that the command line takes.
-- `Accounts` says when the counters agree with the states. A counter that would fall below zero stays at
-- zero in the model; where the counters agree none does. A bitmap is a number, and a bit is read by
-- division.
--
-- Trace.antt and the files below it model common/run.py. `Run` has the reader, each method under its name,
-- with the events that it sent in the field `sent`; every listener is sent the same. `Calls` has what a
-- record says, a function for each branch on the call. `Unrun` has the writer: `record_of` is the record
-- that the handler of an event makes, `handle` the handler with the lines it prints. A text is a list of
-- code points, and `int` reads numerals of digits, with 0x allowed in base 16: signs, blanks and
-- underscores in numerals are not modelled. The file is taken to be an iterator, as the second loop of
-- `replay` goes on where the first stops. The order in which Python goes through a set of names is a
-- parameter.
--
-- Traditional.antt and the files below it model sim/TraditionalAllocatorBase.py. The two maps of the
-- allocator, from addresses to the states of segments and from pages to those of pages, are taken by
-- their interface `ValueMap` (IntervalMap/Interface.antt), which IntervalMap/Filled.antt fills; the TIDY
-- list is the free list of SegFreeList.antt in its form with external coalescing, and the JUNK list a
-- `Dllist`. `Defs` has the state and the lists, `Alloc`, `Free` and `Revoke` the methods, `Due` the
-- policy of sim/alloc/DLMallocish.py. `Balanced` says when the counters agree with the maps, `Sound` when
-- the objects and the TIDY list do too; `Reached` has the states that the methods make of a new
-- allocator. State assertions (_state_asserts) are not modelled, since they only read. A page is
-- 4096 bytes; the bits of the alignment are cleared by taking off a remainder.
--
-- NoReuse.antt and the files below it model sim/alloc/NoReuse.py.
--
-- SortedDict.antt is the interface of the third-party sortedcontainers.SortedDict: its operations and
-- the law of each are a parameter of the model. SortedDict/Assoc.antt shows that the laws can hold.
--
-- Fuel. The loops of `get` have the distance to the end of the map as fuel. `mark` calls itself at
-- most twice in depth, so `mark` runs `mark_on` with fuel 3; the loop takes one round more than the dictionary has spans. That these are enough is part of the theorems
-- which say that `mark` returns.
--
-- Not modelled: drawing, plots, command lines, databases, the C replay program, and the parts that
-- PROJECT.json lists as such.
pub mod Prelude
pub mod SortedDict
pub mod IntervalMap
pub mod Clingy
pub mod Renaming
pub mod SegFreeList
pub mod RandomFilter
pub mod Trace
pub mod Traditional
pub mod NoReuse
