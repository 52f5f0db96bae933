-- ===== src/NoReuse/Tests.antt =====
-- The allocator before and after its first page.
use memory_alloc_analysis.Prelude.{◌^◌, ◌≡◌, Bool, true, false, [], ◌∷◌, failure, value_error}
use memory_alloc_analysis.SortedDict.{SortedDict}
use memory_alloc_analysis.SortedDict.Assoc.{assoc}
use memory_alloc_analysis.IntervalMap.Defs.{Cell}
use memory_alloc_analysis.NoReuse.Defs.{NoReuse, new_no_reuse, alloc, entered}
use memory_alloc_analysis.NoReuse.First.{alloc-new_no_reuse}

abbrev dict : SortedDict (Cell Bool)
dict = assoc (Cell Bool)

alloc-new_no_reuse_example :
    alloc dict 24 (new_no_reuse dict) ≡ failure value_error (entered dict 24 (new_no_reuse dict))
alloc-new_no_reuse_example = alloc-new_no_reuse dict 24

abbrev later : NoReuse dict
later = record {
  eva2sz = [];
  maxeva = 4100;
  state = record {
    d = (4096, (2 ^ 64, false)) ∷ [];
    base = 4096;
    sz = 2 ^ 64;
    v = false;
    coalescing = true;
    changes = [];
  };
}
