-- ===== src/NoReuse/First.antt =====
-- The first allocation.
use memory_alloc_analysis.Prelude.{
  ℕ, ◌<◌, ◌≡◌, refl, true, false, Bool, failure, value_error, arith,
}
use memory_alloc_analysis.SortedDict.{SortedDict}
use memory_alloc_analysis.IntervalMap.Defs.{Cell, inside}
use memory_alloc_analysis.IntervalMap.Refines.{mark_off}
use memory_alloc_analysis.NoReuse.Defs.{
  NoReuse, new_no_reuse, alloc, entered, at_least_four, Bool_discrete,
}

module _ (S : SortedDict (Cell Bool)) where
  alloc_below :
      (sz : ℕ) (s : NoReuse S)
      → s.maxeva < s.state.base
      → alloc S sz s ≡ failure value_error (entered S sz s)
  unfolding alloc
  alloc_below sz s low =
      let off : inside S s.state s.maxeva ≡ false = ground (arith, low) in
      rw (alloc, mark_off S Bool_discrete s.state s.maxeva (at_least_four S sz) true off) refl

  -- The first allocation of a new allocator raises ValueError, whatever its size: the first
  -- address is 0, and the map of the addresses starts at 4096.
  pub alloc-new_no_reuse :
      (sz : ℕ) → alloc S sz (new_no_reuse S) ≡ failure value_error (entered S sz (new_no_reuse S))
  unfolding new_no_reuse
  alloc-new_no_reuse sz = alloc_below sz (new_no_reuse S) (omega arith)
