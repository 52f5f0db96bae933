-- ===== src/Traditional/Freed.antt =====
-- `_free` and `_free_unsafe` and the state of the allocator as a whole.
use memory_alloc_analysis.Prelude.{ℕ, ◌*◌, ◌^◌, ◌≡◌, ◌≢◌, some, object, ◌-◌}
use memory_alloc_analysis.SortedDict.Items.{lookup}
use memory_alloc_analysis.IntervalMap.Interface.{ValueMap}
use memory_alloc_analysis.SegFreeList.Dict.{delete}
use memory_alloc_analysis.SegFreeList.Defs.{Dllist}
use memory_alloc_analysis.Traditional.States.{SegSt, tidy, junk, PageSt, pagelog}
use memory_alloc_analysis.Traditional.Defs.{Traditional, coalesced_insert}
use memory_alloc_analysis.Traditional.Free.{
  free, free_unsafe, free_marked, free_tidied, revise_cache, count_junk, unmap_large,
}
use memory_alloc_analysis.Traditional.Balanced.{mark_segment-at}
use memory_alloc_analysis.Traditional.Freeing.{Backed, free-Balanced, free_unsafe-Balanced}
use memory_alloc_analysis.Traditional.TidyList.{mark_tidy-Indexed}
use memory_alloc_analysis.Traditional.Kept.{
  and_run-On, revise_cache-On, coalesced_insert-On, unmap_tidy-On, pop_size-On,
}
use memory_alloc_analysis.Traditional.Sound.{Owned, Sound, Owned-freed, indexed-same, not_tidy}

junk_no_tidy : junk ≢ tidy
junk_no_tidy e = cc e

module _ (A : ValueMap SegSt) (P : ValueMap PageSt) (L : Dllist (ℕ × ℕ)) (G : Dllist ℕ) where
  abbrev Owns : Traditional A P L G → Type 0
  Owns s = Owned A P L G s.eva2sst s.eva2sz s.tidylst

  module _ (loc : ℕ) (s : Traditional A P L G) (valid : A.IsValid s.eva2sst) (o : Owns s) where
    module _ (sz : ℕ) (here : lookup loc s.eva2sz ≡ some sz) where
      abbrev popped : Traditional A P L G
      popped = record s { eva2sz = delete loc s.eva2sz }

      free_marked-Owned : Owns (object (free_marked A P L G loc sz popped))
      unfolding free_marked
      free_marked-Owned =
          let h = o.held loc sz here in
          let (m', did, _, changed) =
            mark_segment-at A P L G loc sz junk popped valid h.from h.some_there h.fits in
          let s1 = count_junk A P L G sz (record popped { eva2sst = m' }) in
          let same =
            indexed-same A P L G s.eva2sst m' s.eva2sz s.tidylst s.tidylst o loc sz here junk
              changed junk_no_tidy in
          let now : Owned A P L G m' (delete loc s.eva2sz) s.tidylst =
            Owned-freed A P L G s.eva2sst m' s.eva2sz s.tidylst s.tidylst o loc sz here junk changed
              same in
          rw (free_marked, did)
            (and_run-On A P L G (Owned A P L G) (revise_cache A P L G loc s1)
              (coalesced_insert A P L G loc sz (unmap_large A P L G))
              (revise_cache-On A P L G (Owned A P L G) loc s1 now)
              (coalesced_insert-On A P L G (Owned A P L G) loc sz))

      free_tidied-Owned : Owns (object (free_tidied A P L G loc sz popped))
      unfolding free_tidied
      free_tidied-Owned =
          let h = o.held loc sz here in
          let s0 = record popped { nwait = s.nwait - sz } in
          let (m', l', did, _, changed, lists) =
            mark_tidy-Indexed A P L G loc sz s0 valid o.indexed h.from h.some_there h.fits
              (not_tidy A P L G s.eva2sst s.eva2sz s.tidylst o loc sz here) in
          let now : Owned A P L G m' (delete loc s.eva2sz) l' =
            Owned-freed A P L G s.eva2sst m' s.eva2sz s.tidylst l' o loc sz here tidy changed
              lists in
          rw (free_tidied, did)
            (unmap_tidy-On A P L G (Owned A P L G) loc (record s0 { eva2sst = m'; tidylst = l' })
              now)

    free-Owned : Owns (object (free A P L G loc s))
    unfolding free
    free-Owned =
        pop_size-On A P L G (Owned A P L G) loc (free_marked A P L G loc) s o free_marked-Owned

    free_unsafe-Owned : Owns (object (free_unsafe A P L G loc s))
    unfolding free_unsafe
    free_unsafe-Owned =
        pop_size-On A P L G (Owned A P L G) loc (free_tidied A P L G loc) s o free_tidied-Owned

  module _ (start : A.base ≡ P.base * 2 ^ pagelog) (stop : A.limit ≡ P.limit * 2 ^ pagelog)
      (loc : ℕ) (s : Traditional A P L G) (sound : Sound A P L G s) where
    backed : Backed A P L G s
    backed = record { held = sound.owned.held }

    -- Where the state is sound, _free leaves it sound, for every address and on every branch,
    -- also where it raises: the counters and the wilderness agree with the maps, every object
    -- of _eva2sz is of WAIT bytes and apart from the others, and the index of the TIDY list
    -- has exactly the longest TIDY runs.
    pub free-Sound : Sound A P L G (object (free A P L G loc s))
    free-Sound = record {
      balanced = free-Balanced A P L G start stop loc s sound.balanced backed;
      owned = free-Owned loc s sound.balanced.segments.valid sound.owned;
    }

    -- Where the state is sound, in the sense of the counters, the objects and the index of the
    -- TIDY list, _free_unsafe leaves it sound, for every address and on every branch, also
    -- where it raises.
    pub free_unsafe-Sound : Sound A P L G (object (free_unsafe A P L G loc s))
    free_unsafe-Sound = record {
      balanced = free_unsafe-Balanced A P L G start stop loc s sound.balanced backed;
      owned = free_unsafe-Owned loc s sound.balanced.segments.valid sound.owned;
    }
