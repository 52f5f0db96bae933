-- ===== src/Traditional/Free.antt =====
-- `_free`, `_free_unsafe` and `_try_realloc`.
use memory_alloc_analysis.Prelude.{
  ℕ, ◌+◌, ◌-◌, ◌*◌, ◌^◌, max, min, none, some, List, [], ◌∷◌, if◌then◌else◌, leb, ltb, ◌==◌, done,
  raised, and_run, key_error,
}
use memory_alloc_analysis.SortedDict.Items.{lookup}
use memory_alloc_analysis.IntervalMap.Defs.{Span}
use memory_alloc_analysis.IntervalMap.Interface.{ValueMap}
use memory_alloc_analysis.Renaming.Defs.{Space}
use memory_alloc_analysis.SegFreeList.Dict.{delete}
use memory_alloc_analysis.SegFreeList.Defs.{Dllist}
use memory_alloc_analysis.Clingy.Defs.{njunk}
use memory_alloc_analysis.Traditional.States.{
  SegSt, junk, is_wait, is_tidy, sst_tj, PageSt, umap, is_mapd, eva2evp, evp2eva, eva2evp_roundup,
  npg2nby, pagelog,
}
use memory_alloc_analysis.Traditional.Defs.{
  Traditional, Method, publish, reading, require, when, mark_segment, mark_pages, mark_tidy,
  coalesced_insert,
}

module _ (A : ValueMap SegSt) (P : ValueMap PageSt) (L : Dllist (ℕ × ℕ)) (G : Dllist ℕ) where
  -- the loop of `_ensure_unmapped`
  unfoldable pub unmap_spans :
      ℕ → ℕ → List (Span PageSt) → Traditional A P L G → Traditional A P L G
  unmap_spans pbase plim [] s = s
  unmap_spans pbase plim ((qb, qsz, qv) ∷ qs) s =
      let b = max qb pbase in
      let l = min (qb + qsz) plim in
      unmap_spans pbase plim qs (
        if is_mapd qv
        then publish A P L G (Space.unmapd (evp2eva b) (evp2eva l))
            (record s { nmapped = s.nmapped - npg2nby (l - b) })
        else s)

  unfoldable pub ensure_unmapped : ℕ → ℕ → Method A P L G
  unfolding unmap_spans mark_pages
  ensure_unmapped loc sz s =
      let pbase = eva2evp_roundup loc in
      let plim = eva2evp (loc + sz - 1) in
      if pbase == plim
      then done s
      else reading A P L G (P.get_slice pbase plim s.evp2pst)
          (λ qs s0. mark_pages A P L G pbase (plim - pbase) umap (unmap_spans pbase plim qs s0)) s

  -- a span of more than 16 pages is unmapped
  unfoldable pub unmap_large : ℕ × ℕ → Method A P L G
  unfolding ensure_unmapped
  unmap_large q s = when A P L G (ltb (16 * 2 ^ pagelog) q.1) (ensure_unmapped q.0 q.1) s

  -- the cache is dropped where the new span may be the largest
  abbrev pub revise_cache : ℕ → Method A P L G
  revise_cache loc s = elim s.brscache [
    | none ↦ done s
    | some b ↦
        reading A P L G (A.get_with loc sst_tj s.eva2sst)
          (λ q s0. done (if leb (njunk b) q.1 then record s0 { brscache = none } else s0)) s
  ]

  -- the counters, once the span is marked
  abbrev pub count_junk : ℕ → Traditional A P L G → Traditional A P L G
  count_junk sz s = record s { nwait = s.nwait - sz; njunk = s.njunk + sz }

  -- `assert self._eva2sst[loc][2] == SegSt.WAIT` and `sz = self._eva2sz.pop(loc)`
  abbrev pub pop_size : ℕ → (ℕ → Method A P L G) → Method A P L G
  pop_size loc next s =
      reading A P L G (A.get_item loc s.eva2sst)
        (λ q. require A P L G (is_wait q.2) (λ s0. elim (lookup loc s0.eva2sz) [
          | none ↦ raised key_error s0
          | some sz ↦ next sz (record s0 { eva2sz = delete loc s0.eva2sz })
        ]))
        s

  -- the part of `_free` from the mark on
  unfoldable pub free_marked : ℕ → ℕ → Method A P L G
  unfolding mark_segment coalesced_insert unmap_large
  free_marked loc sz s = and_run (mark_segment A P L G loc sz junk s) (λ s1.
      and_run (revise_cache loc (count_junk sz s1)) (coalesced_insert A P L G loc sz unmap_large))

  unfoldable pub free : ℕ → Method A P L G
  unfolding free_marked
  free loc = pop_size loc (free_marked loc)

  -- the last lines of `_free_unsafe`
  unfoldable pub unmap_tidy : ℕ → Method A P L G
  unfolding unmap_large
  unmap_tidy loc s =
      reading A P L G (A.get_with loc [] s.eva2sst)
        (λ q. require A P L G (is_tidy q.2) (unmap_large (q.0, q.1))) s

  -- the part of `_free_unsafe` from the counter on
  unfoldable pub free_tidied : ℕ → ℕ → Method A P L G
  unfolding mark_tidy unmap_tidy
  free_tidied loc sz s =
      and_run (mark_tidy A P L G loc sz (record s { nwait = s.nwait - sz })) (unmap_tidy loc)

  unfoldable pub free_unsafe : ℕ → Method A P L G
  unfolding free_tidied
  free_unsafe loc = pop_size loc (free_tidied loc)
