-- ===== src/Traditional/Alloc.antt =====
-- The methods of the allocation.
use memory_alloc_analysis.Prelude.{
  ℕ, ◌+◌, ◌-◌, ◌%◌, ◌^◌, max, min, not, none, List, [], ◌∷◌, if◌then◌else◌, leb, ltb, ◌==◌, Answer,
  from_outcome, answer, done, and_run,
}
use memory_alloc_analysis.IntervalMap.Defs.{Span}
use memory_alloc_analysis.IntervalMap.Interface.{ValueMap}
use memory_alloc_analysis.Renaming.Defs.{Space}
use memory_alloc_analysis.SegFreeList.Dict.{delete}
use memory_alloc_analysis.SegFreeList.Defs.{Dllist, iterfor, remove_common}
use memory_alloc_analysis.Clingy.Defs.{covers}
use memory_alloc_analysis.Traditional.States.{
  SegSt, wait, is_tidy, PageSt, mapd, is_mapd, eva2evp, evp2eva, npg2nby,
}
use memory_alloc_analysis.Traditional.Defs.{
  Options, Traditional, Method, publish, reading, require, when, with_tidylst, mark_segment,
  mark_pages, mark_tidy, insert_tidy,
}

-- (sz + self._alignmsk) & ~self._alignmsk, of a size that is no less than the least one; to clear
-- the low bits is to take off the remainder
unfoldable pub request_size : Options → ℕ → ℕ
request_size a sz =
    let up = (if ltb sz a.minsize then a.minsize else sz) + (2 ^ a.alignlog - 1) in
    up - up % 2 ^ a.alignlog

module _ (A : ValueMap SegSt) (P : ValueMap PageSt) (L : Dllist (ℕ × ℕ)) (G : Dllist ℕ) where
  -- the first of the TIDY spans that fit exactly or leave 16 bytes, and else the wilderness
  abbrev pub first_or : ℕ → List (ℕ × ℕ) → ℕ
  first_or wildern [] = wildern
  first_or wildern (q ∷ qs) = q.0

  unfoldable pub alloc_place : ℕ → Traditional A P L G → ℕ
  unfolding iterfor
  alloc_place sz s = first_or s.wildern (iterfor L G s.tidylst sz 16)

  -- the loop of `_ensure_mapped`
  unfoldable pub map_spans : ℕ → ℕ → List (Span PageSt) → Traditional A P L G → Traditional A P L G
  map_spans pbase plim [] s = s
  map_spans pbase plim ((qb, qsz, qv) ∷ qs) s =
      let b = max qb pbase in
      let l = min (qb + qsz) plim in
      map_spans pbase plim qs (
        if is_mapd qv
        then s
        else publish A P L G (Space.mapd (evp2eva b) (evp2eva l) 3)
            (record s { nmapped = s.nmapped + npg2nby (l - b) }))

  unfoldable pub ensure_mapped : ℕ → ℕ → Method A P L G
  unfolding map_spans mark_pages
  ensure_mapped reqbase reqsz s =
      let pbase = eva2evp reqbase in
      let plim = eva2evp (reqbase + reqsz - 1) + 1 in
      reading A P L G (P.get_slice pbase plim s.evp2pst)
        (λ qs s0. mark_pages A P L G pbase (plim - pbase) mapd (map_spans pbase plim qs s0)) s

  -- the part of `_mark_allocated` below the wilderness
  unfoldable pub mark_below : ℕ → ℕ → Method A P L G
  unfolding mark_segment insert_tidy
  mark_below reqbase reqsz s =
      reading A P L G (A.get_item reqbase s.eva2sst)
        (λ q. require A P L G (is_tidy q.2) (
          require A P L G (leb reqsz q.1) (λ s0.
            with_tidylst A P L G (remove_common L G q.0 s0.tidylst)
              (λ tsz. require A P L G (tsz == q.1) (λ s1.
                and_run (mark_segment A P L G reqbase reqsz wait s1) (λ s2.
                  and_run
                    (when A P L G (not (q.0 + q.1 == reqbase + reqsz))
                      (insert_tidy A P L G (reqbase + reqsz) (q.0 + q.1 - reqbase - reqsz)) s2)
                    (when A P L G (not (reqbase == q.0))
                      (insert_tidy A P L G q.0 (reqbase - q.0))))))
              s0)))
        s

  -- the part from the wilderness on, which leaves a TIDY gap
  unfoldable pub mark_beyond : ℕ → ℕ → Method A P L G
  unfolding mark_segment mark_tidy
  mark_beyond reqbase reqsz s =
      and_run
        (when A P L G (ltb s.wildern reqbase) (mark_tidy A P L G s.wildern (reqbase - s.wildern)) s)
        (mark_segment A P L G reqbase reqsz wait)

  -- the last lines of `_mark_allocated`
  abbrev pub count_wait : ℕ → ℕ → Traditional A P L G → Traditional A P L G
  count_wait reqbase reqsz s = record s {
    brscache = if covers reqbase s.brscache then none else s.brscache;
    nwait = s.nwait + reqsz;
    wildern = max s.wildern (reqbase + reqsz);
  }

  unfoldable pub mark_allocated : ℕ → ℕ → Method A P L G
  unfolding mark_below mark_beyond
  mark_allocated reqbase reqsz s =
      and_run
        (if leb s.wildern reqbase then mark_beyond reqbase reqsz s else mark_below reqbase reqsz s)
        (λ s1. done (count_wait reqbase reqsz s1))

  -- the part of `_alloc` that follows the placement
  unfoldable pub alloc_at : ℕ → ℕ → Traditional A P L G → Answer (Traditional A P L G) (ℕ × ℕ)
  unfolding ensure_mapped mark_allocated
  alloc_at loc sz s =
      from_outcome (and_run (ensure_mapped loc sz s) (mark_allocated loc sz))
        (λ s1. answer (loc, sz) (record s1 { eva2sz = (loc, sz) ∷ delete loc s1.eva2sz }))

  unfoldable pub alloc : Options → ℕ → Traditional A P L G → Answer (Traditional A P L G) (ℕ × ℕ)
  unfolding alloc_place alloc_at request_size
  alloc a sz s = alloc_at (alloc_place (request_size a sz) s) (request_size a sz) s
