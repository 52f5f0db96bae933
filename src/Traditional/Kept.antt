-- ===== src/Traditional/Kept.antt =====
-- What the methods on the lists and on the pages leave alone: the segments, the sizes of the objects
-- and the TIDY list.
use memory_alloc_analysis.Prelude.{
  ℕ, ◌+◌, ◌*◌, ◌^◌, ◌≡◌, Bool, true, false, not, ◌==◌, some, List, [], ◌∷◌, leb, ltb, Outcome, done,
  raised, and_run, object, Bool-cases, inl, inr, Option-cases, Result-cases, max, min, ◌-◌,
}
use memory_alloc_analysis.SortedDict.Items.{lookup}
use memory_alloc_analysis.IntervalMap.Defs.{Span}
use memory_alloc_analysis.IntervalMap.Interface.{ValueMap}
use memory_alloc_analysis.Renaming.Defs.{Space}
use memory_alloc_analysis.SegFreeList.Dict.{delete}
use memory_alloc_analysis.SegFreeList.Defs.{Dllist, FreeList}
use memory_alloc_analysis.Clingy.Defs.{njunk}
use memory_alloc_analysis.Traditional.States.{
  SegSt, sst_tj, PageSt, umap, mapd, is_tidy, is_wait, pagelog, eva2evp, evp2eva, npg2nby,
  eva2evp_roundup,
}
use memory_alloc_analysis.Traditional.Defs.{
  Traditional, Method, publish, mark_pages, with_pages, unlist, enlist, coalesced_insert, when,
  require,
}
use memory_alloc_analysis.Traditional.Free.{
  revise_cache, unmap_large, unmap_tidy, ensure_unmapped, unmap_spans, pop_size,
}

module _ (A : ValueMap SegSt) (P : ValueMap PageSt) (L : Dllist (ℕ × ℕ)) (G : Dllist ℕ)
    (K : A.Map → List (ℕ × ℕ) → FreeList L G → Type 0) where
  abbrev pub On : Traditional A P L G → Type 0
  On s = K s.eva2sst s.eva2sz s.tidylst

  pub and_run-On :
      (o : Outcome (Traditional A P L G)) (next : Method A P L G)
      → On (object o)
      → ((s : Traditional A P L G) → On s → On (object (next s)))
      → On (object (and_run o next))
  and_run-On (done s) next h k = k s h
  and_run-On (raised e s) next h k = h

  unlist-On : (loc : ℕ) (s : Traditional A P L G) → On s → On (object (unlist A P L G loc s))
  unfolding unlist
  unlist-On loc s h = elim (Option-cases (lookup loc s.junkadn)) [
    | inl gone ↦ rw (unlist, gone) h
    | inr (node, here) ↦ rw (unlist, here) h
  ]

  when-unlist-On :
      (b : Bool) (loc : ℕ) (s : Traditional A P L G)
      → On s
      → On (object (when A P L G b (unlist A P L G loc) s))
  when-unlist-On true loc s h = unlist-On loc s h
  when-unlist-On false loc s h = h

  pub revise_cache-On :
      (loc : ℕ) (s : Traditional A P L G) → On s → On (object (revise_cache A P L G loc s))
  revise_cache-On loc s h = elim (Option-cases s.brscache) [
    | inl empty ↦ rw empty h
    | inr (b, cached) ↦ elim (Result-cases (A.get_with loc sst_tj s.eva2sst)) [
      | inr (e, bad) ↦ rw (cached, bad) h
      | inl (q, good) ↦ elim (Bool-cases (leb (njunk b) q.1)) [
        | inl large ↦ rw (cached, good, large) h
        | inr small ↦ rw (cached, good, small) h
      ]
    ]
  ]

  unmap_spans-On :
      (pbase plim : ℕ) (qs : List (Span PageSt)) (s : Traditional A P L G)
      → On s
      → On (unmap_spans A P L G pbase plim qs s)
  unfolding unmap_spans
  unmap_spans-On pbase plim [] s h = h
  unmap_spans-On pbase plim ((qb, qsz, umap) ∷ qs) s h = unmap_spans-On pbase plim qs s h
  unmap_spans-On pbase plim ((qb, qsz, mapd) ∷ qs) s h =
      unmap_spans-On pbase plim qs
        (publish A P L G (Space.unmapd (evp2eva (max qb pbase)) (evp2eva (min (qb + qsz) plim)))
          (record s { nmapped = s.nmapped - npg2nby (min (qb + qsz) plim - max qb pbase) }))
        h

  mark_pages-On :
      (pbase npg : ℕ) (st : PageSt) (s : Traditional A P L G)
      → On s
      → On (object (mark_pages A P L G pbase npg st s))
  unfolding mark_pages
  mark_pages-On pbase npg st s h = with_pages-On (P.mark pbase npg st s.evp2pst)
    where
      with_pages-On : (o : Outcome P.Map) → On (object (with_pages A P L G o s))
      with_pages-On (done m) = h
      with_pages-On (raised e m) = h

  pub unmap_large-On :
      (q : ℕ × ℕ) (s : Traditional A P L G) → On s → On (object (unmap_large A P L G q s))
  unfolding unmap_large ensure_unmapped
  unmap_large-On q s h = elim (Bool-cases (ltb (16 * 2 ^ pagelog) q.1)) [
    | inr small ↦ rw (unmap_large, small) h
    | inl large ↦ elim (Bool-cases (eva2evp_roundup q.0 == eva2evp (q.0 + q.1 - 1))) [
      | inl none_whole ↦ rw (unmap_large, large, ensure_unmapped, none_whole) h
      | inr some_whole ↦
          let pbase = eva2evp_roundup q.0 in
          let plim = eva2evp (q.0 + q.1 - 1) in
          elim (Result-cases (P.get_slice pbase plim s.evp2pst)) [
            | inr (e, bad) ↦ rw (unmap_large, large, ensure_unmapped, some_whole, bad) h
            | inl (qs, good) ↦
                rw (unmap_large, large, ensure_unmapped, some_whole, good)
                  (mark_pages-On pbase (plim - pbase) umap (unmap_spans A P L G pbase plim qs s)
                    (unmap_spans-On pbase plim qs s h))
          ]
    ]
  ]

  pub coalesced_insert-On :
      (loc sz : ℕ) (s : Traditional A P L G)
      → On s
      → On (object (coalesced_insert A P L G loc sz (unmap_large A P L G) s))
  unfolding coalesced_insert enlist
  coalesced_insert-On loc sz s h = elim (Result-cases (A.get_item loc s.eva2sst)) [
    | inr (e, bad) ↦ rw (coalesced_insert, bad) h
    | inl (q, good) ↦
        rw (coalesced_insert, good)
          (let left = when A P L G (not (loc == q.0)) (unlist A P L G q.0) s in
            let right = when A P L G (not (q.0 + q.1 == loc + sz)) (unlist A P L G (loc + sz)) in
            and_run-On (and_run left right)
              (λ s1. unmap_large A P L G (q.0, q.1) (enlist A P L G q.0 q.1 s1))
              (and_run-On left right (when-unlist-On (not (loc == q.0)) q.0 s h)
                (when-unlist-On (not (q.0 + q.1 == loc + sz)) (loc + sz)))
              (λ s1 h1. unmap_large-On (q.0, q.1) (enlist A P L G q.0 q.1 s1) h1))
  ]

  pub unmap_tidy-On :
      (loc : ℕ) (s : Traditional A P L G) → On s → On (object (unmap_tidy A P L G loc s))
  unfolding unmap_tidy
  unmap_tidy-On loc s h = elim (Result-cases (A.get_with loc [] s.eva2sst)) [
    | inr (e, bad) ↦ rw (unmap_tidy, bad) h
    | inl (q, good) ↦ elim (Bool-cases (is_tidy q.2)) [
      | inr other ↦ rw (unmap_tidy, good, require, other) h
      | inl free ↦ rw (unmap_tidy, good, require, free) (unmap_large-On (q.0, q.1) s h)
    ]
  ]

  pub pop_size-On :
      (loc : ℕ) (next : ℕ → Method A P L G) (s : Traditional A P L G)
      → On s
      → ((sz : ℕ)
          → lookup loc s.eva2sz ≡ some sz
          → On (object (next sz (record s { eva2sz = delete loc s.eva2sz }))))
      → On (object (pop_size A P L G loc next s))
  pop_size-On loc next s h go = elim (Result-cases (A.get_item loc s.eva2sst)) [
    | inr (e, bad) ↦ rw bad h
    | inl (q, good) ↦ elim (Bool-cases (is_wait q.2)) [
      | inr other ↦ rw (good, other) h
      | inl held ↦ elim (Option-cases (lookup loc s.eva2sz)) [
        | inl gone ↦ rw (good, held, require, gone) h
        | inr (sz, here) ↦ rw (good, held, require, here) (go sz here)
      ]
    ]
  ]
