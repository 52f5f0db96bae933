-- ===== src/Traditional/Served.antt =====
-- `_alloc` as a whole: the size, the placement, the pages and the segments.
use memory_alloc_analysis.Prelude.{
  ℕ, zero, suc, ◌+◌, ◌*◌, ◌^◌, ◌≤◌, ◌<◌, ◌≡◌, refl, ◌||◌, ◌==◌, leb, arith, List, [], ◌∷◌, ◌++◌,
  All, done, Bool-cases, inl, inr, answer,
}
use memory_alloc_analysis.IntervalMap.Interface.{ValueMap}
use memory_alloc_analysis.Renaming.Defs.{Space}
use memory_alloc_analysis.SegFreeList.Dict.{delete}
use memory_alloc_analysis.SegFreeList.Defs.{
  Dllist, FreeList, segix, own_class, later_class, later_classes, from_class, iterfor,
}
use memory_alloc_analysis.Traditional.States.{SegSt, PageSt, pagelog}
use memory_alloc_analysis.Traditional.Defs.{Options, Traditional}
use memory_alloc_analysis.Traditional.Alloc.{
  alloc, alloc_at, alloc_place, first_or, mark_allocated, request_size,
}
use memory_alloc_analysis.Traditional.Requests.{request_size_bounds}
use memory_alloc_analysis.Traditional.Pages.{ensure_mapped-Repaged}
use memory_alloc_analysis.Traditional.Balanced.{Balanced, Tallied}
use memory_alloc_analysis.Traditional.Placing.{
  Listed, Placed, wild, reused, Allocated, Marked, mark_wild, mark_reused, listed_inside,
}

module _ (minsz movh : ℕ) (le : minsz ≤ movh) where
  All-append :
      (l r : List (ℕ × ℕ))
      → All (λ q. minsz ≤ q.1) l
      → All (λ q. minsz ≤ q.1) r
      → All (λ q. minsz ≤ q.1) (l ++ r)
  All-append [] r hl hr = hr
  All-append (x ∷ l) r hl hr = (hl.0, All-append l r hl.1 hr)

  own_class_enough : (l : List (ℕ × ℕ)) → All (λ q. minsz ≤ q.1) (own_class minsz movh l)
  unfolding own_class
  own_class_enough [] = tt
  own_class_enough (x ∷ l) = elim (Bool-cases (x.1 == minsz || leb movh x.1)) [
    | inl fits ↦ rw fits (ground (arith, fits, le), own_class_enough l)
    | inr small ↦ rw small (own_class_enough l)
  ]

  later_class_enough : (l : List (ℕ × ℕ)) → All (λ q. minsz ≤ q.1) (later_class movh l)
  unfolding later_class
  later_class_enough [] = tt
  later_class_enough (x ∷ l) = elim (Bool-cases (leb movh x.1)) [
    | inl fits ↦ rw fits (ground (arith, fits, le), later_class_enough l)
    | inr small ↦ rw small (later_class_enough l)
  ]

  module _ (L : Dllist (ℕ × ℕ)) (G : Dllist ℕ) where
    later_classes_enough : (ds : List L.Dll) → All (λ q. minsz ≤ q.1) (later_classes L G movh ds)
    unfolding later_classes
    later_classes_enough [] = tt
    later_classes_enough (d ∷ ds) =
        All-append (later_class movh (L.values d)) (later_classes L G movh ds)
          (later_class_enough (L.values d)) (later_classes_enough ds)

    from_class_enough :
        (i : ℕ) (ds : List L.Dll) → All (λ q. minsz ≤ q.1) (from_class L G i minsz movh ds)
    unfolding from_class
    from_class_enough i [] = tt
    from_class_enough zero (d ∷ ds) =
        All-append (own_class minsz movh (L.values d)) (later_classes L G movh ds)
          (own_class_enough (L.values d)) (later_classes_enough ds)
    from_class_enough (suc i) (d ∷ ds) = from_class_enough i ds

    iterfor_enough :
        (m : FreeList L G) → movh ≡ minsz + 16 → All (λ q. minsz ≤ q.1) (iterfor L G m minsz 16)
    unfolding iterfor
    iterfor_enough m over = rw⁻¹ over (from_class_enough (segix minsz) m.segs)

module _ (A : ValueMap SegSt) (P : ValueMap PageSt) (L : Dllist (ℕ × ℕ)) (G : Dllist ℕ)
    (start : A.base ≡ P.base * 2 ^ pagelog) (stop : A.limit ≡ P.limit * 2 ^ pagelog)
    (s : Traditional A P L G) (bal : Balanced A P L G s) where
  mark_placed :
      (s1 : Traditional A P L G) (loc sz : ℕ)
      → Tallied A s1.wildern s1.eva2sst s1.njunk s1.nwait
      → 0 < sz
      → Placed A P L G s1 loc sz
      → (s' : Traditional A P L G) × (mark_allocated A P L G loc sz s1 ≡ done s')
        × Marked A P L G s1 loc sz s'
  mark_placed s1 loc sz t pos (wild here fits) = mark_wild A P L G s1 loc sz t pos here fits
  mark_placed s1 loc sz t pos (reused n enough l) = mark_reused A P L G s1 loc sz t pos n enough l

  Placed-inside :
      (loc sz : ℕ) → 0 < sz → Placed A P L G s loc sz → (A.base ≤ loc) × (loc + sz ≤ A.limit)
  Placed-inside loc sz pos (wild here fits) = (omega (arith, bal.segments.low, here), fits)
  Placed-inside loc sz pos (reused n enough l) =
      let within = listed_inside A P L G s loc sz bal.segments pos n enough l in
      (within.0, omega (arith, within.1, enough))

  -- a placement is one still where the pages have changed
  Placed-still :
      (loc sz : ℕ) (m : P.Map) (n : ℕ) (es : List Space)
      → Placed A P L G s loc sz
      → Placed A P L G (record s { evp2pst = m; nmapped = n; published = es }) loc sz
  Placed-still loc sz m n es (wild here fits) = wild here fits
  Placed-still loc sz m n es (reused k enough l) = reused k enough (record {
    node = l.node;
    indexed = l.indexed;
    sized = l.sized;
    from = l.from;
    below = l.below;
    span = l.span;
  })

  -- the part of `_alloc` that follows the placement
  alloc_at-Allocated :
      (loc sz : ℕ)
      → 0 < sz
      → Placed A P L G s loc sz
      → (s' : Traditional A P L G) × (alloc_at A P L G loc sz s ≡ answer (loc, sz) s')
        × Allocated A P L G s loc sz s'
  unfolding alloc_at
  alloc_at-Allocated loc sz pos p =
      let (low, high) = Placed-inside loc sz pos p in
      let (s1, did, r) =
        ensure_mapped-Repaged A P L G s loc sz bal.pages (omega (arith, start, low))
          (omega (arith, stop, high)) pos in
      let s2 = record s { evp2pst = r.pages; nmapped = r.bytes; published = r.events } in
      let (s3, marked, m) =
        mark_placed s2 loc sz bal.segments pos (Placed-still loc sz r.pages r.bytes r.events p) in
      (
        record s3 { eva2sz = (loc, sz) ∷ delete loc s3.eva2sz },
        rw (alloc_at, did, r.is, marked) refl,
        record {
          balanced = record { segments = m.segments; pages = rw (m.pages.0, m.pages.1) r.paged };
          entered = rw m.entries refl;
          states = m.states;
          inside = m.inside;
          free = m.free;
          indexed = m.indexed;
          pages = rw m.pages.0 r.changed;
        },
      )

  -- the placement, where the first span that fits is one of the map
  first-Placed :
      (sz : ℕ) (qs : List (ℕ × ℕ))
      → s.wildern + sz ≤ A.limit
      → All (λ q. sz ≤ q.1) qs
      → All (λ q. Listed A P L G s q.0 q.1) qs
      → Placed A P L G s (first_or A P L G s.wildern qs) sz
  first-Placed sz [] room large listed = wild refl room
  first-Placed sz (q ∷ qs) room large listed = reused q.1 large.0 listed.0

  -- Where the counters agree with the maps, the wilderness has room and every span that iterfor
  -- yields for the size is a TIDY span of the map and of the index, _alloc returns a range of the
  -- size that request_size gives, and with it that range is WAIT and entered with its size, its
  -- pages are MAPD, no other byte or page has changed its state, and the counters agree again.
  pub alloc-Allocated :
      (a : Options) (sz : ℕ)
      → 0 < a.minsize
      → s.wildern + request_size a sz ≤ A.limit
      → All (λ q. Listed A P L G s q.0 q.1) (iterfor L G s.tidylst (request_size a sz) 16)
      → (loc : ℕ) × (s' : Traditional A P L G) × (alloc A P L G a sz s
          ≡ answer (loc, request_size a sz) s')
        × Allocated A P L G s loc (request_size a sz) s'
  unfolding alloc alloc_place
  alloc-Allocated a sz pos room listed =
      let size = request_size a sz in
      let bounds = request_size_bounds a sz in
      let enough = iterfor_enough size (size + 16) (omega arith) L G s.tidylst refl in
      let place = first-Placed size (iterfor L G s.tidylst size 16) room enough listed in
      let (s', did, all) =
        alloc_at-Allocated (alloc_place A P L G size s) size (omega (arith, pos, bounds.1)) place in
      (alloc_place A P L G size s, s', did, all)
