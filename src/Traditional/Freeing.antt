-- ===== src/Traditional/Freeing.antt =====
-- `_free`, `_free_unsafe` and the counters.
use memory_alloc_analysis.Prelude.{
  ℕ, ◌+◌, ◌-◌, ◌*◌, ◌^◌, ◌≤◌, ◌<◌, ◌≡◌, refl, sym, ap, ◌∙◌, subst, Bool, true, false, not, ◌&&◌,
  ◌==◌, some, if◌then◌else◌, leb, ltb, arith, Outcome, done, raised, and_run, object, Bool-cases,
  inl, inr, Option-cases, Result-cases, Answer-cases, ok, ok-eq,
}
use memory_alloc_analysis.SortedDict.Items.{lookup}
use memory_alloc_analysis.IntervalMap.Counts.{count, holds}
use memory_alloc_analysis.IntervalMap.Interface.{ValueMap, span_inside}
use memory_alloc_analysis.SegFreeList.Dict.{delete}
use memory_alloc_analysis.SegFreeList.Defs.{Dllist}
use memory_alloc_analysis.SegFreeList.Extern.{insert_extcoal}
use memory_alloc_analysis.Clingy.Defs.{njunk}
use memory_alloc_analysis.Traditional.States.{
  SegSt, tidy, junk, is_junk, is_wait, is_tidy, sst_tj, PageSt, pagelog,
}
use memory_alloc_analysis.Traditional.Defs.{
  Traditional, Method, mark_tidy, insert_tidy, sfl_coalesce, unlist, enlist, coalesced_insert, when,
  require,
}
use memory_alloc_analysis.Traditional.Free.{
  free, free_unsafe, free_marked, free_tidied, pop_size, revise_cache, count_junk, unmap_large,
  unmap_tidy,
}
use memory_alloc_analysis.Traditional.Pages.{ensure_unmapped-Repaged}
use memory_alloc_analysis.Traditional.Balanced.{
  Tallied, Tallied-mark, total_change, Balanced, mark_segment-at, Every, count-Every,
  count-Every_other, wait_no_junk, touched,
}

module _ (A : ValueMap SegSt) (P : ValueMap PageSt) (L : Dllist (ℕ × ℕ)) (G : Dllist ℕ) where
  pub and_run-Balanced :
      (o : Outcome (Traditional A P L G)) (next : Method A P L G)
      → Balanced A P L G (object o)
      → ((s : Traditional A P L G) → Balanced A P L G s → Balanced A P L G (object (next s)))
      → Balanced A P L G (object (and_run o next))
  and_run-Balanced (done s) next h k = k s h
  and_run-Balanced (raised e s) next h k = h

  -- the methods on the lists change none of it
  pub insert_tidy-Balanced :
      (loc sz : ℕ) (s : Traditional A P L G)
      → Balanced A P L G s
      → Balanced A P L G (object (insert_tidy A P L G loc sz s))
  unfolding insert_tidy
  insert_tidy-Balanced loc sz s acc = elim (Result-cases (sfl_coalesce A P L G s.eva2sst loc)) [
    | inr (e, bad) ↦ rw (insert_tidy, bad) acc
    | inl (c, good) ↦ elim (Answer-cases (insert_extcoal L G (λ _. c) loc sz false s.tidylst)) [
      | inl (a, l, did) ↦
          rw (insert_tidy, good, did) (record { segments = acc.segments; pages = acc.pages })
      | inr (e, l, did) ↦
          rw (insert_tidy, good, did) (record { segments = acc.segments; pages = acc.pages })
    ]
  ]

  pub unlist-Balanced :
      (loc : ℕ) (s : Traditional A P L G)
      → Balanced A P L G s
      → Balanced A P L G (object (unlist A P L G loc s))
  unfolding unlist
  unlist-Balanced loc s acc = elim (Option-cases (lookup loc s.junkadn)) [
    | inl gone ↦ rw (unlist, gone) acc
    | inr (node, here) ↦ rw (unlist, here) (record { segments = acc.segments; pages = acc.pages })
  ]

  when-unlist-Balanced :
      (b : Bool) (loc : ℕ) (s : Traditional A P L G)
      → Balanced A P L G s
      → Balanced A P L G (object (when A P L G b (unlist A P L G loc) s))
  when-unlist-Balanced true loc s acc = unlist-Balanced loc s acc
  when-unlist-Balanced false loc s acc = acc

  revise_cache-Balanced :
      (loc : ℕ) (s : Traditional A P L G)
      → Balanced A P L G s
      → Balanced A P L G (object (revise_cache A P L G loc s))
  revise_cache-Balanced loc s acc = elim (Option-cases s.brscache) [
    | inl empty ↦ rw empty (record { segments = acc.segments; pages = acc.pages })
    | inr (b, cached) ↦ elim (Result-cases (A.get_with loc sst_tj s.eva2sst)) [
      | inr (e, bad) ↦ rw (cached, bad) (record { segments = acc.segments; pages = acc.pages })
      | inl (q, good) ↦ elim (Bool-cases (leb (njunk b) q.1)) [
        | inl large ↦
            rw (cached, good, large) (record { segments = acc.segments; pages = acc.pages })
        | inr small ↦
            rw (cached, good, small) (record { segments = acc.segments; pages = acc.pages })
      ]
    ]
  ]

  -- the map's span that holds loc, where the map is indexed at a point that it has
  item_inside :
      (s : Traditional A P L G) (loc : ℕ) (q : ℕ × ℕ × SegSt)
      → A.IsValid s.eva2sst
      → A.base ≤ loc
      → loc < A.limit
      → A.get_item loc s.eva2sst ≡ ok q
      → (A.base ≤ q.0) × (q.0 + q.1 ≤ A.limit)
  item_inside s loc q valid from to is =
      let (k, n, w, is', le, past, all) = A.get_item-at s.eva2sst loc valid from to in
      subst (λ (r : ℕ × ℕ × SegSt). (A.base ≤ r.0) × (r.0 + r.1 ≤ A.limit)) (ok-eq (sym is' ∙ is))
        (span_inside A s.eva2sst k n loc w valid le past all)

  -- [loc, loc + sz) is a range of allocated bytes
  pub record Held (m : A.Map) (loc sz : ℕ) : Type 0 where
    pub from : A.base ≤ loc
    pub some_there : 0 < sz
    pub fits : loc + sz ≤ A.limit
    pub used : Every A is_wait m loc sz

  -- every entry of _eva2sz is of allocated bytes
  pub record Backed (s : Traditional A P L G) : Type 0 where
    pub held : (loc sz : ℕ) → lookup loc s.eva2sz ≡ some sz → Held s.eva2sst loc sz

  -- the two maps are of the same addresses
  module _ (start : A.base ≡ P.base * 2 ^ pagelog) (stop : A.limit ≡ P.limit * 2 ^ pagelog) where
    unmap_large-Balanced :
        (k n : ℕ) (s : Traditional A P L G)
        → (A.base ≤ k) × (k + n ≤ A.limit)
        → Balanced A P L G s
        → Balanced A P L G (object (unmap_large A P L G (k, n) s))
    unfolding unmap_large
    unmap_large-Balanced k n s inside acc = elim (Bool-cases (ltb (16 * 2 ^ pagelog) n)) [
      | inr small ↦ rw (unmap_large, small) acc
      | inl large ↦
          let (s', did, r, _, _, _, _) =
            ensure_unmapped-Repaged A P L G s k n acc.pages (omega (arith, start, inside.0))
              (omega (arith, stop, inside.1)) (ground (arith, large)) in
          rw (unmap_large, large, did, r.is) (record { segments = acc.segments; pages = r.paged })
    ]

    coalesced_insert-Balanced :
        (loc sz : ℕ) (s : Traditional A P L G)
        → A.base ≤ loc
        → loc < A.limit
        → Balanced A P L G s
        → Balanced A P L G (object (coalesced_insert A P L G loc sz (unmap_large A P L G) s))
    unfolding coalesced_insert enlist
    coalesced_insert-Balanced loc sz s from to acc =
        elim (Result-cases (A.get_item loc s.eva2sst)) [
          | inr (e, bad) ↦ rw (coalesced_insert, bad) acc
          | inl (q, good) ↦
              rw (coalesced_insert, good)
                (let left = when A P L G (not (loc == q.0)) (unlist A P L G q.0) s in
                  let right =
                    when A P L G (not (q.0 + q.1 == loc + sz)) (unlist A P L G (loc + sz)) in
                  and_run-Balanced (and_run left right)
                    (λ s1. unmap_large A P L G (q.0, q.1) (enlist A P L G q.0 q.1 s1))
                    (and_run-Balanced left right (when-unlist-Balanced (not (loc == q.0)) q.0 s acc)
                      (when-unlist-Balanced (not (q.0 + q.1 == loc + sz)) (loc + sz)))
                    (λ s1 acc1.
                      unmap_large-Balanced q.0 q.1 (enlist A P L G q.0 q.1 s1)
                        (item_inside s loc q acc.segments.valid from to good)
                        (record { segments = acc1.segments; pages = acc1.pages })))
        ]

    unmap_tidy-Balanced :
        (loc : ℕ) (s : Traditional A P L G)
        → A.base ≤ loc
        → loc < A.limit
        → Balanced A P L G s
        → Balanced A P L G (object (unmap_tidy A P L G loc s))
    unfolding unmap_tidy
    unmap_tidy-Balanced loc s from to acc = elim (Result-cases (A.get_item loc s.eva2sst)) [
      | inr (e, bad) ↦ rw (unmap_tidy, A.get_with_none, bad) acc
      | inl (q, good) ↦ elim (Bool-cases (is_tidy q.2)) [
        | inr other ↦ rw (unmap_tidy, A.get_with_none, good, require, other) acc
        | inl free ↦
            rw (unmap_tidy, A.get_with_none, good, require, free)
              (unmap_large-Balanced q.0 q.1 s (item_inside s loc q acc.segments.valid from to good)
                acc)
      ]
    ]

    module _ (loc sz : ℕ) (s : Traditional A P L G) (acc : Balanced A P L G s)
        (h : Held s.eva2sst loc sz) where
      no_junk_there : count is_junk (A.at s.eva2sst) loc sz ≡ 0
      no_junk_there = count-Every_other A is_junk is_wait s.eva2sst loc sz wait_no_junk h.used

      all_there : count is_wait (A.at s.eva2sst) loc sz ≡ sz
      all_there = count-Every A is_wait s.eva2sst loc sz h.used

      end_below : loc + sz ≤ s.wildern
      end_below = elim (Bool-cases (leb (loc + sz) s.wildern)) [
        | inl le ↦ ground arith
        | inr gt ↦
            let last =
              h.used (loc + sz - 1) (omega (arith, h.some_there)) (omega (arith, h.some_there)) in
            cc (
              last,
              ap (holds is_wait) (
                  acc.segments.unused (loc + sz - 1) (ground (arith, gt, h.some_there))
                    (omega (arith, h.fits, h.some_there))),
            )
      ]

      -- marked with a state that is not WAIT
      freed-Tallied :
          (m' : A.Map) (v : SegSt) (nj : ℕ)
          → A.IsValid m'
          → ((x : ℕ)
              → A.at m' x ≡ (if leb loc x && ltb x (loc + sz) then some v else A.at s.eva2sst x))
          → touched v ≡ true
          → is_wait v ≡ false
          → nj ≡ s.njunk + (if is_junk v then sz else 0)
          → Tallied A s.wildern m' nj (s.nwait - sz)
      freed-Tallied m' v nj valid changed is_touched other junks =
          let e = end_below in
          let change =
            total_change A s.wildern s.njunk s.nwait s.eva2sst m' v loc sz acc.segments h.from
              h.fits (omega (arith, e)) valid changed is_wait in
          let none_new : (if is_wait v then sz else 0) ≡ 0 = rw other refl in
          subst (λ n. Tallied A n m' nj (s.nwait - sz)) (omega (arith, e))
            (Tallied-mark A s.wildern s.njunk s.nwait s.eva2sst m' v loc sz acc.segments h.from
              h.fits (omega (arith, e)) valid changed nj (s.nwait - sz) is_touched
              (omega (arith, junks, no_junk_there))
              (omega (arith, change, none_new, all_there, acc.segments.waits)))

      free_marked-Balanced : Balanced A P L G (object (free_marked A P L G loc sz s))
      unfolding free_marked
      free_marked-Balanced =
          let (m', did, valid, changed) =
            mark_segment-at A P L G loc sz junk s acc.segments.valid h.from h.some_there h.fits in
          let s1 = record s { eva2sst = m' } in
          let t = freed-Tallied m' junk (s.njunk + sz) valid changed refl refl refl in
          rw (free_marked, did)
            (and_run-Balanced (revise_cache A P L G loc (count_junk A P L G sz s1))
              (coalesced_insert A P L G loc sz (unmap_large A P L G))
              (revise_cache-Balanced loc (count_junk A P L G sz s1)
                (record { segments = t; pages = acc.pages }))
              (λ s2 acc2.
                coalesced_insert-Balanced loc sz s2 h.from (omega (arith, h.fits, h.some_there))
                  acc2))

      free_tidied-Balanced : Balanced A P L G (object (free_tidied A P L G loc sz s))
      unfolding free_tidied mark_tidy
      free_tidied-Balanced =
          let s0 = record s { nwait = s.nwait - sz } in
          let (m', did, valid, changed) =
            mark_segment-at A P L G loc sz tidy s0 acc.segments.valid h.from h.some_there h.fits in
          let t = freed-Tallied m' tidy s.njunk valid changed refl refl (omega arith) in
          rw (free_tidied, mark_tidy, did)
            (and_run-Balanced (insert_tidy A P L G loc sz (record s0 { eva2sst = m' }))
              (unmap_tidy A P L G loc)
              (insert_tidy-Balanced loc sz (record s0 { eva2sst = m' })
                (record { segments = t; pages = acc.pages }))
              (λ s1 acc1.
                unmap_tidy-Balanced loc s1 h.from (omega (arith, h.fits, h.some_there)) acc1))

    pop_size-Balanced :
        (loc : ℕ) (next : ℕ → Method A P L G) (s : Traditional A P L G)
        → Balanced A P L G s
        → ((sz : ℕ)
            → lookup loc s.eva2sz ≡ some sz
            → Balanced A P L G (object (next sz (record s { eva2sz = delete loc s.eva2sz }))))
        → Balanced A P L G (object (pop_size A P L G loc next s))
    pop_size-Balanced loc next s acc go = elim (Result-cases (A.get_item loc s.eva2sst)) [
      | inr (e, bad) ↦ rw bad acc
      | inl (q, good) ↦ elim (Bool-cases (is_wait q.2)) [
        | inr other ↦ rw (good, other) acc
        | inl held ↦ elim (Option-cases (lookup loc s.eva2sz)) [
          | inl gone ↦ rw (good, held, require, gone) acc
          | inr (sz, here) ↦ rw (good, held, require, here) (go sz here)
        ]
      ]
    ]

    module _ (loc : ℕ) (s : Traditional A P L G) (acc : Balanced A P L G s)
        (backed : Backed s) where
      popped : Balanced A P L G (record s { eva2sz = delete loc s.eva2sz })
      popped = record { segments = acc.segments; pages = acc.pages }

      -- Where _njunk, _nwait, _nmapped and the wilderness agree with the maps and every entry of
      -- _eva2sz is of WAIT bytes, _free leaves the counters in agreement, for every address and on
      -- every branch, also where it raises.
      pub free-Balanced : Balanced A P L G (object (free A P L G loc s))
      unfolding free
      free-Balanced = pop_size-Balanced loc (free_marked A P L G loc) s acc (λ sz here.
          free_marked-Balanced loc sz (record s { eva2sz = delete loc s.eva2sz }) popped
            (backed.held loc sz here))

      -- The same of _free_unsafe, which frees to TIDY.
      pub free_unsafe-Balanced : Balanced A P L G (object (free_unsafe A P L G loc s))
      unfolding free_unsafe
      free_unsafe-Balanced = pop_size-Balanced loc (free_tidied A P L G loc) s acc (λ sz here.
          free_tidied-Balanced loc sz (record s { eva2sz = delete loc s.eva2sz }) popped
            (backed.held loc sz here))
