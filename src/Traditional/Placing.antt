-- ===== src/Traditional/Placing.antt =====
-- `_alloc` and the counters.
use memory_alloc_analysis.Prelude.{
  ℕ, zero, ◌≢◌, ◌+◌, ◌-◌, ◌≤◌, ◌<◌, ◌≡◌, refl, sym, ◌∙◌, max, true, false, not, ◌&&◌, ◌==◌, some,
  if◌then◌else◌, leb, ltb, arith, ◌∷◌, done, Bool-cases, inl, inr, ok,
}
use native.Mathlib.Decide.{dec_lt}
use memory_alloc_analysis.SortedDict.Items.{lookup}
use memory_alloc_analysis.IntervalMap.Interface.{ValueMap, get_item_facts, span_inside}
use memory_alloc_analysis.SegFreeList.Defs.{Dllist, FreeList, SegNode, span_of}
use memory_alloc_analysis.SegFreeList.Dict.{delete}
use memory_alloc_analysis.SegFreeList.Spans.{size_at}
use memory_alloc_analysis.SegFreeList.Resized.{remove_common-Without, insert_extcoal-sizes}
use memory_alloc_analysis.Traditional.States.{
  SegSt, ahwm, tidy, wait, is_junk, is_wait, in_at, PageSt, mapd, eva2evp,
}
use memory_alloc_analysis.Traditional.Defs.{Traditional, insert_tidy, sfl_coalesce, when, require}
use memory_alloc_analysis.Traditional.Alloc.{mark_below, mark_beyond, mark_allocated, count_wait}
use memory_alloc_analysis.IntervalMap.Maximal.{Maximal}
use memory_alloc_analysis.IntervalMap.Listing.{Lists-same}
use memory_alloc_analysis.IntervalMap.Carved.{Lists-carved}
use memory_alloc_analysis.Traditional.TidyList.{Indexed, item-Maximal}
use memory_alloc_analysis.Traditional.Balanced.{
  Tallied, Tallied-mark, Balanced, mark_segment-at, Every, count-Every_other, free_no_junk,
  free_no_wait,
}

wait_no_tidy : wait ≢ tidy
wait_no_tidy e = cc e

module _ (A : ValueMap SegSt) (P : ValueMap PageSt) (L : Dllist (ℕ × ℕ)) (G : Dllist ℕ) where
  -- [loc, loc + n) is a TIDY span of the map, and the TIDY list has it.
  pub record Listed (s : Traditional A P L G) (loc n : ℕ) : Type 0 where
    pub node : SegNode L G × G.Node
    pub indexed : lookup loc s.tidylst.adns ≡ some node
    pub sized : (span_of L G node).1 ≡ n
    pub from : A.base ≤ loc
    pub below : loc < A.limit
    pub span : A.get_item loc s.eva2sst ≡ ok (loc, n, tidy)

  -- the wilderness has room for the placement, or it is a TIDY span that is large enough
  pub data Placed (s : Traditional A P L G) (loc sz : ℕ) : Type 0 where
    wild : loc ≡ s.wildern → loc + sz ≤ A.limit → Placed s loc sz
    reused : (n : ℕ) → sz ≤ n → Listed s loc n → Placed s loc sz

  -- What an allocation does: the counters agree, [loc, loc + sz) is WAIT and entered with its size,
  -- where it was free; its pages are MAPD, no other byte or page has another state, and the TIDY list
  -- agrees with the map if it did.
  pub record Allocated (s : Traditional A P L G) (loc sz : ℕ) (s' : Traditional A P L G)
      : Type 0 where
    pub balanced : Balanced A P L G s'
    pub entered : s'.eva2sz ≡ (loc, sz) ∷ delete loc s.eva2sz
    pub states :
        (x : ℕ)
        → A.at s'.eva2sst x
          ≡ (if leb loc x && ltb x (loc + sz) then some wait else A.at s.eva2sst x)
    pub inside : (A.base ≤ loc) × (0 < sz) × (loc + sz ≤ A.limit)
    pub free : Every A in_at s.eva2sst loc sz
    pub indexed : Indexed A P L G s → Indexed A P L G s'
    pub pages :
        (x : ℕ)
        → P.at s'.evp2pst x ≡ (
            if leb (eva2evp loc) x && ltb x (eva2evp (loc + sz - 1) + 1)
            then some mapd
            else P.at s.evp2pst x)

  -- What `_mark_allocated` does.
  pub record Marked (s : Traditional A P L G) (loc sz : ℕ) (s' : Traditional A P L G) : Type 0 where
    pub segments : Tallied A s'.wildern s'.eva2sst s'.njunk s'.nwait
    pub pages : (s'.evp2pst ≡ s.evp2pst) × (s'.nmapped ≡ s.nmapped)
    pub entries : s'.eva2sz ≡ s.eva2sz
    pub states :
        (x : ℕ)
        → A.at s'.eva2sst x
          ≡ (if leb loc x && ltb x (loc + sz) then some wait else A.at s.eva2sst x)
    pub inside : (A.base ≤ loc) × (0 < sz) × (loc + sz ≤ A.limit)
    pub free : Every A in_at s.eva2sst loc sz
    pub indexed : Indexed A P L G s → Indexed A P L G s'

  module _ (s : Traditional A P L G) (loc sz : ℕ)
      (t : Tallied A s.wildern s.eva2sst s.njunk s.nwait) (pos : 0 < sz) where
    -- bytes that are free get WAIT
    waiting-Tallied :
        (m' : A.Map)
        → A.base ≤ loc
        → loc ≤ s.wildern
        → loc + sz ≤ A.limit
        → A.IsValid m'
        → ((x : ℕ)
            → A.at m' x ≡ (if leb loc x && ltb x (loc + sz) then some wait else A.at s.eva2sst x))
        → Every A in_at s.eva2sst loc sz
        → Tallied A (max s.wildern (loc + sz)) m' s.njunk (s.nwait + sz)
    waiting-Tallied m' from reach fits valid changed free =
        Tallied-mark A s.wildern s.njunk s.nwait s.eva2sst m' wait loc sz t from fits reach valid
          changed s.njunk (s.nwait + sz) refl
          (omega (arith, count-Every_other A is_junk in_at s.eva2sst loc sz free_no_junk free))
          (omega (arith, count-Every_other A is_wait in_at s.eva2sst loc sz free_no_wait free))

    wild_unused :
        loc ≡ s.wildern
        → loc + sz ≤ A.limit
        → (x : ℕ) → loc ≤ x
        → x < loc + sz
        → A.at s.eva2sst x ≡ some ahwm
    wild_unused here fits x a c = t.unused x (omega (arith, here, a)) (omega (arith, fits, c))

    wild_free : loc ≡ s.wildern → loc + sz ≤ A.limit → Every A in_at s.eva2sst loc sz
    wild_free here fits x a c = rw (wild_unused here fits x a c) refl

    module _ (m' : A.Map) (unused : (x : ℕ) → loc ≤ x → x < loc + sz → A.at s.eva2sst x ≡ some ahwm)
        (changed : (x : ℕ)
          → A.at m' x
            ≡ (if leb loc x && ltb x (loc + sz) then some wait else A.at s.eva2sst x)) where
      kept_tidy : (x : ℕ) → A.at s.eva2sst x ≡ some tidy → A.at m' x ≡ some tidy
      kept_tidy x h = elim (Bool-cases (leb loc x && ltb x (loc + sz))) [
        | inl within ↦ cc (h, unused x (ground (arith, within)) (ground (arith, within)))
        | inr out ↦ changed x ∙ rw out h
      ]

    no_new_tidy :
        (m' : A.Map)
        → ((x : ℕ)
            → A.at m' x ≡ (if leb loc x && ltb x (loc + sz) then some wait else A.at s.eva2sst x))
        → (x : ℕ) → A.at m' x ≡ some tidy
        → A.at s.eva2sst x ≡ some tidy
    no_new_tidy m' changed x h = elim (Bool-cases (leb loc x && ltb x (loc + sz))) [
      | inl within ↦ let now : A.at m' x ≡ some wait = changed x ∙ rw within refl in cc (now, h)
      | inr out ↦ let now : A.at m' x ≡ A.at s.eva2sst x = changed x ∙ rw out refl in sym now ∙ h
    ]

    pub mark_wild :
        loc ≡ s.wildern
        → loc + sz ≤ A.limit
        → (s' : Traditional A P L G) × (mark_allocated A P L G loc sz s ≡ done s')
          × Marked s loc sz s'
    unfolding mark_allocated mark_beyond
    mark_wild here fits =
        let (m', did, valid, changed) =
          mark_segment-at A P L G loc sz wait s t.valid (omega (arith, t.low, here)) pos fits in
        let at : leb s.wildern loc ≡ true = ground arith in
        let no_gap : ltb s.wildern loc ≡ false = ground arith in
        (
          count_wait A P L G loc sz (record s { eva2sst = m' }),
          rw (mark_allocated, at, mark_beyond, no_gap, did) refl,
          record {
            segments =
                waiting-Tallied m' (omega (arith, t.low, here)) (omega (arith, here)) fits valid
                  changed (wild_free here fits);
            pages = (refl, refl);
            entries = refl;
            states = changed;
            inside = (omega (arith, t.low, here), pos, fits);
            free = wild_free here fits;
            indexed =
                Lists-same (A.at s.eva2sst) (A.at m') tidy (size_at L G s.tidylst)
                  (kept_tidy m' (wild_unused here fits) changed) (no_new_tidy m' changed);
          },
        )

    module _ (n : ℕ) (enough : sz ≤ n) (l : Listed s loc n) where
      facts :
          (loc ≤ loc)
          × (loc < loc + n)
          × ((y : ℕ) → loc ≤ y → y < loc + n → A.at s.eva2sst y ≡ some tidy)
      facts = get_item_facts A s.eva2sst loc loc n tidy t.valid l.from l.below l.span

      pub listed_inside : (A.base ≤ loc) × (loc + n ≤ A.limit)
      listed_inside = span_inside A s.eva2sst loc n loc tidy t.valid facts.0 facts.1 facts.2

      below_wild : loc < s.wildern
      below_wild = elim (Bool-cases (ltb loc s.wildern)) [
        | inl lt ↦ ground arith
        | inr ge ↦ cc (facts.2 loc facts.0 facts.1, t.unused loc (ground arith) l.below)
      ]

      -- what is left of the span is a span of its own
      residual :
          (m' : A.Map)
          → A.IsValid m'
          → ((x : ℕ)
              → A.at m' x ≡ (if leb loc x && ltb x (loc + sz) then some wait else A.at s.eva2sst x))
          → sz < n
          → A.get_item (loc + sz) m' ≡ ok (loc + sz, loc + n - loc - sz, tidy)
      residual m' valid changed more =
          let (k, e, w, is, le, past, all) =
            A.get_item-at m' (loc + sz) valid (omega (arith, l.from))
              (omega (arith, listed_inside.1, more)) in
          let same : (x : ℕ) → loc + sz ≤ x → A.at m' x ≡ A.at s.eva2sst x =
            λ x a. changed x ∙ ground (arith, a) in
          let is_tidy : A.at m' (loc + sz) ≡ some tidy =
            same (loc + sz) (omega arith)
            ∙ facts.2 (loc + sz) (omega arith) (omega (arith, more)) in
          let state : some w ≡ some tidy = sym (all (loc + sz) le past) ∙ is_tidy in
          let edges =
            A.get_item_edges m' (loc + sz) k e w valid (omega (arith, l.from))
              (omega (arith, listed_inside.1, more)) is in
          let old_edges = A.get_item_edges s.eva2sst loc loc n tidy t.valid l.from l.below l.span in
          let start : k ≡ loc + sz = elim (dec_lt k (loc + sz)) [
            | no ge ↦ omega (arith, le, ge)
            | yes lt ↦
                let last : A.at m' (loc + sz - 1) ≡ some wait =
                  changed (loc + sz - 1) ∙ ground (arith, pos) in
                cc (last, state, all (loc + sz - 1) (omega (arith, lt)) (omega (arith, past)))
          ] in
          let stop : k + e ≡ loc + n = elim (dec_lt (k + e) (loc + n)) [
            | yes short ↦ absurd (
                edges.1 (
                  same (k + e) (omega (arith, past))
                  ∙ facts.2 (k + e) (omega (arith, past)) short
                  ∙ sym state))
            | no ge ↦ elim (dec_lt (loc + n) (k + e)) [
              | yes long ↦ absurd (
                  old_edges.1 (
                    sym (same (loc + n) (omega (arith, more)))
                    ∙ all (loc + n) (omega (arith, start, more)) long
                    ∙ state))
              | no le' ↦ omega (arith, ge, le')
            ]
          ] in
          is ∙ ground (arith, start, stop, state)

      insert_rest :
          (m' : A.Map) (s1 : Traditional A P L G)
          → s1.eva2sst ≡ m'
          → A.IsValid m'
          → ((x : ℕ)
              → A.at m' x ≡ (if leb loc x && ltb x (loc + sz) then some wait else A.at s.eva2sst x))
          → (l' : FreeList L G) × (when A P L G
                (not (loc + n == loc + sz))
                (insert_tidy A P L G (loc + sz) (loc + n - loc - sz))
                s1
              ≡ done (record s1 { tidylst = l' }))
            × ((j : ℕ)
                → size_at L G l' j ≡ (
                    if j == loc + sz && not (loc + n == loc + sz)
                    then some (loc + n - loc - sz)
                    else size_at L G s1.tidylst j))
      unfolding insert_tidy sfl_coalesce
      insert_rest m' s1 on valid changed = elim (Bool-cases (loc + n == loc + sz)) [
        | inl whole ↦ (s1.tidylst, rw whole refl, λ j. ground (arith, whole))
        | inr part ↦
            let rest = residual m' valid changed (ground (arith, part, enough)) in
            let va = loc + sz in
            let size = loc + n - loc - sz in
            let (l', did, sizes) =
              insert_extcoal-sizes L G va size va size zero zero s1.tidylst
                (λ h. absurd (ground (arith, h))) (λ h. absurd (ground (arith, h)))
                (λ e. ground (arith, e, part, enough)) in
            (
              l',
              rw (part, insert_tidy, sfl_coalesce, on, A.get_with_none, rest, did) refl,
              λ j. sizes j ∙ ground (arith, part),
            )
      ]

      size_listed : size_at L G s.tidylst loc ≡ some n
      size_listed = rw (l.indexed, l.sized) refl

      run : Maximal (A.at s.eva2sst) tidy loc n
      run = item-Maximal A P L G s.eva2sst loc loc n tidy t.valid l.from l.below l.span

      pub mark_reused :
          (s' : Traditional A P L G) × (mark_allocated A P L G loc sz s ≡ done s')
          × Marked s loc sz s'
      unfolding mark_allocated mark_below
      mark_reused =
          let (l1, removed, without) = remove_common-Without L G loc n s.tidylst size_listed in
          let s1 = record s { tidylst = l1 } in
          let (m', did, valid, changed) =
            mark_segment-at A P L G loc sz wait s1 t.valid l.from pos
              (omega (arith, listed_inside.1, enough)) in
          let (l2, put, sizes) = insert_rest m' (record s1 { eva2sst = m' }) refl valid changed in
          let low : leb s.wildern loc ≡ false = ground (arith, below_wild) in
          let room : leb sz n ≡ true = ground (arith, enough) in
          let size : (n == n) ≡ true = ground arith in
          let start : (loc == loc) ≡ true = ground arith in
          (
            count_wait A P L G loc sz (record s { tidylst = l2; eva2sst = m' }),
            rw
                (
                  mark_allocated, low, mark_below, l.span, require, room, removed, size, did, put,
                  start,
                )
                refl,
            record {
              segments =
                  waiting-Tallied m' l.from (omega (arith, below_wild))
                    (omega (arith, listed_inside.1, enough)) valid changed
                    (λ x a c. rw (facts.2 x a (omega (arith, c, enough))) refl);
              pages = (refl, refl);
              entries = refl;
              states = changed;
              inside = (l.from, pos, omega (arith, listed_inside.1, enough));
              free = λ x a c. rw (facts.2 x a (omega (arith, c, enough))) refl;
              indexed = λ lists.
                  Lists-carved (A.at s.eva2sst) (A.at m') tidy wait loc sz n pos enough wait_no_tidy
                    changed run (size_at L G s.tidylst) (size_at L G l2) lists
                    (λ j. sizes j ∙ rw (without j) refl);
            },
          )
