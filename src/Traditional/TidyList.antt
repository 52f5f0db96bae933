-- ===== src/Traditional/TidyList.antt =====
-- The TIDY list against the map of the segments.
use memory_alloc_analysis.Prelude.{
  ℕ, ◌+◌, ◌-◌, ◌≤◌, ◌<◌, ◌≡◌, ◌≢◌, refl, sym, ◌∙◌, subst, ◌&&◌, some, if◌then◌else◌, leb, ltb,
  arith, done, ok,
}
use memory_alloc_analysis.IntervalMap.Interface.{ValueMap, get_item_facts}
use memory_alloc_analysis.IntervalMap.Maximal.{Maximal, left_part, right_part, run_reaches}
use memory_alloc_analysis.IntervalMap.Listing.{Lists, Lists-resized}
use memory_alloc_analysis.SegFreeList.Defs.{Dllist, FreeList}
use memory_alloc_analysis.SegFreeList.Spans.{size_at}
use memory_alloc_analysis.SegFreeList.Resized.{insert_extcoal-sizes}
use memory_alloc_analysis.Traditional.States.{SegSt, tidy, PageSt}
use memory_alloc_analysis.Traditional.Defs.{Traditional, mark_tidy, insert_tidy, sfl_coalesce}
use memory_alloc_analysis.Traditional.Balanced.{mark_segment-at}

module _ (A : ValueMap SegSt) (P : ValueMap PageSt) (L : Dllist (ℕ × ℕ)) (G : Dllist ℕ) where
  -- The index of the TIDY list has the longest TIDY runs of the map.
  abbrev pub Indexed : Traditional A P L G → Type 0
  Indexed s = Lists (A.at s.eva2sst) tidy (size_at L G s.tidylst)

  -- indexing gives a longest run
  pub item-Maximal :
      (m : A.Map) (x k n : ℕ) (w : SegSt)
      → A.IsValid m
      → A.base ≤ x
      → x < A.limit
      → A.get_item x m ≡ ok (k, n, w)
      → Maximal (A.at m) w k n
  item-Maximal m x k n w valid from to is =
      let (le, lt, all) = get_item_facts A m x k n w valid from to is in
      let edges = A.get_item_edges m x k n w valid from to is in
      record { some_there = omega (arith, le, lt); all = all; left = edges.0; right = edges.1 }

  module _ (loc sz : ℕ) (s : Traditional A P L G) (valid : A.IsValid s.eva2sst)
      (indexed : Indexed s) (from : A.base ≤ loc) (pos : 0 < sz) (fits : loc + sz ≤ A.limit)
      (fresh : (x : ℕ) → loc ≤ x → x < loc + sz → A.at s.eva2sst x ≢ some tidy) where
    -- Where the index of the TIDY list has exactly the longest TIDY runs of the map and the range
    -- lies on the map and has no TIDY byte, _mark_tidy returns: the range is TIDY, no other byte has
    -- changed, and the index has exactly the longest TIDY runs again.
    pub mark_tidy-Indexed :
        (m' : A.Map) × (l' : FreeList L G) × (mark_tidy A P L G loc sz s
          ≡ done (record s { eva2sst = m'; tidylst = l' }))
        × A.IsValid m'
        × ((x : ℕ)
            → A.at m' x ≡ (if leb loc x && ltb x (loc + sz) then some tidy else A.at s.eva2sst x))
        × Lists (A.at m') tidy (size_at L G l')
    unfolding mark_tidy insert_tidy sfl_coalesce
    mark_tidy-Indexed =
        let (m', did, valid', changed) =
          mark_segment-at A P L G loc sz tidy s valid from pos fits in
        let (k, n, w, is, le, past, all) =
          A.get_item-at m' loc valid' from (omega (arith, pos, fits)) in
        let here : A.at m' loc ≡ some tidy = changed loc ∙ ground (arith, pos) in
        let state : some w ≡ some tidy = sym (all loc le past) ∙ here in
        let run : Maximal (A.at m') tidy k n =
          subst (λ u. Maximal (A.at m') u k n) (cc state)
            (item-Maximal m' loc k n w valid' from (omega (arith, pos, fits)) is) in
        let f = A.at s.eva2sst in
        let g = A.at m' in
        let reach = run_reaches f g tidy loc sz pos changed fresh k n run le past in
        let (l', put, sizes) =
          insert_extcoal-sizes L G k n loc sz (loc - k) (k + n - (loc + sz)) s.tidylst
            (λ h.
              (indexed k (loc - k)).1 (
                left_part f g tidy loc sz pos changed fresh k n run le past
                  (ground (arith, h, le))))
            (λ h. (indexed (loc + sz) (k + n - (loc + sz))).1 (
              right_part f g tidy loc sz pos changed fresh k n run le past
                (ground (arith, h, reach))))
            (λ e. omega (arith, e, le, pos)) in
        (
          m',
          l',
          rw (mark_tidy, did, insert_tidy, sfl_coalesce, A.get_with_none, is, put) refl,
          valid',
          changed,
          Lists-resized f g tidy loc sz pos changed fresh k n run le past (size_at L G s.tidylst)
              (size_at L G l') indexed sizes,
        )
