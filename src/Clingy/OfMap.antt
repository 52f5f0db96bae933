-- ===== src/Clingy/OfMap.antt =====
-- `IntervalMap` as the map of the states of buckets.
use memory_alloc_analysis.Prelude.{
  ℕ, ◌+◌, ◌-◌, ◌≤◌, ◌<◌, ◌≡◌, refl, ◌∙◌, true, ◌&&◌, some, [], ◌∷◌, if◌then◌else◌, leb, ltb, arith,
  done,
}
use memory_alloc_analysis.SortedDict.{SortedDict}
use memory_alloc_analysis.IntervalMap.Defs.{Cell, IntervalMap, init, get_item, get_slice}
use memory_alloc_analysis.IntervalMap.Mark.{mark, test_location}
use memory_alloc_analysis.IntervalMap.Get.{get, iter_vfilter, iter}
use memory_alloc_analysis.IntervalMap.Refines.{
  IsValid, value, mark-value, get_item-value, init-IsValid,
}
use memory_alloc_analysis.Clingy.States.{BuckSt, ahwm, tidy, junk, BucketMap}

abbrev pub BuckSt_discrete : Discrete BuckSt
BuckSt_discrete = hlevel

module _ (S : SortedDict (Cell BuckSt)) (hi : ℕ) where
  -- a valid map of the buckets from 1 to below `hi`
  pub record Covers (m : IntervalMap S) : Type 0 where
    pub valid : IsValid S m
    pub start : m.base ≡ 1
    pub stop : m.base + m.sz ≡ hi

  pub mark_covered :
      (m : IntervalMap S) (loc sz : ℕ) (v : BuckSt)
      → Covers m
      → 1 ≤ loc
      → 0 < sz
      → loc + sz ≤ hi
      → (m' : IntervalMap S) × (mark S BuckSt_discrete loc sz v m ≡ done m')
        × Covers m'
        × ((x : ℕ) → value S m' x ≡ (if leb loc x && ltb x (loc + sz) then some v else value S m x))
  mark_covered m loc sz v c from pos fits =
      let (m', is, valid, base, size, _, changed) =
        mark-value S BuckSt_discrete m c.valid loc sz v (omega (arith, c.start)) pos
          (omega (arith, c.stop)) in
      (
        m',
        is,
        record { valid = valid; start = base ∙ c.start; stop = omega (arith, base, size, c.stop) },
        changed,
      )

  -- self._bix2state
  abbrev pub bucket_map : BucketMap
  bucket_map = record {
    Map = IntervalMap S;
    limit = hi;
    get_item = λ x m. get_item S m x;
    get_tj = λ x m. get S BuckSt_discrete x (tidy ∷ junk ∷ []) [] [] [] m;
    get_slice = λ lo up m. get_slice S m (some lo) (some up);
    spans = λ m. iter S BuckSt_discrete m;
    runs_tj = λ up m. iter_vfilter S BuckSt_discrete up (tidy ∷ junk ∷ []) m;
    mark = λ loc sz v m. mark S BuckSt_discrete loc sz v m;
    test_location = λ loc m. test_location S BuckSt_discrete loc m;
    IsValid = Covers;
    at = λ m x. value S m x;
    get_item-at = λ m x c from to.
        get_item-value S m c.valid x (omega (arith, c.start)) (omega (arith, c.stop));
    mark-at = mark_covered;
  }

  -- the map of a new allocator
  pub init-Covers : 1 < hi → Covers (init S 1 (hi - 1) ahwm true)
  unfolding init
  init-Covers h = record {
    valid = (init-IsValid S 1 (hi - 1) ahwm (omega arith)).0;
    start = refl;
    stop = omega arith;
  }
