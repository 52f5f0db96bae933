-- ===== src/IntervalMap/Filled.antt =====
-- `IntervalMap` keeps its interface.
use memory_alloc_analysis.Prelude.{
  ℕ, ◌+◌, ◌-◌, ◌≤◌, ◌<◌, ◌≡◌, refl, ◌∙◌, true, ◌&&◌, some, List, [], if◌then◌else◌, leb, ltb, arith,
  done, ok, ◌≢◌, Result-cases, inl, inr,
}
use memory_alloc_analysis.SortedDict.{SortedDict}
use memory_alloc_analysis.IntervalMap.Defs.{Cell, Span, IntervalMap, init, get_item, get_slice}
use memory_alloc_analysis.IntervalMap.Mark.{mark}
use memory_alloc_analysis.IntervalMap.Get.{get, iter_vfilter}
use memory_alloc_analysis.IntervalMap.Refines.{
  IsValid, value, mark-value, get_item-value, value_inside, init-IsValid,
}
use memory_alloc_analysis.IntervalMap.Edges.{get_item_edges}
use memory_alloc_analysis.IntervalMap.Slices.{Run, get_slice-Run}
use memory_alloc_analysis.IntervalMap.Interface.{ValueMap}

module _ {V : Type 0} (S : SortedDict (Cell V)) (dec : Discrete V) (lo hi : ℕ) where
  -- a valid map from lo to below hi
  pub record Covers (m : IntervalMap S) : Type 0 where
    pub valid : IsValid S m
    pub start : m.base ≡ lo
    pub stop : m.base + m.sz ≡ hi

  pub mark_covered :
      (m : IntervalMap S) (loc sz : ℕ) (v : V)
      → Covers m
      → lo ≤ loc
      → 0 < sz
      → loc + sz ≤ hi
      → (m' : IntervalMap S) × (mark S dec loc sz v m ≡ done m')
        × Covers m'
        × ((x : ℕ) → value S m' x ≡ (if leb loc x && ltb x (loc + sz) then some v else value S m x))
  mark_covered m loc sz v c from pos fits =
      let (m', is, valid, base, size, _, changed) =
        mark-value S dec m c.valid loc sz v (omega (arith, c.start)) pos (omega (arith, c.stop)) in
      (
        m',
        is,
        record { valid = valid; start = base ∙ c.start; stop = omega (arith, base, size, c.stop) },
        changed,
      )

  pub slice_covered :
      (m : IntervalMap S) (from to : ℕ)
      → Covers m
      → lo ≤ from
      → from < to
      → to ≤ hi
      → (qs : List (Span V)) × (get_slice S m (some from) (some to) ≡ ok qs)
        × Run (value S m) from to qs
  slice_covered m from to c low some_there high =
      let (qs, is, run, _) =
        get_slice-Run S m c.valid from to (omega (arith, c.start)) some_there
          (omega (arith, c.stop)) in
      (qs, is, run)

  pub edges_covered :
      (m : IntervalMap S) (x k s : ℕ) (w : V)
      → Covers m
      → lo ≤ x
      → x < hi
      → get_item S m x ≡ ok (k, s, w)
      → ((y : ℕ) → y + 1 ≡ k → value S m y ≢ some w) × (value S m (k + s) ≢ some w)
  edges_covered m x k s w c low high =
      get_item_edges S m c.valid x k s w (omega (arith, c.start)) (omega (arith, c.stop))

  pub get_plain : (m : IntervalMap S) (x : ℕ) → get S dec x [] [] [] [] m ≡ get_item S m x
  unfolding get
  get_plain m x = elim (Result-cases (get_item S m x)) [
    | inl (q, is) ↦ rw (get, is) refl
    | inr (e, is) ↦ rw (get, is) refl
  ]

  pub inside_covered :
      (m : IntervalMap S) (x : ℕ) (w : V) → Covers m → value S m x ≡ some w → (lo ≤ x) × (x < hi)
  inside_covered m x w c h =
      let (from, to) = value_inside S m c.valid x w h in
      (omega (arith, from, c.start), omega (arith, to, c.stop))

  abbrev pub value_map : ValueMap V
  value_map = record {
    Map = IntervalMap S;
    base = lo;
    limit = hi;
    get_item = λ x m. get_item S m x;
    get_with = λ x vs m. get S dec x vs [] [] [] m;
    get_slice = λ from to m. get_slice S m (some from) (some to);
    runs = λ to vs m. iter_vfilter S dec to vs m;
    mark = λ loc sz v m. mark S dec loc sz v m;
    IsValid = Covers;
    at = λ m x. value S m x;
    get_item-at = λ m x c from to.
        get_item-value S m c.valid x (omega (arith, c.start)) (omega (arith, c.stop));
    get_item_edges = edges_covered;
    at_inside = inside_covered;
    get_with_none = get_plain;
    get_slice-at = slice_covered;
    mark-at = mark_covered;
  }

  pub init-Covers : (v : V) → lo < hi → Covers (init S lo (hi - lo) v true)
  unfolding init
  init-Covers v h = record {
    valid = (init-IsValid S lo (hi - lo) v (omega arith)).0;
    start = refl;
    stop = omega arith;
  }
