-- ===== src/IntervalMap/Refines.antt =====
-- The promises of `IntervalMap`: a piecewise constant function on [base, base + sz), updated by
-- `mark`, `unmark`, `add` and `remove`, and read by `__getitem__`.
use memory_alloc_analysis.Prelude.{
  ℕ, suc, ◌+◌, ◌<◌, ◌≤◌, ◌≡◌, refl, ◌∙◌, ◌&&◌, true, false, List, [], ◌∷◌, ◌++◌, arith, ltb, leb,
  length, if◌then◌else◌, some, Option, none, Outcome, done, raised, ok, value_error, Bool-cases,
  inl, inr,
}
use memory_alloc_analysis.SortedDict.{SortedDict}
use memory_alloc_analysis.SortedDict.Items.{Below-le, bisect_right-append}
use memory_alloc_analysis.SortedDict.Located.{get_here, key_at_here}
use memory_alloc_analysis.IntervalMap.Defs.{
  Cell, IntervalMap, init, inside, get_item, key_before, span_at,
}
use memory_alloc_analysis.IntervalMap.Mark.{mark, mark_on, mark_body}
use memory_alloc_analysis.IntervalMap.Tiles.{
  Tiles, IsCanonical, value_at, value_at-append, value_at_beyond, value_at_before,
  bisect_right_before, Tiles-Around, Around, Tiles-Below,
}
use memory_alloc_analysis.IntervalMap.Paint.{paint}
use memory_alloc_analysis.IntervalMap.Coalesce.{Returns, Covers}
use memory_alloc_analysis.IntervalMap.Correct.{mark-paint}
use memory_alloc_analysis.IntervalMap.Update.{paint-Tiles, paint-IsCanonical, value_at-paint}

module _ {V : Type 0} (S : SortedDict (Cell V)) where
  open S use {items}

  -- The spans tile the map's interval, and in a map that coalesces no two neighbours have one
  -- value.
  pub record IsValid (m : IntervalMap S) : Type 0 where
    pub tiles : Tiles m.base (m.base + m.sz) (items m.d)
    pub canonical : IsCanonical (items m.d)
    pub coalescing : m.coalescing ≡ true

  -- The value of the map at a point, `none` outside its interval.
  abbrev pub value : IntervalMap S → ℕ → Option V
  value m x = value_at x (items m.d)

  module _ (dec : Discrete V) (m : IntervalMap S) (valid : IsValid m) (loc sz : ℕ) (v : V)
      (lo : m.base ≤ loc) (pos : 0 < sz) (fits : loc + sz ≤ m.base + m.sz) where
    covers : Covers S m m.base (m.base + m.sz)
    covers = record { base = refl; limit = refl; coalescing = valid.coalescing }

    returned :
        (o : Outcome (IntervalMap S))
        → Returns S m o (paint dec loc sz v (items m.d))
        → (m' : IntervalMap S) × (o ≡ done m')
          × IsValid m'
          × (m'.base ≡ m.base)
          × (m'.sz ≡ m.sz)
          × (m'.v ≡ m.v)
          × ((x : ℕ) → value m' x ≡ (if leb loc x && ltb x (loc + sz) then some v else value m x))
    returned (raised e m') r = elim r [ ]
    returned (done m') r = (
      m',
      refl,
      record {
        tiles =
            rw (r.1, r.2, r.0)
              (paint-Tiles dec m.base (m.base + m.sz) loc sz v (items m.d) lo pos fits valid.tiles);
        canonical = rw r.0 (
            paint-IsCanonical dec m.base (m.base + m.sz) loc sz v (items m.d) lo pos fits
              valid.tiles valid.canonical);
        coalescing = r.4 ∙ valid.coalescing;
      },
      r.1,
      r.2,
      r.3,
      λ x. rw r.0 (
          value_at-paint dec m.base (m.base + m.sz) loc sz v (items m.d) lo pos fits valid.tiles x),
    )

    -- A mark of positive size inside the interval of a valid coalescing map returns. The map
    -- stays valid, keeps its interval and its default, and has the new value on [loc, loc +
    -- sz) and the old values elsewhere.
    pub mark-value :
        (m' : IntervalMap S) × (mark S dec loc sz v m ≡ done m')
        × IsValid m'
        × (m'.base ≡ m.base)
        × (m'.sz ≡ m.sz)
        × (m'.v ≡ m.v)
        × ((x : ℕ) → value m' x ≡ (if leb loc x && ltb x (loc + sz) then some v else value m x))
    mark-value = returned (mark S dec loc sz v m) (
        mark-paint S dec m m.base (m.base + m.sz) loc sz v covers valid.tiles valid.canonical lo pos
          fits)

  -- `init` gives a valid map with one value everywhere.
  pub init-IsValid :
      (base sz : ℕ) (v : V)
      → 0 < sz
      → IsValid (init S base sz v true)
        × ((x : ℕ)
            → value (init S base sz v true) x
              ≡ (if leb base x && ltb x (base + sz) then some v else none))
  unfolding init
  init-IsValid base sz v pos =
      let e : items (S.put S.empty base (sz, v)) ≡ (base, (sz, v)) ∷ [] =
        rw (S.items-put, S.items-empty) refl in
      (
        record { tiles = rw e (refl, pos, refl); canonical = rw e (tt, tt); coalescing = refl },
        λ x. rw e refl,
      )

  -- A mark whose base is off the map raises ValueError and changes nothing.
  pub mark_off :
      (dec : Discrete V) (m : IntervalMap S) (loc sz : ℕ) (v : V)
      → inside S m loc ≡ false
      → mark S dec loc sz v m ≡ raised value_error m
  unfolding mark mark_on mark_body
  mark_off dec m loc sz v h = rw h

  -- the value of a span, at each of its points
  pub value_here :
      (m : IntervalMap S) (pre : List (ℕ × Cell V)) (k s : ℕ) (w : V) (r : List (ℕ × Cell V))
      → items m.d ≡ pre ++ (k, (s, w)) ∷ r
      → Tiles m.base k pre
      → (x : ℕ) → k ≤ x
      → x < k + s
      → value m x ≡ some w
  value_here m pre k s w r split left x from until =
      rw (split, value_at-append x pre _, value_at_beyond x m.base k pre from left) (ground arith)

  module _ (m : IntervalMap S) (valid : IsValid m) where
    -- the map has values only inside its interval
    pub value_inside : (x : ℕ) (w : V) → value m x ≡ some w → (m.base ≤ x) × (x < m.base + m.sz)
    value_inside x w h = elim (Bool-cases (leb m.base x)) [
      | inr low ↦
          cc (h, value_at_before x m.base (m.base + m.sz) (items m.d) (ground arith) valid.tiles)
      | inl lo ↦ elim (Bool-cases (ltb x (m.base + m.sz))) [
        | inr high ↦
            cc (h, value_at_beyond x m.base (m.base + m.sz) (items m.d) (ground arith) valid.tiles)
        | inl hi ↦ (ground arith, ground arith)
      ]
    ]

    -- `m[loc]` is the span that holds loc
    pub get_item-Around :
        (loc : ℕ) (at : Around m.base (m.base + m.sz) loc (items m.d))
        → m.base ≤ loc
        → loc < m.base + m.sz
        → get_item S m loc ≡ ok (at.at, at.size, at.value)
    unfolding get_item key_before span_at
    get_item-Around loc at lo hi =
        let l = at.before in
        let below = Tiles-Below m.base at.at l at.left in
        let index : S.right m.d loc ≡ suc (length l) =
          rw
            (
              S.right-items,
              at.split,
              bisect_right-append loc l _ (Below-le at.at loc l at.from below),
            )
            (ground (
              arith,
              at.from,
              bisect_right_before loc (at.at + at.size) (m.base + m.sz) at.after at.until at.right,
            )) in
        ground (
          arith,
          index,
          key_at_here S m.d at.at (at.size, at.value) l at.after at.split (length l) refl,
          get_here S m.d at.at (at.size, at.value) l at.after at.split below,
        )

    -- `m[loc]` inside the map is a span that holds `loc`, and its value is that of each of its points.
    pub get_item-value :
        (loc : ℕ)
        → m.base ≤ loc
        → loc < m.base + m.sz
        → (k s : ℕ) × (w : V) × (get_item S m loc ≡ ok (k, s, w))
          × (k ≤ loc)
          × (loc < k + s)
          × ((x : ℕ) → k ≤ x → x < k + s → value m x ≡ some w)
    get_item-value loc lo hi =
        let at = Tiles-Around m.base (m.base + m.sz) loc (items m.d) valid.tiles lo hi in
        (
          at.at,
          at.size,
          at.value,
          get_item-Around loc at lo hi,
          at.from,
          at.until,
          value_here m at.before at.at at.size at.value at.after at.split at.left,
        )
