-- ===== src/IntervalMap/Edges.antt =====
-- The spans of a valid map are as long as they can be.
use memory_alloc_analysis.Prelude.{
  ℕ, ◌+◌, ◌≤◌, ◌<◌, ◌≡◌, ◌≢◌, refl, sym, ◌∙◌, some, List, [], ◌∷◌, ◌++◌, ok, ok-eq, arith, subst,
}
use mathlib.Core.List.{append_assoc}
use memory_alloc_analysis.SortedDict.{SortedDict}
use memory_alloc_analysis.IntervalMap.Defs.{Cell, IntervalMap, get_item}
use memory_alloc_analysis.IntervalMap.Tiles.{
  Tiles, Tiles-Around, Tiles-parts, IsCanonical, IsCanonical-after, value_at_beyond,
  value_at_before, Tiles-append,
}
use memory_alloc_analysis.IntervalMap.Paint.{Snoc, empty, last, snoc}
use memory_alloc_analysis.IntervalMap.Refines.{IsValid, value, value_here, get_item-Around}

module _ {V : Type 0} (S : SortedDict (Cell V)) (m : IntervalMap S) (valid : IsValid S m) where
  right_edge :
      (pre : List (ℕ × Cell V)) (k s : ℕ) (w : V) (r : List (ℕ × Cell V))
      → S.items m.d ≡ pre ++ (k, (s, w)) ∷ r
      → Tiles m.base (k + s) (pre ++ (k, (s, w)) ∷ [])
      → Tiles (k + s) (m.base + m.sz) r
      → value S m (k + s) ≢ some w
  right_edge pre k s w [] split left right h = cc (
    h,
    value_at_beyond (k + s) m.base (m.base + m.sz) (S.items m.d) (omega (arith, right)) valid.tiles,
  )
  right_edge pre k s w ((j, (t, u)) ∷ r) split left right h =
      let c =
        IsCanonical-after pre ((k, (s, w)) ∷ (j, (t, u)) ∷ r)
          (subst IsCanonical split valid.canonical) in
      let here =
        value_here S m (pre ++ (k, (s, w)) ∷ []) j t u r
          (split ∙ sym (append_assoc pre ((k, (s, w)) ∷ []) ((j, (t, u)) ∷ r))) (rw right.0 left)
          (k + s) (omega (arith, right.0)) (omega (arith, right.0, right.1)) in
      c.0 (cc (h, here))

  left_edge :
      {pre : List (ℕ × Cell V)} (k s : ℕ) (w : V) (r : List (ℕ × Cell V))
      → Snoc pre
      → S.items m.d ≡ pre ++ (k, (s, w)) ∷ r
      → Tiles m.base k pre
      → (y : ℕ) → y + 1 ≡ k
      → value S m y ≢ some w
  left_edge k s w r empty split left y e h = cc (
    h,
    value_at_before y m.base (m.base + m.sz) (S.items m.d) (omega (arith, e, left)) valid.tiles,
  )
  left_edge k s w r (last l (j, (t, u))) split left y e h =
      let split' = split ∙ append_assoc l ((j, (t, u)) ∷ []) ((k, (s, w)) ∷ r) in
      let c =
        IsCanonical-after l ((j, (t, u)) ∷ (k, (s, w)) ∷ r)
          (subst IsCanonical split' valid.canonical) in
      let (before, pos, end) = Tiles-parts m.base k l j t u [] left in
      let here =
        value_here S m l j t u ((k, (s, w)) ∷ r) split' before y (omega (arith, e, end, pos))
          (omega (arith, e, end)) in
      c.0 (cc (h, here))

  -- Indexing a valid map inside its interval gives a span that cannot be made longer on either side.
  pub get_item_edges :
      (loc k s : ℕ) (w : V)
      → m.base ≤ loc
      → loc < m.base + m.sz
      → get_item S m loc ≡ ok (k, s, w)
      → ((y : ℕ) → y + 1 ≡ k → value S m y ≢ some w) × (value S m (k + s) ≢ some w)
  get_item_edges loc k s w lo hi is =
      let at = Tiles-Around m.base (m.base + m.sz) loc (S.items m.d) valid.tiles lo hi in
      let same = ok-eq (sym (get_item-Around S m valid loc at lo hi) ∙ is) in
      subst
        (λ (q : ℕ × ℕ × V).
          ((y : ℕ) → y + 1 ≡ q.0 → value S m y ≢ some q.2) × (value S m (q.0 + q.1) ≢ some q.2))
        same
        (
          left_edge at.at at.size at.value at.after (snoc at.before) at.split at.left,
          right_edge at.before at.at at.size at.value at.after at.split
              (Tiles-append m.base at.at (at.at + at.size) at.before
                ((at.at, (at.size, at.value)) ∷ []) at.left
                (refl, omega (arith, at.from, at.until), refl))
              at.right,
        )
