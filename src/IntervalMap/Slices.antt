-- ===== src/IntervalMap/Slices.antt =====
-- What a slice of a valid map is.
use memory_alloc_analysis.Prelude.{
  ℕ, ◌+◌, ◌≤◌, ◌<◌, ◌≡◌, refl, sym, ◌∙◌, Option, some, List, [], ◌∷◌, ◌++◌, ltb, ok, arith, All,
  Bool-cases, inl, inr,
}
use mathlib.Core.List.{append_assoc}
use memory_alloc_analysis.SortedDict.{SortedDict}
use memory_alloc_analysis.SortedDict.Items.{between}
use memory_alloc_analysis.SortedDict.Located.{get_here}
use memory_alloc_analysis.IntervalMap.Defs.{Cell, Span, IntervalMap, get_slice, span_at, spans_at}
use memory_alloc_analysis.IntervalMap.Tiles.{
  Tiles, Tiles-le, Tiles-append, Tiles-Around, Tiles-Below,
}
use memory_alloc_analysis.IntervalMap.Refines.{IsValid, value, get_item-Around, value_here}

-- The spans follow one another without a gap from lo on, the last reaches hi, and f has the value of
-- each span on it.
abbrev pub Onward : {V : Type 0} → (ℕ → Option V) → ℕ → ℕ → List (Span V) → Type 0
Onward f lo hi [] = hi ≤ lo
Onward f lo hi ((k, s, v) ∷ qs) =
    (k ≡ lo)
    × (lo < hi)
    × (0 < s)
    × ((x : ℕ) → k ≤ x → x < k + s → f x ≡ some v)
    × Onward f (k + s) hi qs

-- The same, where the first span holds lo.
abbrev pub Run : {V : Type 0} → (ℕ → Option V) → ℕ → ℕ → List (Span V) → Type 0
Run f lo hi [] = hi ≤ lo
Run f lo hi ((k, s, v) ∷ qs) =
    (k ≤ lo)
    × (lo < hi)
    × (lo < k + s)
    × ((x : ℕ) → k ≤ x → x < k + s → f x ≡ some v)
    × Onward f (k + s) hi qs

module _ {V : Type 0} where
  between_none :
      (lo hi a b : ℕ) (l : List (ℕ × Cell V)) → Tiles a b l → lo < a → hi ≤ a → between lo hi l ≡ []
  between_none lo hi a b [] t h k = refl
  between_none lo hi a b ((j, (s, w)) ∷ l) t h k =
      ground (arith, between_none lo hi (a + s) b l t.2 (omega arith) (omega arith))

  between_before :
      (lo hi a b : ℕ) (l r : List (ℕ × Cell V))
      → Tiles a b l
      → b ≤ lo
      → between lo hi (l ++ r) ≡ between lo hi r
  between_before lo hi a b [] r t h = refl
  between_before lo hi a b ((j, (s, w)) ∷ l) r t h =
      ground (arith, between_before lo hi (a + s) b l r t.2 h, Tiles-le (a + s) b l t.2)

-- Each span is an entry of the dictionary: it is not cut at either end, nor into pieces.
abbrev pub Entries : {V : Type 0} (S : SortedDict (Cell V)) → IntervalMap S → List (Span V) → Type 0
Entries S m qs = All (λ q. S.get m.d q.0 ≡ some (q.1, q.2)) qs

module _ {V : Type 0} (S : SortedDict (Cell V)) (m : IntervalMap S) (lo hi : ℕ) where
  -- the spans after the first
  later_spans :
      (pre after : List (ℕ × Cell V)) (k : ℕ)
      → S.items m.d ≡ pre ++ after
      → Tiles m.base k pre
      → Tiles k (m.base + m.sz) after
      → lo < k
      → hi ≤ m.base + m.sz
      → (qs : List (Span V)) × (spans_at S m.d (between lo hi after) ≡ ok qs)
        × Onward (value S m) k hi qs
        × Entries S m qs
  unfolding spans_at span_at
  later_spans pre [] k split left right above fits = ([], refl, omega (arith, right), tt)
  later_spans pre ((j, (s, w)) ∷ r) k split left right above fits = elim (Bool-cases (ltb k hi)) [
    | inr past ↦ (
      [],
      rw (between_none lo hi k (m.base + m.sz) ((j, (s, w)) ∷ r) right above (ground arith)) refl,
      ground arith,
      tt,
    )
    | inl more ↦
        let left' : Tiles m.base j pre = rw right.0 left in
        let below = Tiles-Below m.base j pre left' in
        let (qs, is, run, entries) =
          later_spans (pre ++ (j, (s, w)) ∷ []) r (k + s)
            (split ∙ sym (append_assoc pre ((j, (s, w)) ∷ []) r))
            (Tiles-append m.base k (k + s) pre ((j, (s, w)) ∷ []) left (right.0, right.1, refl))
            right.2 (omega arith) fits in
        let here = get_here S m.d j (s, w) pre r split below in
        let goes : between lo hi ((j, (s, w)) ∷ r) ≡ j ∷ between lo hi r =
          ground (arith, more, right.0) in
        (
          (j, s, w) ∷ qs,
          rw (goes, here, is) refl,
          (right.0, ground arith, right.1, value_here S m pre j s w r split left', rw right.0 run),
          (here, entries),
        )
  ]

module _ {V : Type 0} (S : SortedDict (Cell V)) (m : IntervalMap S) (valid : IsValid S m)
    (lo hi : ℕ) where
  -- On a valid map, a slice from a point of the map to one after it, the end of the map at
  -- most, returns spans that follow one another without a gap, the first of which holds the
  -- first point and the last of which reaches the end of the slice; each is an entry of the
  -- dictionary, whole also where it starts before the slice or ends after it, and the map has
  -- its value on all its points.
  pub get_slice-Run :
      m.base ≤ lo
      → lo < hi
      → hi ≤ m.base + m.sz
      → (qs : List (Span V)) × (get_slice S m (some lo) (some hi) ≡ ok qs)
        × Run (value S m) lo hi qs
        × Entries S m qs
  unfolding get_slice
  get_slice-Run from some_there to =
      let hi' : lo < m.base + m.sz = omega arith in
      let at = Tiles-Around m.base (m.base + m.sz) lo (S.items m.d) valid.tiles from hi' in
      let pre = at.before ++ (at.at, (at.size, at.value)) ∷ [] in
      let first : Tiles m.base (at.at + at.size) pre =
        Tiles-append m.base at.at (at.at + at.size) at.before ((at.at, (at.size, at.value)) ∷ [])
          at.left (refl, omega (arith, at.from, at.until), refl) in
      let (qs, is, run, entries) =
        later_spans S m lo hi pre at.after (at.at + at.size)
          (at.split ∙ sym (append_assoc at.before ((at.at, (at.size, at.value)) ∷ []) at.after))
          first at.right at.until to in
      let rest : S.irange m.d lo hi ≡ between lo hi at.after =
        S.irange-items m.d lo hi
        ∙ rw
            (
              at.split,
              between_before lo hi m.base at.at at.before ((at.at, (at.size, at.value)) ∷ at.after)
                  at.left at.from,
            )
            (ground (arith, at.from)) in
      (
        (at.at, at.size, at.value) ∷ qs,
        rw (get_slice, get_item-Around S m valid lo at from hi', rest, is) refl,
        (
          at.from,
          some_there,
          at.until,
          value_here S m at.before at.at at.size at.value at.after at.split at.left,
          run,
        ),
        (
          get_here S m.d at.at (at.size, at.value) at.before at.after at.split
              (Tiles-Below m.base at.at at.before at.left),
          entries,
        ),
      )
