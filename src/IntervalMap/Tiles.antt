-- ===== src/IntervalMap/Tiles.antt =====
-- Lists of spans that tile an interval, the values that they give to its points, and the update
-- of such a list that `mark` is to make.
use native.Mathlib.Decide.{dec_lt}
use memory_alloc_analysis.Prelude.{
  ℕ, ◌+◌, ◌≤◌, ◌<◌, ◌≡◌, ◌≢◌, refl, ap, Option, none, some, List, [], ◌∷◌, ◌++◌, arith, leb, ltb,
  ◌&&◌, if◌then◌else◌,
}
use memory_alloc_analysis.SortedDict.Items.{Below, Above, lookup, bisect_left, bisect_right}
use memory_alloc_analysis.IntervalMap.Defs.{Cell}

module _ {V : Type 0} where
  -- The spans follow one another without a gap from `a` to `b`, and none is empty.
  abbrev pub Tiles : ℕ → ℕ → List (ℕ × Cell V) → Type 0
  Tiles a b [] = a ≡ b
  Tiles a b ((k, (s, w)) ∷ r) = (k ≡ a) × (0 < s) × Tiles (a + s) b r

  -- The value at a point.
  abbrev pub value_at : ℕ → List (ℕ × Cell V) → Option V
  value_at x [] = none
  value_at x ((k, (s, w)) ∷ r) = if leb k x && ltb x (k + s) then some w else value_at x r

  -- The first span of the list has another value than `v`.
  abbrev pub Fresh : V → List (ℕ × Cell V) → Type 0
  Fresh v [] = Unit
  Fresh v ((k, (s, w)) ∷ r) = v ≢ w

  -- No two neighbours have the same value.
  abbrev pub IsCanonical : List (ℕ × Cell V) → Type 0
  IsCanonical [] = Unit
  IsCanonical ((k, (s, w)) ∷ r) = Fresh w r × IsCanonical r

  pub Tiles-le : (a b : ℕ) (l : List (ℕ × Cell V)) → Tiles a b l → a ≤ b
  Tiles-le a b [] t = omega arith
  Tiles-le a b ((k, (s, w)) ∷ r) t = omega (arith, Tiles-le (a + s) b r t.2)

  pub Tiles-Below : (a b : ℕ) (l : List (ℕ × Cell V)) → Tiles a b l → Below b l
  Tiles-Below a b [] t = tt
  Tiles-Below a b ((k, (s, w)) ∷ r) t =
      (omega (arith, Tiles-le (a + s) b r t.2), Tiles-Below (a + s) b r t.2)

  pub Tiles-Above : (k a b : ℕ) (l : List (ℕ × Cell V)) → k < a → Tiles a b l → Above k l
  Tiles-Above k a b [] h t = tt
  Tiles-Above k a b ((j, (s, w)) ∷ r) h t = omega arith

  pub Tiles-append :
      (a k b : ℕ) (l r : List (ℕ × Cell V)) → Tiles a k l → Tiles k b r → Tiles a b (l ++ r)
  Tiles-append a k b [] r tl tr = rw tl tr
  Tiles-append a k b ((j, (s, w)) ∷ l) r tl tr = (tl.0, tl.1, Tiles-append (a + s) k b l r tl.2 tr)

  -- The span that a point lies in, and the spans on either side.
  pub record Around (a b x : ℕ) (l : List (ℕ × Cell V)) : Type 0 where
    pub before : List (ℕ × Cell V)
    pub at : ℕ
    pub size : ℕ
    pub value : V
    pub after : List (ℕ × Cell V)
    pub split : l ≡ before ++ (at, (size, value)) ∷ after
    pub left : Tiles a at before
    pub from : at ≤ x
    pub until : x < at + size
    pub right : Tiles (at + size) b after

  pub Tiles-Around :
      (a b x : ℕ) (l : List (ℕ × Cell V)) → Tiles a b l → a ≤ x → x < b → Around a b x l
  Tiles-Around a b x [] t h k = absurd (omega arith)
  Tiles-Around a b x ((j, (s, w)) ∷ r) t h k = elim (dec_lt x (a + s)) [
    | yes here ↦ record {
      before = [];
      at = j;
      size = s;
      value = w;
      after = r;
      split = refl;
      left = omega arith;
      from = omega arith;
      until = omega arith;
      right = rw t.0 t.2;
    }
    | no there ↦
        let rest = Tiles-Around (a + s) b x r t.2 (omega arith) k in
        record {
          before = (j, (s, w)) ∷ rest.before;
          at = rest.at;
          size = rest.size;
          value = rest.value;
          after = rest.after;
          split = ap (◌∷◌ (j, (s, w))) rest.split;
          left = (t.0, t.1, rest.left);
          from = rest.from;
          until = rest.until;
          right = rest.right;
        }
  ]

  -- The values at `x` of two lists, one after the other.
  abbrev pub or_value : Option V → Option V → Option V
  or_value none o = o
  or_value (some w) o = some w

  pub value_at-append :
      (x : ℕ) (l r : List (ℕ × Cell V))
      → value_at x (l ++ r) ≡ or_value (value_at x l) (value_at x r)
  value_at-append x [] r = refl
  value_at-append x ((j, (s, w)) ∷ l) r = ground (arith, value_at-append x l r)

  -- A tiling, taken apart at one of its spans.
  pub Tiles-parts :
      (a b : ℕ) (l : List (ℕ × Cell V)) (k s : ℕ) (w : V) (r : List (ℕ × Cell V))
      → Tiles a b (l ++ (k, (s, w)) ∷ r)
      → Tiles a k l × (0 < s) × Tiles (k + s) b r
  Tiles-parts a b [] k s w r t = (omega arith, t.1, rw t.0 t.2)
  Tiles-parts a b ((j, (u, x)) ∷ l) k s w r t =
      let (tl, pos, tr) = Tiles-parts (a + u) b l k s w r t.2 in ((t.0, t.1, tl), pos, tr)

  -- There is no key left of a tiling.
  pub lookup_before : (k a b : ℕ) (l : List (ℕ × Cell V)) → k < a → Tiles a b l → lookup k l ≡ none
  lookup_before k a b [] h t = refl
  lookup_before k a b ((j, (s, w)) ∷ r) h t =
      ground (arith, lookup_before k (a + s) b r (omega arith) t.2)

  pub bisect_left_before :
      (k a b : ℕ) (l : List (ℕ × Cell V)) → k < a → Tiles a b l → bisect_left k l ≡ 0
  bisect_left_before k a b [] h t = refl
  bisect_left_before k a b ((j, (s, w)) ∷ r) h t = ground arith

  pub IsCanonical-after : (l r : List (ℕ × Cell V)) → IsCanonical (l ++ r) → IsCanonical r
  IsCanonical-after [] r h = h
  IsCanonical-after ((j, (s, w)) ∷ l) r h = IsCanonical-after l r h.1

  pub bisect_right_before :
      (k a b : ℕ) (l : List (ℕ × Cell V)) → k < a → Tiles a b l → bisect_right k l ≡ 0
  bisect_right_before k a b [] h t = refl
  bisect_right_before k a b ((j, (s, w)) ∷ r) h t = ground arith

  -- There is no value left of a tiling, nor right of it.
  pub value_at_before :
      (p a b : ℕ) (l : List (ℕ × Cell V)) → p < a → Tiles a b l → value_at p l ≡ none
  value_at_before p a b [] h t = refl
  value_at_before p a b ((j, (s, w)) ∷ r) h t =
      ground (arith, value_at_before p (a + s) b r (omega arith) t.2)

  pub value_at_beyond :
      (p a b : ℕ) (l : List (ℕ × Cell V)) → b ≤ p → Tiles a b l → value_at p l ≡ none
  value_at_beyond p a b [] h t = refl
  value_at_beyond p a b ((j, (s, w)) ∷ r) h t =
      ground (arith, value_at_beyond p (a + s) b r h t.2, Tiles-le (a + s) b r t.2)
