-- ===== src/IntervalMap/Update.antt =====
-- What `paint` makes of a list of spans: it tiles the same interval, has no two neighbours of one
-- value, and gives the new value to the points of the mark and to no others.
use native.Mathlib.Nat.{add_assoc}
use memory_alloc_analysis.Prelude.{
  ℕ, ◌+◌, ◌-◌, ◌<◌, ◌≤◌, ◌≡◌, refl, sym, ◌≢◌, subst, ◌&&◌, List, [], ◌∷◌, ◌++◌, arith, ite, ltb,
  leb, if◌then◌else◌, some, none, inl, inr, Bool-cases,
}
use memory_alloc_analysis.IntervalMap.Defs.{Cell}
use memory_alloc_analysis.IntervalMap.Tiles.{
  Tiles, Fresh, IsCanonical, value_at, value_at_before, value_at-append,
}
use memory_alloc_analysis.IntervalMap.Paint.{
  glue, onward, upto, paint, splice, merged_size, merged_rest,
}

module _ {V : Type 0} where
  pub upto-Tiles :
      (a b x : ℕ) (l : List (ℕ × Cell V)) → Tiles a b l → a ≤ x → x ≤ b → Tiles a x (upto x l)
  unfolding upto
  upto-Tiles a b x [] t h k = omega arith
  upto-Tiles a b x ((j, (s, w)) ∷ r) t h k = ground (arith, upto-Tiles (a + s) b x r t.2)

  pub onward-Tiles :
      (a b x : ℕ) (l : List (ℕ × Cell V)) → Tiles a b l → a ≤ x → x ≤ b → Tiles x b (onward x l)
  unfolding onward
  onward-Tiles a b x [] t h k = omega arith
  onward-Tiles a b x ((j, (s, w)) ∷ r) t h k = elim (Bool-cases (leb (j + s) x)) [
    | inl skip ↦ rw skip (onward-Tiles (a + s) b x r t.2 (ground arith) k)
    | inr stop ↦ elim (Bool-cases (ltb j x)) [
      | inl cut ↦
          let end : x + (j + s - x) ≡ a + s = ground arith in
          rw (stop, cut) (refl, ground arith, rw end t.2)
      | inr whole ↦
          let start : a ≡ x = ground arith in
          rw (stop, whole) (subst (λ n. Tiles n b ((j, (s, w)) ∷ r)) start t)
    ]
  ]

  -- the values left of `x`, and from `x` on
  pub value_at-upto :
      (a b x p : ℕ) (l : List (ℕ × Cell V))
      → Tiles a b l
      → value_at p (upto x l) ≡ (if ltb p x then value_at p l else none)
  unfolding upto
  value_at-upto a b x p [] t = ground arith
  value_at-upto a b x p ((j, (s, w)) ∷ r) t =
      ground (arith, value_at-upto (a + s) b x p r t.2, value_at_before p (a + s) b r)

  pub value_at-onward :
      (a b x p : ℕ) (l : List (ℕ × Cell V))
      → Tiles a b l
      → value_at p (onward x l) ≡ (if leb x p then value_at p l else none)
  unfolding onward
  value_at-onward a b x p [] t = ground arith
  value_at-onward a b x p ((j, (s, w)) ∷ r) t =
      ground (arith, value_at-onward (a + s) b x p r t.2, value_at_before p (a + s) b r)

  Fresh-upto : (u : V) (x : ℕ) (l : List (ℕ × Cell V)) → Fresh u l → Fresh u (upto x l)
  unfolding upto
  Fresh-upto u x [] f = tt
  Fresh-upto u x ((j, (s, w)) ∷ r) f = elim (Bool-cases (leb (j + s) x)) [
    | inl all ↦ rw all f
    | inr part ↦ elim (Bool-cases (ltb j x)) [
      | inl cut ↦ rw (part, cut) f
      | inr out ↦ rw (part, out) tt
    ]
  ]

  upto-IsCanonical : (x : ℕ) (l : List (ℕ × Cell V)) → IsCanonical l → IsCanonical (upto x l)
  unfolding upto
  upto-IsCanonical x [] c = tt
  upto-IsCanonical x ((j, (s, w)) ∷ r) c = elim (Bool-cases (leb (j + s) x)) [
    | inl all ↦ rw all (Fresh-upto w x r c.0, upto-IsCanonical x r c.1)
    | inr part ↦ elim (Bool-cases (ltb j x)) [
      | inl cut ↦ rw (part, cut) (tt, tt)
      | inr out ↦ rw (part, out) tt
    ]
  ]

  onward-IsCanonical : (x : ℕ) (l : List (ℕ × Cell V)) → IsCanonical l → IsCanonical (onward x l)
  unfolding onward
  onward-IsCanonical x [] c = tt
  onward-IsCanonical x ((j, (s, w)) ∷ r) c = elim (Bool-cases (leb (j + s) x)) [
    | inl all ↦ rw all (onward-IsCanonical x r c.1)
    | inr part ↦ elim (Bool-cases (ltb j x)) [
      | inl cut ↦ rw (part, cut) c
      | inr out ↦ rw (part, out) c
    ]
  ]

module _ {V : Type 0} (dec : Discrete V) where
  merged-Tiles :
      (b k sz : ℕ) (v : V) (r : List (ℕ × Cell V))
      → 0 < sz
      → Tiles (k + sz) b r
      → (0 < merged_size dec sz v r) × Tiles (k + merged_size dec sz v r) b (merged_rest dec v r)
  unfolding merged_size merged_rest
  merged-Tiles b k sz v [] pos t = (pos, t)
  merged-Tiles b k sz v ((j, (s, w)) ∷ r) pos t =
      elim (dec w v)
        as (λ d.
          (0 < ite d (sz + s) sz) × Tiles (k + ite d (sz + s) sz) b (ite d r ((j, (s, w)) ∷ r))) [
            | yes p ↦ (omega arith, rw (← add_assoc k sz s) t.2)
            | no n ↦ (pos, t)
          ]

  merged-IsCanonical :
      (v : V) (r : List (ℕ × Cell V))
      → IsCanonical r
      → Fresh v (merged_rest dec v r) × IsCanonical (merged_rest dec v r)
  unfolding merged_rest
  merged-IsCanonical v [] c = (tt, tt)
  merged-IsCanonical v ((j, (s, w)) ∷ r) c =
      elim (dec w v)
        as (λ d. Fresh v (ite d r ((j, (s, w)) ∷ r)) × IsCanonical (ite d r ((j, (s, w)) ∷ r))) [
          | yes p ↦ (subst (λ u. Fresh u r) p c.0, c.1)
          | no n ↦ ((λ e. n (sym e)), c)
        ]

  value_at-merged :
      (b p k sz : ℕ) (v : V) (r : List (ℕ × Cell V))
      → Tiles (k + sz) b r
      → value_at p ((k, (merged_size dec sz v r, v)) ∷ merged_rest dec v r)
        ≡ value_at p ((k, (sz, v)) ∷ r)
  unfolding merged_size merged_rest
  value_at-merged b p k sz v [] t = refl
  value_at-merged b p k sz v ((j, (s, w)) ∷ r) t = ground arith

  glue-Tiles :
      (a b : ℕ) (pre : List (ℕ × Cell V)) (k s : ℕ) (w : V) (r : List (ℕ × Cell V))
      → Tiles a k pre
      → 0 < s
      → Tiles (k + s) b r
      → Tiles a b (glue dec pre k s w r)
  unfolding glue
  glue-Tiles a b [] k s w r tl pos right = (sym tl, pos, rw tl right)
  glue-Tiles a b ((j, (t, u)) ∷ []) k s w r tl pos right =
      elim (dec u w)
        as (λ d. Tiles a b (ite d ((j, (t + s, w)) ∷ r) ((j, (t, u)) ∷ (k, (s, w)) ∷ r))) [
          | yes p ↦
              let end : a + (t + s) ≡ k + s = omega (arith, tl.2) in
              (tl.0, omega (arith, pos), rw end right)
          | no n ↦ (tl.0, tl.1, (sym tl.2, pos, rw tl.2 right))
        ]
  glue-Tiles a b ((j, (t, u)) ∷ c ∷ l) k s w r tl pos right =
      (tl.0, tl.1, glue-Tiles (a + t) b (c ∷ l) k s w r tl.2 pos right)

  value_at-glue :
      (a p : ℕ) (pre : List (ℕ × Cell V)) (k s : ℕ) (w : V) (r : List (ℕ × Cell V))
      → Tiles a k pre
      → value_at p (glue dec pre k s w r) ≡ value_at p (pre ++ (k, (s, w)) ∷ r)
  unfolding glue
  value_at-glue a p [] k s w r t = refl
  value_at-glue a p ((j, (t, u)) ∷ []) k s w r tl = ground arith
  value_at-glue a p ((j, (t, u)) ∷ c ∷ l) k s w r tl =
      ground (arith, value_at-glue (a + t) p (c ∷ l) k s w r tl.2)

  Fresh-glue :
      (x : V) (c : ℕ × Cell V) (l : List (ℕ × Cell V)) (k s : ℕ) (w : V) (r : List (ℕ × Cell V))
      → Fresh x (c ∷ l)
      → Fresh x (glue dec (c ∷ l) k s w r)
  unfolding glue
  Fresh-glue x (j, (t, u)) [] k s w r f =
      elim (dec u w)
        as (λ d. Fresh x (ite d ((j, (t + s, w)) ∷ r) ((j, (t, u)) ∷ (k, (s, w)) ∷ r))) [
          | yes p ↦ subst (λ y. x ≢ y) p f
          | no n ↦ f
        ]
  Fresh-glue x c (c' ∷ l) k s w r f = f

  glue-IsCanonical :
      (pre : List (ℕ × Cell V)) (k s : ℕ) (w : V) (r : List (ℕ × Cell V))
      → IsCanonical pre
      → Fresh w r
      → IsCanonical r
      → IsCanonical (glue dec pre k s w r)
  unfolding glue
  glue-IsCanonical [] k s w r cp f c = (f, c)
  glue-IsCanonical ((j, (t, u)) ∷ []) k s w r cp f c =
      elim (dec u w)
        as (λ d. IsCanonical (ite d ((j, (t + s, w)) ∷ r) ((j, (t, u)) ∷ (k, (s, w)) ∷ r))) [
          | yes p ↦ (f, c)
          | no n ↦ (n, (f, c))
        ]
  glue-IsCanonical ((j, (t, u)) ∷ c' ∷ l) k s w r cp f c =
      (Fresh-glue u c' l k s w r cp.0, glue-IsCanonical (c' ∷ l) k s w r cp.1 f c)

  module _ (a b loc sz : ℕ) (v : V) (l : List (ℕ × Cell V)) (lo : a ≤ loc) (pos : 0 < sz)
      (fits : loc + sz ≤ b) (t : Tiles a b l) where
    pub paint-Tiles : Tiles a b (paint dec loc sz v l)
    unfolding paint splice
    paint-Tiles =
        let left = upto-Tiles a b loc l t lo (omega arith) in
        let right = onward-Tiles a b (loc + sz) l t (omega arith) fits in
        let (pos', right') = merged-Tiles b loc sz v (onward (loc + sz) l) pos right in
        glue-Tiles a b (upto loc l) loc _ v _ left pos' right'

    pub paint-IsCanonical : IsCanonical l → IsCanonical (paint dec loc sz v l)
    unfolding paint splice
    paint-IsCanonical c =
        let (f, c') =
          merged-IsCanonical v (onward (loc + sz) l) (onward-IsCanonical (loc + sz) l c) in
        glue-IsCanonical (upto loc l) loc _ v _ (upto-IsCanonical loc l c) f c'

    -- the points of the mark get the new value, and no others
    pub value_at-paint :
        (p : ℕ)
        → value_at p (paint dec loc sz v l)
          ≡ (if leb loc p && ltb p (loc + sz) then some v else value_at p l)
    unfolding paint splice
    value_at-paint p =
        let right = onward-Tiles a b (loc + sz) l t (omega arith) fits in
        let r = onward (loc + sz) l in
        ground (
          arith,
          value_at-glue a p (upto loc l) loc (merged_size dec sz v r) v (merged_rest dec v r)
              (upto-Tiles a b loc l t lo (omega arith)),
          value_at-append p (upto loc l) ((loc, (merged_size dec sz v r, v)) ∷ merged_rest dec v r),
          value_at-merged b p loc sz v r right,
          value_at-upto a b loc p l t,
          value_at-onward a b (loc + sz) p l t,
        )
