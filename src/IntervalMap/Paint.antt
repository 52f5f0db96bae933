-- ===== src/IntervalMap/Paint.antt =====
-- The update that `mark` is to make, as a function of the list of spans.
use memory_alloc_analysis.Prelude.{
  ℕ, ◌+◌, ◌-◌, ◌≡◌, refl, ◌≤◌, ◌<◌, ◌∙◌, if_pos, List, [], ◌∷◌, ◌++◌, arith, leb, ltb, ite,
  if◌then◌else◌,
}
use memory_alloc_analysis.IntervalMap.Defs.{Cell}
use memory_alloc_analysis.IntervalMap.Tiles.{Fresh, Tiles, Tiles-le}

module _ {V : Type 0} where
  -- The part of the spans left of `x`.
  unfoldable pub upto : ℕ → List (ℕ × Cell V) → List (ℕ × Cell V)
  upto x [] = []
  upto x ((k, (s, w)) ∷ r) =
      if leb (k + s) x then (k, (s, w)) ∷ upto x r else if ltb k x then (k, (x - k, w)) ∷ [] else []

  -- The part of the spans from `x` on.
  unfoldable pub onward : ℕ → List (ℕ × Cell V) → List (ℕ × Cell V)
  onward x [] = []
  onward x ((k, (s, w)) ∷ r) =
      if leb (k + s) x
      then onward x r
      else if ltb k x
      then (x, (k + s - x, w)) ∷ r
      else (k, (s, w)) ∷ r

  pub onward-append :
      (a k x : ℕ) (pre r : List (ℕ × Cell V))
      → Tiles a k pre
      → k ≤ x
      → onward x (pre ++ r) ≡ onward x r
  unfolding onward
  onward-append a k x [] r t h = refl
  onward-append a k x ((j, (s, w)) ∷ pre) r t h =
      ground (arith, onward-append (a + s) k x pre r t.2, Tiles-le (a + s) k pre t.2)

  -- Spans from `x` on are left whole.
  pub onward_start : (x b : ℕ) (r : List (ℕ × Cell V)) → Tiles x b r → onward x r ≡ r
  unfolding onward
  onward_start x b [] t = refl
  onward_start x b ((j, (s, w)) ∷ r) t = ground arith

  pub upto-append :
      (a k x : ℕ) (pre r : List (ℕ × Cell V))
      → Tiles a k pre
      → k ≤ x
      → upto x (pre ++ r) ≡ pre ++ upto x r
  unfolding upto
  upto-append a k x [] r t h = refl
  upto-append a k x ((j, (s, w)) ∷ pre) r t h =
      ground (arith, upto-append (a + s) k x pre r t.2, Tiles-le (a + s) k pre t.2)

  pub upto_start : (x b : ℕ) (r : List (ℕ × Cell V)) → Tiles x b r → upto x r ≡ []
  unfolding upto
  upto_start x b [] t = refl
  upto_start x b ((j, (s, w)) ∷ r) t = ground arith

-- A last entry, if there is one.
pub data Snoc {A : Type 0} : List A → Type 0 where
  empty : Snoc []
  last : (l : List A) (c : A) → Snoc (l ++ c ∷ [])

Snoc-cons : {A : Type 0} (b : A) (l : List A) → Snoc l → Snoc (b ∷ l)
Snoc-cons b _ empty = last [] b
Snoc-cons b _ (last l c) = last (b ∷ l) c

pub snoc : {A : Type 0} (l : List A) → Snoc l
snoc [] = empty
snoc (b ∷ l) = Snoc-cons b l (snoc l)

module _ {V : Type 0} (dec : Discrete V) where
  -- A span put in front of others takes in the first of them if it has the same value.
  unfoldable pub merged_size : ℕ → V → List (ℕ × Cell V) → ℕ
  merged_size sz v [] = sz
  merged_size sz v ((k, (s, w)) ∷ r) = ite (dec w v) (sz + s) sz

  unfoldable pub merged_rest : V → List (ℕ × Cell V) → List (ℕ × Cell V)
  merged_rest v [] = []
  merged_rest v ((k, (s, w)) ∷ r) = ite (dec w v) r ((k, (s, w)) ∷ r)

  -- A span put behind others joins the last of them if it has the same value.
  unfoldable pub glue : List (ℕ × Cell V) → ℕ → ℕ → V → List (ℕ × Cell V) → List (ℕ × Cell V)
  glue [] k s w r = (k, (s, w)) ∷ r
  glue ((j, (t, u)) ∷ []) k s w r =
      ite (dec u w) ((j, (t + s, w)) ∷ r) ((j, (t, u)) ∷ (k, (s, w)) ∷ r)
  glue (b ∷ c ∷ l) k s w r = b ∷ glue (c ∷ l) k s w r

  -- The span (loc, sz, v) between the spans `pre` and `r`.
  unfoldable pub splice : List (ℕ × Cell V) → ℕ → ℕ → V → List (ℕ × Cell V) → List (ℕ × Cell V)
  splice pre loc sz v r = glue pre loc (merged_size sz v r) v (merged_rest v r)

  -- Everything in [loc, loc + sz) gets the value `v`.
  unfoldable pub paint : ℕ → ℕ → V → List (ℕ × Cell V) → List (ℕ × Cell V)
  paint loc sz v l = splice (upto loc l) loc sz v (onward (loc + sz) l)

  pub glue_last :
      (l : List (ℕ × Cell V)) (j t : ℕ) (u : V) (k s : ℕ) (w : V) (r : List (ℕ × Cell V))
      → glue (l ++ (j, (t, u)) ∷ []) k s w r
        ≡ ite (dec u w) (l ++ (j, (t + s, w)) ∷ r) (l ++ (j, (t, u)) ∷ (k, (s, w)) ∷ r)
  unfolding glue
  glue_last [] j t u k s w r = refl
  glue_last (b ∷ []) j t u k s w r = ground arith
  glue_last (b ∷ c ∷ l) j t u k s w r = ground (arith, glue_last (c ∷ l) j t u k s w r)

  pub merged_Fresh :
      (sz : ℕ) (v : V) (r : List (ℕ × Cell V))
      → Fresh v r
      → (merged_size sz v r ≡ sz) × (merged_rest v r ≡ r)
  unfolding merged_size merged_rest
  merged_Fresh sz v [] f = (refl, refl)
  merged_Fresh sz v ((k, (s, w)) ∷ r) f = ground arith

  pub ite-glue :
      (pre : List (ℕ × Cell V)) (loc sz : ℕ) (v : V) (k s : ℕ) (w : V) (r : List (ℕ × Cell V))
      → ite (dec w v) (glue pre loc (sz + s) v r) (glue pre loc sz v ((k, (s, w)) ∷ r))
        ≡ glue pre loc (ite (dec w v) (sz + s) sz) v (ite (dec w v) r ((k, (s, w)) ∷ r))
  ite-glue pre loc sz v k s w r = ground arith

  pub splice_same :
      (pre : List (ℕ × Cell V)) (loc sz : ℕ) (v : V) (k s : ℕ) (r : List (ℕ × Cell V))
      → splice pre loc sz v ((k, (s, v)) ∷ r) ≡ glue pre loc (sz + s) v r
  unfolding splice merged_size merged_rest
  splice_same pre loc sz v k s r = ground arith

  pub splice-Fresh :
      (pre : List (ℕ × Cell V)) (loc sz : ℕ) (v : V) (r : List (ℕ × Cell V))
      → Fresh v r
      → splice pre loc sz v r ≡ glue pre loc sz v r
  unfolding splice
  splice-Fresh pre loc sz v r f = let (s, t) = merged_Fresh sz v r f in rw (s, t)

  pub merged_same :
      (sz : ℕ) (v : V) (k s : ℕ) (w : V) (r : List (ℕ × Cell V))
      → w ≡ v
      → (merged_size sz v ((k, (s, w)) ∷ r) ≡ sz + s) × (merged_rest v ((k, (s, w)) ∷ r) ≡ r)
  unfolding merged_size merged_rest
  merged_same sz v k s w r p = (if_pos (dec w v) p _ _, if_pos (dec w v) p _ _)

  pub merged_size-add :
      (n sz : ℕ) (v : V) (r : List (ℕ × Cell V)) → n + merged_size sz v r ≡ merged_size (n + sz) v r
  unfolding merged_size
  merged_size-add n sz v [] = refl
  merged_size-add n sz v ((k, (s, w)) ∷ r) = ground arith

  -- A span behind one of the same value.
  pub splice_last :
      (pre : List (ℕ × Cell V)) (j t : ℕ) (k sz : ℕ) (v : V) (r : List (ℕ × Cell V))
      → splice (pre ++ (j, (t, v)) ∷ []) k sz v r
        ≡ pre ++ (j, (t + merged_size sz v r, v)) ∷ merged_rest v r
  unfolding splice
  splice_last pre j t k sz v r =
      glue_last pre j t v k (merged_size sz v r) v (merged_rest v r) ∙ if_pos (dec v v) refl _ _

module _ {V : Type 0} where
  -- The rest of a span that is cut inside.
  pub onward_inside :
      (k n s : ℕ) (w : V) (r : List (ℕ × Cell V))
      → n < s
      → onward (k + n) ((k, (s, w)) ∷ r) ≡ (k + n, (s - n, w)) ∷ r
  unfolding onward
  onward_inside k n s w r h = ground arith

  pub upto_inside :
      (x k s : ℕ) (w : V) (r : List (ℕ × Cell V))
      → k < x
      → x < k + s
      → upto x ((k, (s, w)) ∷ r) ≡ (k, (x - k, w)) ∷ []
  unfolding upto
  upto_inside x k s w r h i = ground arith
