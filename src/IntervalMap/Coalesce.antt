-- ===== src/IntervalMap/Coalesce.antt =====
-- The last stage of `mark`, in a map that coalesces: the span at `loc` joins its neighbours.
use mathlib.Core.List.{append_assoc}
use native.Mathlib.Nat.{add_assoc}
use native.Mathlib.Numerals.{add-one}
use memory_alloc_analysis.Prelude.{
  ℕ, suc, ◌+◌, ◌<◌, ◌≡◌, refl, ◌∙◌, subst, Bool, true, false, ◌⊎◌, inl, inr, not, List, [], ◌∷◌,
  ◌++◌, arith, ite, ◌==◌, length, length-append, some, Outcome, done, raised,
}
use memory_alloc_analysis.SortedDict.{SortedDict}
use memory_alloc_analysis.SortedDict.Items.{Below, Above, Below-le}
use memory_alloc_analysis.SortedDict.Located.{
  get_here, put_new, key_at_here, key_at_next, get_next, del_at_here, del_at_next,
}
use memory_alloc_analysis.IntervalMap.Defs.{Cell, IntervalMap}
use memory_alloc_analysis.IntervalMap.Mark.{coalesce_left, coalesce}
use memory_alloc_analysis.IntervalMap.Tiles.{Tiles, Tiles-Below, Tiles-Above, Tiles-parts}
use memory_alloc_analysis.IntervalMap.Paint.{
  Snoc, empty, last, snoc, glue, glue_last, ite-glue, splice, merged_size, merged_rest,
}

module _ {V : Type 0} (S : SortedDict (Cell V)) where
  open S use {items}

  -- A call that returns, with the spans `l`, and that leaves everything else as in `m`.
  abbrev pub Returns : IntervalMap S → Outcome (IntervalMap S) → List (ℕ × Cell V) → Type 0
  Returns m (done m') l =
      (items m'.d ≡ l)
      × (m'.base ≡ m.base)
      × (m'.sz ≡ m.sz)
      × (m'.v ≡ m.v)
      × (m'.coalescing ≡ m.coalescing)
  Returns m (raised e m') l = ⊥

  -- `couldcleft` is set where there is a left neighbour; it may be left unset where that has
  -- another value.
  abbrev pub Joins : Discrete V → Bool → ℕ → List (ℕ × Cell V) → V → Type 0
  Joins dec cl ix pre v =
      (cl ≡ not (ix == 0))
      ⊎ ((cl ≡ false)
          × ((k s : ℕ) (r : List (ℕ × Cell V)) → glue dec pre k s v r ≡ pre ++ (k, (s, v)) ∷ r))

  module _ (dec : Discrete V) (m : IntervalMap S) (on : m.coalescing ≡ true) (a b loc sz : ℕ)
      (v : V) where
    -- The cell at `loc` is dropped, whatever it is.
    pub coalesce_left_last :
        (l : List (ℕ × Cell V)) (j t : ℕ) (u : V) (c : Cell V) (post : List (ℕ × Cell V))
        (recursing : ℕ)
        → items m.d ≡ l ++ (j, (t, u)) ∷ (loc, c) ∷ post
        → Below j l
        → Above j post
        → Returns m
            (coalesce_left S dec (suc (length l)) loc sz v true recursing m)
            (ite (dec u v) (l ++ (j, (t + sz, v)) ∷ post) (l ++ (j, (t, u)) ∷ (loc, c) ∷ post))
    unfolding coalesce_left
    coalesce_left_last l j t u c post recursing e hb ha =
        let d1 = S.del_at m.d (length l + 1) in
        let e1 : items d1 ≡ l ++ (j, (t, u)) ∷ post =
          del_at_next S m.d (j, (t, u)) loc c l post e (length l) refl in
        let d2 = S.del_at d1 (length l) in
        let e2 : items d2 ≡ l ++ post = del_at_here S d1 j (t, u) l post e1 (length l) refl in
        let e3 = put_new S d2 l post e2 j (t + sz, v) hb ha in
        ground (
          arith,
          key_at_here S m.d j (t, u) l _ e (length l) refl,
          get_here S m.d j (t, u) l _ e hb,
          e3,
        )

    coalesce_left-Snoc :
        (ix : ℕ) (cl : Bool) (pre post : List (ℕ × Cell V)) (recursing : ℕ)
        → Snoc pre
        → ix ≡ length pre
        → cl ≡ not (ix == 0)
        → items m.d ≡ pre ++ (loc, (sz, v)) ∷ post
        → Tiles a loc pre
        → 0 < sz
        → Tiles (loc + sz) b post
        → Returns m (coalesce_left S dec ix loc sz v cl recursing m) (glue dec pre loc sz v post)
    unfolding coalesce_left glue
    coalesce_left-Snoc ix cl _ post recursing empty h hc e tl pos right =
        rw (hc, h) (e, refl, refl, refl, refl)
    coalesce_left-Snoc ix cl _ post recursing (last l (j, (t, u))) h hc e tl pos right =
        let (tl', pos', end) = Tiles-parts a loc l j t u [] tl in
        let here = e ∙ append_assoc l _ _ in
        let some_left : cl ≡ true = ground (arith, length-append l ((j, (t, u)) ∷ [])) in
        rw (some_left, h, length-append l _, glue_last dec l j t u loc sz v post, add-one)
          (coalesce_left_last l j t u (sz, v) post recursing here (Tiles-Below a j l tl')
            (Tiles-Above j (loc + sz) b post (omega arith) right))

    -- The left neighbour, if there is one, takes in the span at `loc` if it has the same value.
    pub coalesce_left-glue :
        (ix : ℕ) (cl : Bool) (pre post : List (ℕ × Cell V)) (recursing : ℕ)
        → ix ≡ length pre
        → Joins dec cl ix pre v
        → items m.d ≡ pre ++ (loc, (sz, v)) ∷ post
        → Tiles a loc pre
        → 0 < sz
        → Tiles (loc + sz) b post
        → Returns m (coalesce_left S dec ix loc sz v cl recursing m) (glue dec pre loc sz v post)
    unfolding coalesce_left
    coalesce_left-glue ix cl pre post recursing h (inl hc) e tl pos right =
        coalesce_left-Snoc ix cl pre post recursing (snoc pre) h hc e tl pos right
    coalesce_left-glue ix cl pre post recursing h (inr (off, apart)) e tl pos right =
        rw (off, apart) (e, refl, refl, refl, refl)

  -- one call after another
  pub Returns-from :
      (m m' : IntervalMap S) (o : Outcome (IntervalMap S)) (l l' : List (ℕ × Cell V))
      → Returns m (done m') l
      → Returns m' o l'
      → Returns m o l'
  Returns-from m m' (done m2) l l' r q = (q.0, q.1 ∙ r.1, q.2 ∙ r.2, q.3 ∙ r.3, q.4 ∙ r.4)
  Returns-from m m' (raised e m2) l l' r q = q

  -- The map covers [a, b) and coalesces.
  pub record Covers (m : IntervalMap S) (a b : ℕ) : Type 0 where
    pub base : m.base ≡ a
    pub limit : m.base + m.sz ≡ b
    pub coalescing : m.coalescing ≡ true

  -- The span (loc, sz, v) stands at the index `ix` of a tiling of [a, b).
  pub record Located (m : IntervalMap S) (a b ix loc sz : ℕ) (v : V) (pre post : List (ℕ × Cell V))
      : Type 0 where
    pub index : ix ≡ length pre
    pub here : items m.d ≡ pre ++ (loc, (sz, v)) ∷ post
    pub left : Tiles a loc pre
    pub nonempty : 0 < sz
    pub right : Tiles (loc + sz) b post

  abbrev pub nonempty : List (ℕ × Cell V) → Bool
  nonempty [] = false
  nonempty (c ∷ l) = true

  pub Returns-ite :
      {P : Type 0} (m : IntervalMap S) (t : Dec P) (o o' : Outcome (IntervalMap S))
      (l l' : List (ℕ × Cell V))
      → (P → Returns m o l)
      → (¬ P → Returns m o' l')
      → Returns m (ite t o o') (ite t l l')
  Returns-ite m (yes p) o o' l l' f g = f p
  Returns-ite m (no p) o o' l l' f g = g p

  pub Returns-cases :
      {P : Type 0} (m : IntervalMap S) (t : Dec P) (o o' : Outcome (IntervalMap S))
      (l : List (ℕ × Cell V))
      → (P → Returns m o l)
      → (¬ P → Returns m o' l)
      → Returns m (ite t o o') l
  Returns-cases m (yes p) o o' l f g = f p
  Returns-cases m (no p) o o' l f g = g p

  module _ (dec : Discrete V) where
    coalesce-eq :
        (ix loc sz : ℕ) (v : V) (cl : Bool) (k s : ℕ) (w : V) (recursing : ℕ) (m : IntervalMap S)
        → m.coalescing ≡ true
        → S.key_at m.d (ix + 1) ≡ some k
        → S.get m.d k ≡ some (s, w)
        → coalesce S dec ix loc sz v cl true recursing m
          ≡ ite
              (dec w v)
              (coalesce_left S dec ix loc
                (sz + s)
                v
                cl
                recursing
                (record m { d = S.put (S.del_at (S.del_at m.d (ix + 1)) ix) loc (sz + s, v) }))
              (coalesce_left S dec ix loc sz v cl recursing m)
    unfolding coalesce
    coalesce-eq ix loc sz v cl k s w recursing m on next cell = ground arith

  module _ (dec : Discrete V) (m : IntervalMap S) (on : m.coalescing ≡ true) (a b loc sz : ℕ)
      (v : V) where
    pub coalesce-glue_next :
        (ix : ℕ) (cl : Bool) (pre : List (ℕ × Cell V)) (k s : ℕ) (w : V) (post : List (ℕ × Cell V))
        (recursing : ℕ)
        → Located m a b ix loc sz v pre ((k, (s, w)) ∷ post)
        → Joins dec cl ix pre v
        → Returns m (coalesce S dec ix loc sz v cl true recursing m) (
            ite
              (dec w v)
              (glue dec pre loc (sz + s) v post)
              (glue dec pre loc sz v ((k, (s, w)) ∷ post)))
    coalesce-glue_next ix cl pre k s w post recursing at hc =
        let d1 = S.del_at m.d (ix + 1) in
        let e1 : items d1 ≡ pre ++ (loc, (sz, v)) ∷ post =
          del_at_next S m.d (loc, (sz, v)) k (s, w) pre post at.here ix at.index in
        let d2 = S.del_at d1 ix in
        let e2 : items d2 ≡ pre ++ post = del_at_here S d1 loc (sz, v) pre post e1 ix at.index in
        let d3 = S.put d2 loc (sz + s, v) in
        let e3 : items d3 ≡ pre ++ (loc, (sz + s, v)) ∷ post =
          put_new S d2 pre post e2 loc (sz + s, v) (Tiles-Below a loc pre at.left)
            (Tiles-Above loc (loc + sz + s) b post (omega arith) at.right.2) in
        let m1 = record m { d = d3 } in
        let far : Tiles (loc + (sz + s)) b post = rw (← add_assoc loc sz s) at.right.2 in
        let joined =
          coalesce_left-glue dec m1 on a b loc (sz + s) v ix cl pre post recursing at.index hc e3
            at.left (omega arith) far in
        let apart =
          coalesce_left-glue dec m on a b loc sz v ix cl pre ((k, (s, w)) ∷ post) recursing at.index
            hc at.here at.left at.nonempty at.right in
        let below = Below-le loc k pre (omega arith) (Tiles-Below a loc pre at.left) in
        let next = key_at_next S m.d (loc, (sz, v)) k (s, w) pre post at.here ix at.index in
        let cell = get_next S m.d (loc, (sz, v)) k (s, w) pre post at.here below (omega arith) in
        let split = coalesce-eq dec ix loc sz v cl k s w recursing m on next cell in
        rw split (Returns-ite m (dec w v) _ _ _ _ (λ _. joined) (λ _. apart))

    pub coalesce-glue_end :
        (ix : ℕ) (cl : Bool) (pre post : List (ℕ × Cell V)) (recursing : ℕ)
        → Located m a b ix loc sz v pre post
        → Joins dec cl ix pre v
        → Returns m (coalesce S dec ix loc sz v cl false recursing m) (glue dec pre loc sz v post)
    unfolding coalesce
    coalesce-glue_end ix cl pre post recursing at hc =
        coalesce_left-glue dec m on a b loc sz v ix cl pre post recursing at.index hc at.here
          at.left at.nonempty at.right

    -- The span at `loc` joins both its neighbours, if `couldcright` says whether there is one.
    pub coalesce-splice :
        (ix : ℕ) (cl cr : Bool) (pre post : List (ℕ × Cell V)) (recursing : ℕ)
        → Located m a b ix loc sz v pre post
        → Joins dec cl ix pre v
        → cr ≡ nonempty post
        → Returns m (coalesce S dec ix loc sz v cl cr recursing m) (splice dec pre loc sz v post)
    unfolding splice merged_size merged_rest
    coalesce-splice ix cl cr pre [] recursing at hc hr =
        rw hr (coalesce-glue_end ix cl pre [] recursing at hc)
    coalesce-splice ix cl cr pre ((k, (s, w)) ∷ post) recursing at hc hr = rw hr (
        subst (Returns m _) (ite-glue dec pre loc sz v k s w post)
          (coalesce-glue_next ix cl pre k s w post recursing at hc))
