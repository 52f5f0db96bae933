-- ===== src/IntervalMap/Inner.antt =====
-- What follows the loop of `mark`, where the mark ends inside a span or at its end.
use mathlib.Core.List.{append_assoc}
use native.Mathlib.Nat.{add_assoc}
use memory_alloc_analysis.Prelude.{
  ℕ, ◌+◌, ◌-◌, ◌<◌, ◌≡◌, refl, inl, ap, sym, ◌∙◌, subst, Bool, true, false, List, [], ◌∷◌, ◌++◌,
  arith, ◌==◌, length-append, Outcome, done, raised,
}
use memory_alloc_analysis.SortedDict.{SortedDict}
use memory_alloc_analysis.SortedDict.Items.{Below-le, lookup-append}
use memory_alloc_analysis.SortedDict.Located.{get_here, get_next}
use memory_alloc_analysis.IntervalMap.Defs.{Cell, IntervalMap}
use memory_alloc_analysis.IntervalMap.Mark.{
  after_absorb, then_do, mark_body, Marker, is_in, with_cell,
}
use memory_alloc_analysis.IntervalMap.Tiles.{Tiles, Fresh, Tiles-Below, Tiles-append}
use memory_alloc_analysis.IntervalMap.Paint.{
  glue, onward, onward_start, onward_inside, splice, splice_last, splice_same, splice-Fresh,
  merged_same, merged_Fresh,
}
use memory_alloc_analysis.IntervalMap.Coalesce.{
  Joins, Returns, Returns-from, Located, Covers, coalesce-splice, nonempty,
}
use memory_alloc_analysis.IntervalMap.Aligned.{mark_aligned-splice_lt}
use memory_alloc_analysis.IntervalMap.Absorb.{mark_body-eq_aligned}

module _ {V : Type 0} (S : SortedDict (Cell V)) (dec : Discrete V) where
  open S use {items}

  -- a call that returns, and what is done behind it
  Returns-then_do :
      (m : IntervalMap S) (o : Outcome (IntervalMap S))
      (f : IntervalMap S → Outcome (IntervalMap S)) (l l' : List (ℕ × Cell V))
      → Returns S m o l
      → ((m' : IntervalMap S) → Returns S m (done m') l → Returns S m (f m') l')
      → Returns S m (then_do S dec o f) l'
  Returns-then_do m (done m') f l l' r g = g m' r
  Returns-then_do m (raised e m') f l l' r g = elim r [ ]

  -- `k in d` for the end of the span at `loc`
  pub is_in-nonempty :
      (m : IntervalMap S) (a b ix loc sz : ℕ) (v : V) (pre post : List (ℕ × Cell V))
      → Located S m a b ix loc sz v pre post
      → is_in S dec (S.get m.d (loc + sz)) ≡ nonempty S post
  is_in-nonempty m a b ix loc sz v pre [] at =
      rw
        (
          S.get-items,
          at.here,
          lookup-append (loc + sz) pre _
              (Below-le loc (loc + sz) pre (omega arith) (Tiles-Below a loc pre at.left)),
        )
        (ground (arith, at.nonempty))
  is_in-nonempty m a b ix loc sz v pre ((k, (s, w)) ∷ post) at =
      rw
        (
          ← at.right.0,
          get_next S m.d (loc, (sz, v)) k (s, w) pre post at.here
              (Below-le loc k pre (omega arith) (Tiles-Below a loc pre at.left)) (omega arith),
        )
        refl

  module _ (a b loc sz : ℕ) (v : V) (ix : ℕ) (pre : List (ℕ × Cell V)) (m : IntervalMap S) where
    module _ (szex j s : ℕ) (w : V) (r : List (ℕ × Cell V)) (cov : Covers S m a b)
        (at : Located S m a b ix loc szex v pre ((j, (s, w)) ∷ r)) (lt : szex < sz)
        (reach : loc + sz < j + s) (g : Marker S dec) (recursing : ℕ) where
      next_at : Located S m a b (ix + 1) j s w (pre ++ (loc, (szex, v)) ∷ []) r
      next_at = record {
        index = omega (arith, length-append pre ((loc, (szex, v)) ∷ []), at.index);
        here = at.here ∙ sym (append_assoc pre _ _);
        left = Tiles-append a loc j pre _ at.left (refl, at.nonempty, sym at.right.0);
        nonempty = at.right.1;
        right = rw at.right.0 at.right.2;
      }

      inner : Returns S m (mark_body S dec g (loc + szex) (sz - szex) v (recursing + 1) m) (
          splice dec
            (pre ++ (loc, (szex, v)) ∷ [])
            j
            (sz - szex)
            v
            (onward (j + (sz - szex)) ((j, (s, w)) ∷ r)))
      inner =
          rw
            (
              ← at.right.0,
              mark_body-eq_aligned S dec m a b (ix + 1) j s w _ r cov next_at g (sz - szex) v
                  (recursing + 1),
            )
            (mark_aligned-splice_lt S dec m cov.coalescing a b j v g (sz - szex) s w (ix + 1) _ _ r
              (recursing + 1) next_at (inl refl) (omega arith) (omega (arith, at.right.0)))

      -- the recursive call gives the rest of the mark to the span at `loc`
      inner_same :
          w ≡ v
          → Returns S m
              (mark_body S dec g (loc + szex) (sz - szex) v (recursing + 1) m)
              (pre ++ (loc, (szex + s, v)) ∷ r)
      inner_same p =
          let rest : sz - szex < s = omega (arith, at.right.0) in
          let whole : (sz - szex) + (s - (sz - szex)) ≡ s = omega arith in
          let (ms, mr) = merged_same dec (sz - szex) v (j + (sz - szex)) (s - (sz - szex)) w r p in
          subst (Returns S m _)
            (ap (splice dec _ j (sz - szex) v) (onward_inside j (sz - szex) s w r rest)
              ∙ splice_last dec pre loc szex j (sz - szex) v _
              ∙ rw (ms, mr, whole) refl)
            inner

      inner_other :
          ¬ (w ≡ v)
          → Returns S m
              (mark_body S dec g (loc + szex) (sz - szex) v (recursing + 1) m)
              (pre ++ (loc, (sz, v)) ∷ (loc + sz, (j + s - (loc + sz), w)) ∷ r)
      inner_other n =
          let rest : sz - szex < s = omega (arith, at.right.0) in
          let e1 : szex + (sz - szex) ≡ sz = omega arith in
          let e2 : j + (sz - szex) ≡ loc + sz = omega (arith, at.right.0) in
          let e3 : s - (sz - szex) ≡ j + s - (loc + sz) = omega (arith, at.right.0) in
          let (ms, mr) =
            merged_Fresh dec (sz - szex) v ((loc + sz, (j + s - (loc + sz), w)) ∷ r)
              (λ q. n (sym q)) in
          subst (Returns S m _)
            (ap (splice dec _ j (sz - szex) v) (onward_inside j (sz - szex) s w r rest)
              ∙ splice_last dec pre loc szex j (sz - szex) v _
              ∙ rw (e2, e3, ms, mr, e1) refl)
            inner

      -- what follows the recursive call
      after_inner :
          (cl : Bool) (sz' : ℕ) (rest : List (ℕ × Cell V))
          → Joins S dec cl ix pre v
          → Returns S m
              (mark_body S dec g (loc + szex) (sz - szex) v (recursing + 1) m)
              (pre ++ (loc, (sz', v)) ∷ rest)
          → 0 < sz'
          → Tiles (loc + sz') b rest
          → Returns S m
              (after_absorb S dec (mark_body S dec g) ix loc sz v cl recursing szex m)
              (splice dec pre loc sz' v rest)
      unfolding after_absorb
      after_inner cl sz' rest hc call pos tiles =
          let below = Tiles-Below a loc pre at.left in
          let goes : (szex == sz) ≡ false = ground arith in
          rw goes (
            Returns-then_do m _ _ _ _ call (λ m' r.
              let at' : Located S m' a b ix loc sz' v pre rest = record {
                index = at.index;
                here = r.0;
                left = at.left;
                nonempty = pos;
                right = tiles;
              } in
              let cov' : m'.coalescing ≡ true = r.4 ∙ cov.coalescing in
              rw (get_here S m'.d loc (sz', v) pre rest r.0 below, with_cell)
                (Returns-from S m m' _ _ _ r (
                  coalesce-splice S dec m' cov' a b loc sz' v ix cl _ pre rest recursing at' hc
                    (is_in-nonempty m' a b ix loc sz' v pre rest at')))))

      -- with the span cut at the end of the mark, or taken in whole
      pub after_lt :
          (cl : Bool)
          → Joins S dec cl ix pre v
          → Fresh w r
          → Returns S m
              (after_absorb S dec (mark_body S dec g) ix loc sz v cl recursing szex m)
              (splice dec pre loc sz v (onward (loc + sz) ((j, (s, w)) ∷ r)))
      unfolding onward
      after_lt cl hc fresh = elim (dec w v) [
        | yes p ↦
            let grown : sz + (j + s - (loc + sz)) ≡ szex + s = omega (arith, at.right.0) in
            let e : onward (loc + sz) ((j, (s, w)) ∷ r) ≡ (loc + sz, (j + s - (loc + sz), w)) ∷ r =
              ground (arith, at.right.0) in
            let q =
              after_inner cl (szex + s) r hc (inner_same p) (omega (arith, at.nonempty))
                (rw (← add_assoc loc szex s) at.right.2) in
            subst (Returns S m _)
              (splice-Fresh dec pre loc (szex + s) v r (subst (λ u. Fresh u r) p fresh)
                ∙ ap (λ n. glue dec pre loc n v r) (sym grown)
                ∙ sym (splice_same dec pre loc sz v (loc + sz) (j + s - (loc + sz)) r)
                ∙ ap (λ u. splice dec pre loc sz v ((loc + sz, (j + s - (loc + sz), u)) ∷ r))
                    (sym p)
                ∙ ap (splice dec pre loc sz v) (sym e))
              q
        | no n ↦
            let e : onward (loc + sz) ((j, (s, w)) ∷ r) ≡ (loc + sz, (j + s - (loc + sz), w)) ∷ r =
              ground (arith, at.right.0) in
            let far : loc + sz + (j + s - (loc + sz)) ≡ loc + szex + s =
              omega (arith, at.right.0) in
            rw e (
              after_inner cl sz ((loc + sz, (j + s - (loc + sz), w)) ∷ r) hc (inner_other n)
                (omega arith) (refl, omega arith, rw far at.right.2))
      ]

    pub after_eq :
        (szex : ℕ) (post : List (ℕ × Cell V)) (again : Marker S dec) (recursing : ℕ) (cl : Bool)
        → Covers S m a b
        → Located S m a b ix loc szex v pre post
        → szex ≡ sz
        → Joins S dec cl ix pre v
        → Returns S m
            (after_absorb S dec again ix loc sz v cl recursing szex m)
            (splice dec pre loc sz v (onward (loc + sz) post))
    unfolding after_absorb
    after_eq szex post again recursing cl cov at e hc =
        let stops : (szex == sz) ≡ true = ground arith in
        let at' = subst (λ n. Located S m a b ix loc n v pre post) e at in
        rw (stops, onward_start (loc + sz) b post at'.right)
          (coalesce-splice S dec m cov.coalescing a b loc sz v ix cl _ pre post recursing at' hc
            (is_in-nonempty m a b ix loc sz v pre post at'))
