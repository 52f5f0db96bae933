-- ===== src/IntervalMap/Aligned.antt =====
-- `mark_aligned` in a map that coalesces, where the span at `loc` is at least as long as the mark.
use memory_alloc_analysis.Prelude.{
  ℕ, ◌+◌, ◌-◌, ◌<◌, ◌≡◌, refl, sym, subst, Bool, true, false, List, [], ◌∷◌, ◌++◌, arith, ite, ltb,
  subst₂, length, length-append,
}
use memory_alloc_analysis.SortedDict.{SortedDict}
use memory_alloc_analysis.SortedDict.Located.{put_here, put_after}
use memory_alloc_analysis.IntervalMap.Defs.{Cell, IntervalMap}
use memory_alloc_analysis.IntervalMap.Mark.{coalesce, mark_aligned, Marker, vcc, assign}
use memory_alloc_analysis.IntervalMap.Tiles.{Fresh, Tiles-Below, Tiles-Above}
use memory_alloc_analysis.IntervalMap.Paint.{
  onward, onward_start, splice, splice_same, splice-Fresh,
}
use memory_alloc_analysis.IntervalMap.Coalesce.{
  Joins, Returns, Returns-cases, Located, coalesce-splice, coalesce-glue_end, nonempty,
}

-- whether `ix` is not the last index, as `ix < len(d) - 1`
is_last :
    {V : Type 0} (S : SortedDict (Cell V)) (d : S.Dict) (ix : ℕ) (c : ℕ × Cell V)
    (pre post : List (ℕ × Cell V))
    → ix ≡ length pre
    → S.items d ≡ pre ++ c ∷ post
    → ltb ix (S.len d - 1) ≡ nonempty S post
is_last S d ix c pre [] h e = rw (S.len-items, e) (ground (arith, h, length-append pre (c ∷ [])))
is_last S d ix c pre (c' ∷ post) h e =
    rw (S.len-items, e) (ground (arith, h, length-append pre (c ∷ c' ∷ post)))

module _ {V : Type 0} (S : SortedDict (Cell V)) (dec : Discrete V) (m : IntervalMap S)
    (on : m.coalescing ≡ true) (a b loc : ℕ) (v : V) where
  open S use {items}

  module _ (again : Marker S dec) (sz szex : ℕ) (vex : V) (ix : ℕ) (cl : Bool)
      (pre post : List (ℕ × Cell V)) (recursing : ℕ) (at : Located S m a b ix loc szex vex pre post)
      (hc : Joins S dec cl ix pre v) (pos : 0 < sz) where
    module _ (lt : sz < szex) where
      aligned_lt-eq :
          mark_aligned S dec again ix loc sz v szex vex cl recursing m
          ≡ ite (dec v vex) (coalesce S dec ix loc szex v cl false recursing m) (
              coalesce S dec ix loc sz v cl false recursing (
                vcc S dec vex v loc sz
                  (assign S dec (loc + sz) (szex - sz) vex (assign S dec loc sz v m))))
      unfolding mark_aligned
      aligned_lt-eq = ground arith

      onward_lt :
          onward (loc + sz) ((loc, (szex, vex)) ∷ post) ≡ (loc + sz, (szex - sz, vex)) ∷ post
      unfolding onward
      onward_lt = ground arith

      whole :
          v ≡ vex
          → Returns S m
              (coalesce S dec ix loc szex v cl false recursing m)
              (splice dec pre loc sz v ((loc + sz, (szex - sz, vex)) ∷ post))
      whole p =
          let grown : sz + (szex - sz) ≡ szex = omega arith in
          let at' = subst (λ u. Located S m a b ix loc szex u pre post) (sym p) at in
          rw (← p, splice_same, grown)
            (coalesce-glue_end S dec m on a b loc szex v ix cl pre post recursing at' hc)

      parted :
          ¬ (v ≡ vex)
          → Returns S m
              (coalesce S dec ix loc sz v cl false recursing (
                vcc S dec vex v loc sz
                  (assign S dec (loc + sz) (szex - sz) vex (assign S dec loc sz v m))))
              (splice dec pre loc sz v ((loc + sz, (szex - sz, vex)) ∷ post))
      parted n =
          let below = Tiles-Below a loc pre at.left in
          let m1 = assign S dec loc sz v m in
          let e1 : items m1.d ≡ pre ++ (loc, (sz, v)) ∷ post =
            put_here S m.d loc (szex, vex) pre post at.here (sz, v) below in
          let m2 = vcc S dec vex v loc sz (assign S dec (loc + sz) (szex - sz) vex m1) in
          let e2 : items m2.d ≡ pre ++ (loc, (sz, v)) ∷ (loc + sz, (szex - sz, vex)) ∷ post =
            put_after S m1.d loc (sz, v) pre post e1 (loc + sz) (szex - sz, vex) below (omega arith)
              (Tiles-Above (loc + sz) (loc + szex) b post (omega arith) at.right) in
          let far : loc + sz + (szex - sz) ≡ loc + szex = omega arith in
          let at2 : Located S m2 a b ix loc sz v pre ((loc + sz, (szex - sz, vex)) ∷ post) =
            record {
              index = at.index;
              here = e2;
              left = at.left;
              nonempty = pos;
              right = (refl, omega arith, rw far at.right);
            } in
          rw splice-Fresh (
            coalesce-glue_end S dec m2 on a b loc sz v ix cl pre
              ((loc + sz, (szex - sz, vex)) ∷ post) recursing at2 hc)

      -- the mark covers a proper part of the span
      pub mark_aligned-splice_lt :
          Returns S m
            (mark_aligned S dec again ix loc sz v szex vex cl recursing m)
            (splice dec pre loc sz v (onward (loc + sz) ((loc, (szex, vex)) ∷ post)))
      mark_aligned-splice_lt =
          rw (aligned_lt-eq, onward_lt) (Returns-cases S m (dec v vex) _ _ _ whole parted)

    module _ (same : sz ≡ szex) (fresh : Fresh vex post) where
      aligned_eq-eq :
          mark_aligned S dec again ix loc sz v szex vex cl recursing m
          ≡ ite
              (dec v vex)
              (coalesce S dec ix loc sz v cl false recursing (vcc S dec vex v loc sz m))
              (coalesce S dec ix loc sz v cl
                (ltb ix (S.len (S.put m.d loc (sz, v)) - 1))
                recursing
                (vcc S dec vex v loc sz (assign S dec loc sz v m)))
      unfolding mark_aligned
      aligned_eq-eq = ground arith

      onward_eq : onward (loc + sz) ((loc, (szex, vex)) ∷ post) ≡ post
      unfolding onward
      onward_eq = ground (arith, onward_start (loc + szex) b post at.right)

      spurious :
          v ≡ vex
          → Returns S m
              (coalesce S dec ix loc sz v cl false recursing (vcc S dec vex v loc sz m))
              (splice dec pre loc sz v post)
      spurious p =
          let at' = subst₂ (λ u n. Located S m a b ix loc n u pre post) (sym p) (sym same) at in
          let m' = vcc S dec vex v loc sz m in
          let at2 : Located S m' a b ix loc sz v pre post = record {
            index = at'.index;
            here = at'.here;
            left = at'.left;
            nonempty = pos;
            right = at'.right;
          } in
          rw (splice-Fresh dec pre loc sz v post (subst (λ u. Fresh u post) (sym p) fresh))
            (coalesce-glue_end S dec m' on a b loc sz v ix cl pre post recursing at2 hc)

      replaced :
          Returns S m
            (coalesce S dec ix loc sz v cl
              (ltb ix (S.len (S.put m.d loc (sz, v)) - 1))
              recursing
              (vcc S dec vex v loc sz (assign S dec loc sz v m)))
            (splice dec pre loc sz v post)
      replaced =
          let m1 = vcc S dec vex v loc sz (assign S dec loc sz v m) in
          let e1 : items m1.d ≡ pre ++ (loc, (sz, v)) ∷ post =
            put_here S m.d loc (szex, vex) pre post at.here (sz, v)
              (Tiles-Below a loc pre at.left) in
          let at1 : Located S m1 a b ix loc sz v pre post = record {
            index = at.index;
            here = e1;
            left = at.left;
            nonempty = pos;
            right = rw same at.right;
          } in
          let last : ltb ix (S.len m1.d - 1) ≡ nonempty S post =
            is_last S m1.d ix (loc, (sz, v)) pre post at.index e1 in
          coalesce-splice S dec m1 on a b loc sz v ix cl _ pre post recursing at1 hc last

      -- the mark covers the span exactly
      pub mark_aligned-splice_eq :
          Returns S m
            (mark_aligned S dec again ix loc sz v szex vex cl recursing m)
            (splice dec pre loc sz v (onward (loc + sz) ((loc, (szex, vex)) ∷ post)))
      mark_aligned-splice_eq =
          rw (aligned_eq-eq, onward_eq)
            (Returns-cases S m (dec v vex) _ _ _ spurious (λ _. replaced))
