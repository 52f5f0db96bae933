-- ===== src/IntervalMap/Overlap.antt =====
-- `mark_aligned` in a map that coalesces, where the mark reaches beyond the span at `loc`.
use native.Mathlib.Decide.{dec_lt}
use memory_alloc_analysis.Prelude.{
  ℕ, ◌+◌, ◌<◌, ◌≤◌, ◌≡◌, refl, ◌∙◌, subst, Bool, List, [], ◌∷◌, ◌++◌, arith, ite, length,
  length-append, done,
}
use memory_alloc_analysis.SortedDict.{SortedDict}
use memory_alloc_analysis.SortedDict.Located.{put_here}
use memory_alloc_analysis.IntervalMap.Defs.{Cell, IntervalMap}
use memory_alloc_analysis.IntervalMap.Mark.{
  absorb, after_absorb, mark_aligned, mark_body, Marker, vcc, assign, Map,
}
use memory_alloc_analysis.IntervalMap.Tiles.{Fresh, IsCanonical, Tiles-Below}
use memory_alloc_analysis.IntervalMap.Paint.{onward, splice}
use memory_alloc_analysis.IntervalMap.Coalesce.{Joins, Returns, Returns-from, Located, Covers}
use memory_alloc_analysis.IntervalMap.Aligned.{mark_aligned-splice_lt, mark_aligned-splice_eq}
use memory_alloc_analysis.IntervalMap.Absorb.{Reaches, Follows, absorb-Returns}
use memory_alloc_analysis.IntervalMap.Inner.{after_lt, after_eq}

module _ {V : Type 0} (S : SortedDict (Cell V)) (dec : Discrete V) where
  open S use {items}

  module _ (a b loc sz : ℕ) (v : V) (ix : ℕ) (pre : List (ℕ × Cell V)) (m : IntervalMap S)
      (g : Marker S dec) (recursing : ℕ) (cl : Bool) (hc : Joins S dec cl ix pre v) where
    after_reach :
        (szex : ℕ) (post : List (ℕ × Cell V)) (m' : IntervalMap S)
        → Covers S m' a b
        → Located S m' a b ix loc szex v pre post
        → szex < sz
        → Reaches S dec (loc + sz) post
        → IsCanonical post
        → Returns S m'
            (after_absorb S dec (mark_body S dec g) ix loc sz v cl recursing szex m')
            (splice dec pre loc sz v (onward (loc + sz) post))
    after_reach szex [] m' cov at lt reach can = elim reach [ ]
    after_reach szex ((j, (s, w)) ∷ r) m' cov at lt reach can =
        after_lt S dec a b loc sz v ix pre m' szex j s w r cov at lt reach g recursing cl hc can.0

    after_absorb-Follows :
        (post : List (ℕ × Cell V))
        → Follows S dec a b loc sz v ix pre
            (splice dec pre loc sz v (onward (loc + sz) post))
            m
            post
            (after_absorb S dec (mark_body S dec g) ix loc sz v cl recursing)
    after_absorb-Follows post szex post' m' cov at le same reach can kept =
        subst
          (λ l.
            Returns S m (after_absorb S dec (mark_body S dec g) ix loc sz v cl recursing szex m')
              (splice dec pre loc sz v l))
          same
          (Returns-from S m m' _ _ _ kept (elim (dec_lt szex sz) [
            | yes lt ↦ after_reach szex post' m' cov at lt (reach lt) can
            | no eq ↦
                after_eq S dec a b loc sz v ix pre m' szex post' (mark_body S dec g) recursing cl
                  cov at (omega arith) hc
          ]))

    module _ (szex : ℕ) (vex : V) (post : List (ℕ × Cell V)) (cov : Covers S m a b)
        (at : Located S m a b ix loc szex vex pre post) where
      pub grown : Map S dec
      grown = vcc S dec vex v loc szex (ite (dec v vex) m (assign S dec loc szex v m))

      pub aligned_gt-eq :
          szex < sz
          → mark_aligned S dec (mark_body S dec g) ix loc sz v szex vex cl recursing m
            ≡ absorb S dec
                (S.len m.d + 1)
                loc
                szex
                sz
                v
                (after_absorb S dec (mark_body S dec g) ix loc sz v cl recursing)
                grown
      unfolding mark_aligned grown
      aligned_gt-eq lt = ground arith

      pub grown-here : items grown.d ≡ pre ++ (loc, (szex, v)) ∷ post
      unfolding grown
      grown-here =
          elim (dec v vex)
            as (λ t.
              items (ite t m (assign S dec loc szex v m)).d ≡ pre ++ (loc, (szex, v)) ∷ post) [
                | yes p ↦ rw p at.here
                | no n ↦
                    put_here S m.d loc (szex, vex) pre post at.here (szex, v)
                      (Tiles-Below a loc pre at.left)
              ]

      grown-Returns : Returns S m (done grown) (items grown.d)
      unfolding grown
      grown-Returns =
          elim (dec v vex)
            as (λ t.
              Returns S m (done (vcc S dec vex v loc szex (ite t m (assign S dec loc szex v m))))
                (items (ite t m (assign S dec loc szex v m)).d)) [
                  | yes p ↦ (refl, refl, refl, refl, refl)
                  | no n ↦ (refl, refl, refl, refl, refl)
                ]

      mark_aligned-splice_gt :
          IsCanonical post
          → loc + sz ≤ b
          → szex < sz
          → Returns S m
              (mark_aligned S dec (mark_body S dec g) ix loc sz v szex vex cl recursing m)
              (splice dec pre loc sz v (onward (loc + sz) ((loc, (szex, vex)) ∷ post)))
      unfolding onward
      mark_aligned-splice_gt can fits lt =
          let (_, kb, ks, kv, kc) = grown-Returns in
          let fuel : length post < S.len m.d + 1 =
            rw (S.len-items, at.here)
              (omega (arith, length-append pre ((loc, (szex, vex)) ∷ post))) in
          let skipped : onward (loc + sz) ((loc, (szex, vex)) ∷ post) ≡ onward (loc + sz) post =
            ground arith in
          rw (aligned_gt-eq lt, skipped)
            (absorb-Returns S dec a b loc sz v ix pre _ m post (S.len m.d + 1) szex _ grown fuel
              (record {
                base = kb ∙ cov.base;
                limit = rw (kb, ks) cov.limit;
                coalescing = kc ∙ cov.coalescing;
              })
              (record {
                index = at.index;
                here = grown-here;
                left = at.left;
                nonempty = at.nonempty;
                right = at.right;
              })
              (omega arith) fits can grown-Returns (after_absorb-Follows post))

      -- a mark at the base of a span, whatever its size
      pub mark_aligned-splice :
          IsCanonical post
          → loc + sz ≤ b
          → 0 < sz
          → Fresh vex post
          → Returns S m
              (mark_aligned S dec (mark_body S dec g) ix loc sz v szex vex cl recursing m)
              (splice dec pre loc sz v (onward (loc + sz) ((loc, (szex, vex)) ∷ post)))
      mark_aligned-splice can fits pos fresh = elim (dec_lt sz szex) [
        | yes lt ↦
            mark_aligned-splice_lt S dec m cov.coalescing a b loc v _ sz szex vex ix cl pre post
              recursing at hc pos lt
        | no ge ↦ elim (dec_lt szex sz) [
          | yes gt ↦ mark_aligned-splice_gt can fits gt
          | no le ↦
              mark_aligned-splice_eq S dec m cov.coalescing a b loc v _ sz szex vex ix cl pre post
                recursing at hc pos (omega arith) fresh
        ]
      ]
