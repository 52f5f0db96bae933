-- ===== src/IntervalMap/AtBase.antt =====
-- `mark` at the base of a span.
use memory_alloc_analysis.Prelude.{
  ℕ, ◌+◌, ◌<◌, ◌≤◌, ◌≡◌, refl, inl, List, [], ◌∷◌, ◌++◌, arith, length,
}
use memory_alloc_analysis.SortedDict.{SortedDict}
use memory_alloc_analysis.IntervalMap.Defs.{Cell, IntervalMap}
use memory_alloc_analysis.IntervalMap.Mark.{mark_body, Marker}
use memory_alloc_analysis.IntervalMap.Tiles.{Tiles, Fresh, IsCanonical}
use memory_alloc_analysis.IntervalMap.Paint.{onward, splice}
use memory_alloc_analysis.IntervalMap.Coalesce.{Returns, Located, Covers}
use memory_alloc_analysis.IntervalMap.Absorb.{mark_body-eq_aligned}
use memory_alloc_analysis.IntervalMap.Overlap.{mark_aligned-splice}

module _ {V : Type 0} (S : SortedDict (Cell V)) (dec : Discrete V) where
  open S use {items}

  module _ (m : IntervalMap S) (a b loc sz : ℕ) (v : V) (cov : Covers S m a b) (pos : 0 < sz)
      (fits : loc + sz ≤ b) where
    -- a mark at the base of a span
    mark_body-splice :
        (g : Marker S dec) (recursing ix szex : ℕ) (vex : V) (pre post : List (ℕ × Cell V))
        → Located S m a b ix loc szex vex pre post
        → Fresh vex post × IsCanonical post
        → Returns S m
            (mark_body S dec (mark_body S dec g) loc sz v recursing m)
            (splice dec pre loc sz v (onward (loc + sz) ((loc, (szex, vex)) ∷ post)))
    mark_body-splice g recursing ix szex vex pre post at (fresh, can) =
        rw
          (mark_body-eq_aligned S dec m a b ix loc szex vex pre post cov at (mark_body S dec g) sz v
            recursing)
          (mark_aligned-splice S dec a b loc sz v ix pre m g recursing _ (inl refl) szex vex post
            cov at can fits pos fresh)

  -- a mark at the first of the spans `post`
  pub mark_body-splice_next :
      (m : IntervalMap S) (a b loc sz hi : ℕ) (v : V) (g : Marker S dec) (recursing : ℕ)
      (pre post : List (ℕ × Cell V))
      → Covers S m a b
      → 0 < sz
      → loc + sz ≡ hi
      → hi ≤ b
      → items m.d ≡ pre ++ post
      → Tiles a loc pre
      → Tiles loc b post
      → IsCanonical post
      → Returns S m
          (mark_body S dec (mark_body S dec g) loc sz v recursing m)
          (splice dec pre loc sz v (onward hi post))
  mark_body-splice_next m a b loc sz hi v g recursing pre [] cov pos end fits e tl tr can =
      absurd (omega arith)
  mark_body-splice_next m a b loc sz hi v g recursing pre ((j, (s, w)) ∷ post) cov pos end fits e tl
        right can =
      rw (← end, ← right.0)
        (mark_body-splice m a b j sz v cov pos (rw (right.0, end) fits) g recursing (length pre) s w
          pre post
          (record {
            index = refl;
            here = e;
            left = rw right.0 tl;
            nonempty = right.1;
            right = rw right.0 right.2;
          })
          can)
