-- ===== src/IntervalMap/Correct.antt =====
-- `mark` and the update `paint`, in a map that coalesces.
use mathlib.Core.List.{append-nil}
use native.Mathlib.Decide.{dec_lt}
use memory_alloc_analysis.Prelude.{ℕ, ◌+◌, ◌-◌, ◌<◌, ◌≤◌, ◌≡◌, refl, sym, subst, [], ◌∷◌, arith}
use memory_alloc_analysis.SortedDict.{SortedDict}
use memory_alloc_analysis.IntervalMap.Defs.{Cell, IntervalMap}
use memory_alloc_analysis.IntervalMap.Mark.{mark, mark_on}
use memory_alloc_analysis.IntervalMap.Tiles.{Tiles, IsCanonical, Tiles-Around, IsCanonical-after}
use memory_alloc_analysis.IntervalMap.Paint.{
  onward-append, upto, upto-append, upto_start, upto_inside, paint,
}
use memory_alloc_analysis.IntervalMap.Coalesce.{Returns, Covers}
use memory_alloc_analysis.IntervalMap.AtBase.{mark_body-splice_next}
use memory_alloc_analysis.IntervalMap.Unaligned.{unaligned-splice}

module _ {V : Type 0} (S : SortedDict (Cell V)) (dec : Discrete V) where
  open S use {items}

  -- In a map over [a, b) that coalesces, without two neighbours of one value, a mark of
  -- positive size that lies in [a, b), so that a <= loc and loc + sz <= b, returns with
  -- exactly the spans of the reference update paint.
  pub mark-paint :
      (m : IntervalMap S) (a b loc sz : ℕ) (v : V)
      → Covers S m a b
      → Tiles a b (items m.d)
      → IsCanonical (items m.d)
      → a ≤ loc
      → 0 < sz
      → loc + sz ≤ b
      → Returns S m (mark S dec loc sz v m) (paint dec loc sz v (items m.d))
  unfolding mark mark_on paint
  mark-paint m a b loc sz v cov t can lo pos fits =
      let at = Tiles-Around a b loc (items m.d) t lo (omega arith) in
      let l = at.before in
      let r = (at.at, (at.size, at.value)) ∷ at.after in
      let can' = IsCanonical-after l r (subst IsCanonical at.split can) in
      let right = onward-append a at.at (loc + sz) l r at.left (omega (arith, at.from)) in
      let left = upto-append a at.at loc l r at.left at.from in
      elim (dec_lt at.at loc) [
        | yes inside ↦
            let cuts : upto loc r ≡ (at.at, (loc - at.at, at.value)) ∷ [] =
              upto_inside loc at.at at.size at.value at.after inside at.until in
            rw (at.split, left, right, cuts)
              (unaligned-splice S dec m a b loc at.at at.size at.value l at.after cov at.split
                at.left inside at.until at.right sz v pos fits can' (mark_on S dec 0))
        | no base ↦
            let same : loc ≡ at.at = omega (arith, at.from) in
            let tr : Tiles loc b r =
              (sym same, omega (arith, at.from, at.until), rw same at.right) in
            rw (at.split, left, right, upto_start loc b r tr, append-nil)
              (mark_body-splice_next S dec m a b loc sz (loc + sz) v (mark_on S dec 1) 0 l r cov pos
                refl fits at.split (rw same at.left) tr
                (IsCanonical-after l r (subst IsCanonical at.split can)))
      ]
