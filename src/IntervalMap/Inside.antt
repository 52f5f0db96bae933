-- ===== src/IntervalMap/Inside.antt =====
-- The update by a mark inside a span that has the new value already.
use native.Mathlib.Decide.{dec_lt}
use memory_alloc_analysis.Prelude.{ℕ, ◌+◌, ◌-◌, ◌<◌, ◌≤◌, ◌≡◌, refl, List, [], ◌∷◌, ◌++◌, arith}
use memory_alloc_analysis.IntervalMap.Defs.{Cell}
use memory_alloc_analysis.IntervalMap.Tiles.{Tiles, Fresh, IsCanonical}
use memory_alloc_analysis.IntervalMap.Paint.{
  onward, onward_start, splice, splice_last, merged_size-add, merged_same, merged_Fresh,
}

module _ {V : Type 0} (dec : Discrete V) (b loc k szex : ℕ) (vex : V) (pre post : List (ℕ × Cell V))
    (lt : k < loc) (gt : loc < k + szex) (right : Tiles (k + szex) b post) (sz : ℕ) (v : V)
    (fresh : Fresh vex post × IsCanonical post) where
  -- the same value, and the mark ends inside the span
  pub within_eq :
      v ≡ vex
      → loc + sz ≤ k + szex
      → splice dec
          (pre ++ (k, (loc - k, vex)) ∷ [])
          loc
          sz
          v
          (onward (loc + sz) ((k, (szex, vex)) ∷ post))
        ≡ pre ++ (k, (szex, vex)) ∷ post
  unfolding onward
  within_eq p le = elim (dec_lt (loc + sz) (k + szex)) [
    | yes less ↦
        let r = (loc + sz, (k + szex - (loc + sz), vex)) ∷ post in
        let cuts : onward (loc + sz) ((k, (szex, vex)) ∷ post) ≡ r = ground arith in
        let (ms, mr) = merged_same dec sz vex (loc + sz) (k + szex - (loc + sz)) vex post refl in
        let sum : loc - k + (sz + (k + szex - (loc + sz))) ≡ szex = omega arith in
        rw (p, cuts, splice_last, ms, mr, sum)
    | no equal ↦
        let ends : onward (loc + sz) ((k, (szex, vex)) ∷ post) ≡ post =
          ground (arith, onward_start (k + szex) b post right) in
        let (ms, mr) = merged_Fresh dec sz vex post fresh.0 in
        let sum : loc - k + sz ≡ szex = omega arith in rw (p, ends, splice_last, ms, mr, sum)
  ]

  -- the same value, and the mark reaches beyond the span
  pub beyond_eq :
      v ≡ vex
      → k + szex < loc + sz
      → splice dec
          (pre ++ (k, (szex, vex)) ∷ [])
          (k + szex)
          (loc + sz - k - szex)
          v
          (onward (loc + sz) post)
        ≡ splice dec
            (pre ++ (k, (loc - k, vex)) ∷ [])
            loc
            sz
            v
            (onward (loc + sz) ((k, (szex, vex)) ∷ post))
  unfolding onward
  beyond_eq p less =
      let skips : onward (loc + sz) ((k, (szex, vex)) ∷ post) ≡ onward (loc + sz) post =
        ground arith in
      let first = merged_size-add dec szex (loc + sz - k - szex) vex (onward (loc + sz) post) in
      let second = merged_size-add dec (loc - k) sz vex (onward (loc + sz) post) in
      let sum : szex + (loc + sz - k - szex) ≡ loc - k + sz = omega arith in
      rw (p, skips, splice_last, splice_last, first, second, sum)
