-- ===== src/IntervalMap/Limits.antt =====
-- Marks that `mark` does not make: one that reaches over the end of the map, and an empty one.
use memory_alloc_analysis.Prelude.{
  ℕ, ◌+◌, ◌<◌, ◌≡◌, refl, inl, ◌∙◌, subst, ◌&&◌, false, not, List, [], ◌∷◌, ◌++◌, arith, ltb, leb,
  length, ◌==◌, if◌then◌else◌, some, Option, none, Outcome, raised, key_error,
}
use native.Mathlib.Numerals.{add-one}
use memory_alloc_analysis.SortedDict.{SortedDict}
use memory_alloc_analysis.IntervalMap.Defs.{Cell, IntervalMap}
use memory_alloc_analysis.IntervalMap.Mark.{mark, mark_on, mark_body, absorb, Map, is_in}
use memory_alloc_analysis.IntervalMap.Tiles.{
  Tiles, Tiles-parts, value_at-append, value_at_before, value_at_beyond,
}
use memory_alloc_analysis.IntervalMap.Coalesce.{Covers, Located}
use memory_alloc_analysis.IntervalMap.Absorb.{mark_body-eq_aligned}
use memory_alloc_analysis.IntervalMap.Inner.{is_in-nonempty}
use memory_alloc_analysis.IntervalMap.Overlap.{grown, grown-here, aligned_gt-eq}
use memory_alloc_analysis.IntervalMap.Refines.{IsValid, value}

module _ {V : Type 0} (S : SortedDict (Cell V)) (dec : Discrete V) where
  open S use {items}

  -- the loop at the end of the map
  absorb_end :
      (fuel loc szex sz : ℕ) (v : V) (k : ℕ → Map S dec → Outcome (Map S dec)) (m : IntervalMap S)
      → szex < sz
      → S.get m.d (loc + szex) ≡ none
      → absorb S dec (fuel + 1) loc szex sz v k m ≡ raised key_error m
  unfolding absorb
  absorb_end fuel loc szex sz v k m lt h = rw add-one (ground arith)

  none_of_is_in : (o : Option (Cell V)) → is_in S dec o ≡ false → o ≡ none
  none_of_is_in none h = refl
  none_of_is_in (some c) h = cc

  module _ (m : IntervalMap S) (valid : IsValid S m) (pre : List (ℕ × Cell V)) (loc szex : ℕ)
      (vex : V) (here : items m.d ≡ pre ++ (loc, (szex, vex)) ∷ []) where
    last_at : Located S m m.base (m.base + m.sz) (length pre) loc szex vex pre []
    last_at =
        let (left, pos, right) =
          Tiles-parts m.base (m.base + m.sz) pre loc szex vex []
            (subst (Tiles m.base (m.base + m.sz)) here valid.tiles) in
        record { index = refl; here = here; left = left; nonempty = pos; right = right }

    -- On a valid map that coalesces, a mark at the base of the last span that reaches over the
    -- end of the map raises KeyError, with the last span already changed to the new value.
    pub mark_overrun :
        (sz : ℕ) (v : V)
        → szex < sz
        → (m' : IntervalMap S) × (mark S dec loc sz v m ≡ raised key_error m')
          × ((x : ℕ)
              → value S m' x ≡ (if leb loc x && ltb x (m.base + m.sz) then some v else value S m x))
    unfolding mark mark_on
    mark_overrun sz v lt =
        let a = m.base in
        let b = m.base + m.sz in
        let cov : Covers S m a b = record {
          base = refl;
          limit = refl;
          coalescing = valid.coalescing;
        } in
        let at = last_at in
        let ix = length pre in
        let g = mark_on S dec 1 in
        let m1 =
          grown S dec a b loc sz v ix pre m g 0 (not (ix == 0)) (inl refl) szex vex [] cov at in
        let e1 : items m1.d ≡ pre ++ (loc, (szex, v)) ∷ [] =
          grown-here S dec a b loc sz v ix pre m g 0 (not (ix == 0)) (inl refl) szex vex [] cov
            at in
        let at1 : Located S m1 a b ix loc szex v pre [] = record {
          index = refl;
          here = e1;
          left = at.left;
          nonempty = at.nonempty;
          right = at.right;
        } in
        let ends = none_of_is_in _ (is_in-nonempty S dec m1 a b ix loc szex v pre [] at1) in
        (
          m1,
          mark_body-eq_aligned S dec m a b ix loc szex vex pre [] cov at (mark_body S dec g) sz v 0
              ∙ aligned_gt-eq S dec a b loc sz v ix pre m g 0 (not (ix == 0)) (inl refl) szex vex []
                  cov at lt
              ∙ absorb_end (S.len m.d) loc szex sz v _ m1 lt ends,
          λ x.
              rw (e1, here, value_at-append, value_at-append)
                (ground (
                  arith,
                  value_at_before x loc b ((loc, (szex, v)) ∷ []),
                  value_at_beyond x a loc pre,
                  at.right,
                )),
        )
