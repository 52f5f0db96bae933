-- ===== src/IntervalMap/Unaligned.antt =====
-- `mark` inside a span.
use mathlib.Core.List.{append_assoc}
use memory_alloc_analysis.Prelude.{
  ℕ, suc, ◌+◌, ◌-◌, ◌<◌, ◌≤◌, ◌≡◌, refl, inl, inr, sym, ◌∙◌, false, List, [], ◌∷◌, ◌++◌, arith, ite,
  ltb, length, length-append, done, if◌then◌else◌, none, if_neg, Bool-cases,
}
use memory_alloc_analysis.SortedDict.{SortedDict}
use memory_alloc_analysis.SortedDict.Items.{Below, Below-le, lookup-append, bisect_left-append}
use memory_alloc_analysis.SortedDict.Located.{put_here, put_after, get_here, key_at_here}
use memory_alloc_analysis.IntervalMap.Defs.{Cell, IntervalMap}
use memory_alloc_analysis.IntervalMap.Mark.{
  mark_body, mark_unaligned, mark_aligned, Marker, vcc, cut,
}
use memory_alloc_analysis.IntervalMap.Tiles.{
  Tiles, Fresh, IsCanonical, Tiles-Below, Tiles-Above, Tiles-append, Tiles-le, lookup_before,
  bisect_left_before,
}
use memory_alloc_analysis.IntervalMap.Paint.{glue_last, onward, splice}
use memory_alloc_analysis.IntervalMap.Coalesce.{Joins, Returns, Returns-cases, Located, Covers}
use memory_alloc_analysis.IntervalMap.Overlap.{mark_aligned-splice}
use memory_alloc_analysis.IntervalMap.AtBase.{mark_body-splice_next}
use memory_alloc_analysis.IntervalMap.Inside.{within_eq, beyond_eq}

module _ {V : Type 0} (S : SortedDict (Cell V)) (dec : Discrete V) where
  open S use {items}

  module _ (m : IntervalMap S) (a b loc : ℕ) (k szex : ℕ) (vex : V) (pre post : List (ℕ × Cell V))
      (cov : Covers S m a b) (e : items m.d ≡ pre ++ (k, (szex, vex)) ∷ post) (tl : Tiles a k pre)
      (lt : k < loc) (gt : loc < k + szex) (right : Tiles (k + szex) b post) where
    below : Below k pre
    below = Tiles-Below a k pre tl

    absent : S.get m.d loc ≡ none
    absent =
        rw (S.get-items, e, lookup-append loc pre _ (Below-le k loc pre (omega arith) below))
          (ground (arith, lookup_before loc (k + szex) b post gt right))

    bisected : S.left m.d loc ≡ suc (length pre)
    bisected =
        rw (S.left-items, e, bisect_left-append loc pre _ (Below-le k loc pre (omega arith) below))
          (ground (arith, bisect_left_before loc (k + szex) b post gt right))

    -- a mark inside a span goes to `mark_unaligned`
    mark_body-eq_unaligned :
        (again : Marker S dec) (sz : ℕ) (v : V) (recursing : ℕ)
        → mark_body S dec again loc sz v recursing m
          ≡ mark_unaligned S dec again (suc (length pre)) loc sz v k szex vex recursing m
    unfolding mark_body
    mark_body-eq_unaligned again sz v recursing = ground (
      arith,
      absent,
      bisected,
      key_at_here S m.d k (szex, vex) pre post e (length pre) refl,
      get_here S m.d k (szex, vex) pre post e below,
      Tiles-le a k pre tl,
      Tiles-le (k + szex) b post right,
      cov.base,
      cov.limit,
      cov.coalescing,
    )

    module _ (sz : ℕ) (v : V) (pos : 0 < sz) (fits : loc + sz ≤ b)
        (fresh : Fresh vex post × IsCanonical post) where
      -- another value: the span is cut at `loc`
      cut-splice :
          (g : Marker S dec)
          → ¬ (v ≡ vex)
          → Returns S m
              (mark_aligned S dec
                (mark_body S dec g)
                (suc (length pre))
                loc
                sz
                v
                (szex - (loc - k))
                vex
                false
                0
                (cut S dec k loc szex vex m))
              (splice dec
                (pre ++ (k, (loc - k, vex)) ∷ [])
                loc
                sz
                v
                (onward (loc + sz) ((k, (szex, vex)) ∷ post)))
      unfolding onward
      cut-splice g n =
          let m1 = cut S dec k loc szex vex m in
          let rest = szex - (loc - k) in
          let e0 = put_here S m.d k (szex, vex) pre post e (loc - k, vex) below in
          let far : loc + rest ≡ k + szex = omega arith in
          let e1 : items m1.d ≡ pre ++ (k, (loc - k, vex)) ∷ (loc, (rest, vex)) ∷ post =
            put_after S _ k (loc - k, vex) pre post e0 loc (rest, vex) below lt
              (Tiles-Above loc (k + szex) b post gt right) in
          let near : k + (loc - k) ≡ loc = omega arith in
          let at : Located S m1 a b (suc (length pre)) loc rest vex
              (pre ++ (k, (loc - k, vex)) ∷ []) post =
            record {
              index = omega (arith, length-append pre ((k, (loc - k, vex)) ∷ []));
              here = e1 ∙ sym (append_assoc pre _ _);
              left = Tiles-append a k loc pre _ tl (refl, omega arith, near);
              nonempty = omega arith;
              right = rw far right;
            } in
          let cov1 : Covers S m1 a b = record {
            base = cov.base;
            limit = cov.limit;
            coalescing = cov.coalescing;
          } in
          let same : onward (loc + sz) ((loc, (rest, vex)) ∷ post)
              ≡ onward (loc + sz) ((k, (szex, vex)) ∷ post) =
            ground (arith, far) in
          let apart : Joins S dec false (suc (length pre)) (pre ++ (k, (loc - k, vex)) ∷ []) v =
            inr (
              refl,
              λ j s r.
                  glue_last dec pre k (loc - k) vex j s v r
                  ∙ if_neg (dec vex v) (λ q. n (sym q)) _ _
                  ∙ sym (append_assoc pre _ _),
            ) in
          rw (← same) (
            mark_aligned-splice S dec a b loc sz v (suc (length pre)) _ m1 g 0 false apart rest vex
              post cov1 at fresh.1 fits pos fresh.0)

      unaligned-eq :
          (again : Marker S dec)
          → mark_unaligned S dec again (suc (length pre)) loc sz v k szex vex 0 m
            ≡ ite
                (dec v vex)
                (if ltb szex (loc + sz - k)
                  then again (k + szex) (loc + sz - k - szex) v 1 (vcc S dec vex v loc sz m)
                  else done (vcc S dec vex v loc sz m))
                (mark_aligned S dec again
                  (suc (length pre))
                  loc
                  sz
                  v
                  (szex - (loc - k))
                  vex
                  false
                  0
                  (cut S dec k loc szex vex m))
      unfolding mark_unaligned
      unaligned-eq again = ground (arith, cov.coalescing)

      spurious_splice :
          (g : Marker S dec)
          → v ≡ vex
          → Returns S m
              (if ltb szex (loc + sz - k)
                then mark_body S dec
                    (mark_body S dec g)
                    (k + szex)
                    (loc + sz - k - szex)
                    v
                    1
                    (vcc S dec vex v loc sz m)
                else done (vcc S dec vex v loc sz m))
              (splice dec
                (pre ++ (k, (loc - k, vex)) ∷ [])
                loc
                sz
                v
                (onward (loc + sz) ((k, (szex, vex)) ∷ post)))
      spurious_splice g p = elim (Bool-cases (ltb szex (loc + sz - k))) [
        | inl far ↦
            let less : k + szex < loc + sz = ground arith in
            let end : k + szex + (loc + sz - k - szex) ≡ loc + sz = omega arith in
            let m1 = vcc S dec vex v loc sz m in
            rw (far, ← beyond_eq dec b loc k szex vex pre post lt gt right sz v fresh p less)
              (mark_body-splice_next S dec m1 a b (k + szex) (loc + sz - k - szex) (loc + sz) v g 1
                (pre ++ (k, (szex, vex)) ∷ []) post
                (record { base = cov.base; limit = cov.limit; coalescing = cov.coalescing })
                (omega arith) end fits (e ∙ sym (append_assoc pre _ _))
                (Tiles-append a k (k + szex) pre _ tl (refl, omega arith, refl)) right fresh.1)
        | inr near ↦
            rw
              (
                near,
                within_eq dec b loc k szex vex pre post lt gt right sz v fresh p (ground arith),
              )
              (e, refl, refl, refl, refl)
      ]

      pub unaligned-splice :
          (g : Marker S dec)
          → Returns S m (mark_body S dec (mark_body S dec (mark_body S dec g)) loc sz v 0 m) (
              splice dec
                (pre ++ (k, (loc - k, vex)) ∷ [])
                loc
                sz
                v
                (onward (loc + sz) ((k, (szex, vex)) ∷ post)))
      unaligned-splice g =
          rw (mark_body-eq_unaligned (mark_body S dec (mark_body S dec g)) sz v 0, unaligned-eq)
            (Returns-cases S m (dec v vex) _ _ _ (spurious_splice g)
              (cut-splice (mark_body S dec g)))
