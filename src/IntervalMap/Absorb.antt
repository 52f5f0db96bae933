-- ===== src/IntervalMap/Absorb.antt =====
-- The loop of `mark`, and the recursive call behind it, in a map that coalesces.
use native.Mathlib.Decide.{dec_lt}
use native.Mathlib.Nat.{add_assoc}
use memory_alloc_analysis.Prelude.{
  ℕ, zero, suc, ◌+◌, ◌-◌, ◌<◌, ◌≤◌, ◌≡◌, refl, ◌∙◌, subst, not, List, [], ◌∷◌, ◌++◌, arith, ◌==◌,
  length, Outcome, done, if◌then◌else◌, some, leb, Bool-cases, leb→le, inl, inr,
}
use memory_alloc_analysis.SortedDict.{SortedDict}
use memory_alloc_analysis.SortedDict.Items.{Below, Below-le}
use memory_alloc_analysis.SortedDict.Located.{put_here, get_here, left_here, get_next, del_next}
use memory_alloc_analysis.IntervalMap.Defs.{Cell, IntervalMap}
use memory_alloc_analysis.IntervalMap.Mark.{
  absorb, mark_aligned, mark_body, Marker, vcc, assign, Map,
}
use memory_alloc_analysis.IntervalMap.Tiles.{IsCanonical, Tiles-Below, Tiles-le}
use memory_alloc_analysis.IntervalMap.Paint.{onward}
use memory_alloc_analysis.IntervalMap.Coalesce.{Returns, Located, Covers}

module _ {V : Type 0} (S : SortedDict (Cell V)) (dec : Discrete V) where
  open S use {items}

  module _ (m : IntervalMap S) (a b ix loc szex : ℕ) (vex : V) (pre post : List (ℕ × Cell V))
      (cov : Covers S m a b) (at : Located S m a b ix loc szex vex pre post) where
    -- a mark at the base of a span goes straight to `mark_aligned`
    pub mark_body-eq_aligned :
        (again : Marker S dec) (sz : ℕ) (v : V) (recursing : ℕ)
        → mark_body S dec again loc sz v recursing m
          ≡ mark_aligned S dec again ix loc sz v szex vex (not (ix == 0)) recursing m
    unfolding mark_body
    mark_body-eq_aligned again sz v recursing =
        let below = Tiles-Below a loc pre at.left in
        ground (
          arith,
          left_here S m.d loc (szex, vex) pre post at.here below,
          get_here S m.d loc (szex, vex) pre post at.here below,
          Tiles-le a loc pre at.left,
          Tiles-le (loc + szex) b post at.right,
          at.nonempty,
          at.index,
          cov.base,
          cov.limit,
          cov.coalescing,
        )

  -- the first span of the list ends behind `x`
  abbrev pub Reaches : ℕ → List (ℕ × Cell V) → Type 0
  Reaches x [] = ⊥
  Reaches x ((k, (s, w)) ∷ r) = x < k + s

  module _ (a b loc sz : ℕ) (v : V) (ix : ℕ) (pre : List (ℕ × Cell V)) (l : List (ℕ × Cell V))
      (m : IntervalMap S) where
    -- What follows the loop is right where the loop stops.
    abbrev pub Follows : List (ℕ × Cell V) → (ℕ → Map S dec → Outcome (Map S dec)) → Type 0
    Follows post k =
        (szex : ℕ) (post' : List (ℕ × Cell V)) (m' : IntervalMap S)
        → Covers S m' a b
        → Located S m' a b ix loc szex v pre post'
        → szex ≤ sz
        → onward (loc + sz) post' ≡ onward (loc + sz) post
        → (szex < sz → Reaches (loc + sz) post')
        → IsCanonical post'
        → Returns S m (done m') (items m'.d)
        → Returns S m (k szex m') l

    absorb_step :
        (fuel szex s : ℕ) (w : V) (k : ℕ → Map S dec → Outcome (Map S dec)) (m' : IntervalMap S)
        → S.get m'.d (loc + szex) ≡ some (s, w)
        → szex < sz
        → absorb S dec (suc fuel) loc szex sz v k m' ≡ (
            if leb s (sz - szex)
            then absorb S dec fuel loc (szex + s) sz v k (
                assign S dec loc
                  (szex + s)
                  v
                  (vcc S dec w v (loc + szex) s (record m' { d = S.del m'.d (loc + szex) })))
            else k szex m')
    unfolding absorb
    absorb_step fuel szex s w k m' h lt = ground arith

    absorb_stop :
        (fuel szex : ℕ) (k : ℕ → Map S dec → Outcome (Map S dec)) (m' : IntervalMap S)
        → szex ≡ sz
        → absorb S dec (suc fuel) loc szex sz v k m' ≡ k szex m'
    unfolding absorb
    absorb_stop fuel szex k m' h = ground arith

    pub absorb-Returns :
        (post : List (ℕ × Cell V)) (fuel szex : ℕ) (k : ℕ → Map S dec → Outcome (Map S dec))
        (m' : IntervalMap S)
        → length post < fuel
        → Covers S m' a b
        → Located S m' a b ix loc szex v pre post
        → szex ≤ sz
        → loc + sz ≤ b
        → IsCanonical post
        → Returns S m (done m') (items m'.d)
        → Follows post k
        → Returns S m (absorb S dec fuel loc szex sz v k m') l
    unfolding onward
    absorb-Returns post zero szex k m' h cov at le fits can kept go = absurd (omega arith)
    absorb-Returns [] (suc fuel) szex k m' h cov at le fits can kept go =
        let e : szex ≡ sz = omega (arith, at.right) in
        rw (absorb_stop fuel szex k m' e)
          (go szex [] m' cov at le refl (λ lt. absurd (omega arith)) can kept)
    absorb-Returns ((j, (s, w)) ∷ post) (suc fuel) szex k m' h cov at le fits can kept go =
        elim (dec_lt szex sz) [
          | no stop ↦
              rw (absorb_stop fuel szex k m' (omega arith)) (
                go szex ((j, (s, w)) ∷ post) m' cov at le refl (λ lt. absurd (omega arith)) can
                  kept)
          | yes lt ↦
              rw (absorb_step fuel szex s w k m' cell lt) (elim (Bool-cases (leb s (sz - szex))) [
                | inr more ↦
                    rw more
                      (go szex ((j, (s, w)) ∷ post) m' cov at le refl (λ _. ground arith) can kept)
                | inl all ↦ rw all (
                    absorb-Returns post fuel (szex + s) k m1 (omega arith)
                      (record { base = cov.base; limit = cov.limit; coalescing = cov.coalescing })
                      (record {
                        index = at.index;
                        here = e1;
                        left = at.left;
                        nonempty = omega arith;
                        right = rw (← add_assoc loc szex s) at.right.2;
                      })
                      (omega (arith, leb→le s (sz - szex) all)) fits can.1
                      (refl, kept.1, kept.2, kept.3, kept.4)
                      (λ szex' post' m2 cov2 at2 le2 same reach.
                        go szex' post' m2 cov2 at2 le2 (same ∙ skipped (leb→le s (sz - szex) all))
                          reach))
              ])
        ]
      where
        below : Below loc pre
        below = Tiles-Below a loc pre at.left

        cell : S.get m'.d (loc + szex) ≡ some (s, w)
        cell = rw (← at.right.0) (
            get_next S m'.d (loc, (szex, v)) j (s, w) pre post at.here
              (Below-le loc j pre (omega arith) below) (omega arith))

        d1 : S.Dict
        d1 = S.del m'.d (loc + szex)

        e0 : items d1 ≡ pre ++ (loc, (szex, v)) ∷ post
        e0 =
            subst (λ n. items (S.del m'.d n) ≡ pre ++ (loc, (szex, v)) ∷ post) at.right.0
              (del_next S m'.d (loc, (szex, v)) j (s, w) pre post at.here
                (Below-le loc j pre (omega arith) below) (omega arith))

        m1 : IntervalMap S
        m1 = assign S dec loc (szex + s) v (vcc S dec w v (loc + szex) s (record m' { d = d1 }))

        e1 : items m1.d ≡ pre ++ (loc, (szex + s, v)) ∷ post
        e1 = put_here S d1 loc (szex, v) pre post e0 (szex + s, v) below

        skipped : s ≤ sz - szex → onward (loc + sz) post ≡ onward (loc + sz) ((j, (s, w)) ∷ post)
        skipped all = ground arith
