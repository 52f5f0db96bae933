-- ===== src/Traditional/Due.antt =====
-- sim/alloc/DLMallocish.py: when an allocator of this kind revokes.
use memory_alloc_analysis.Prelude.{
  ℕ, zero, suc, ◌≤◌, ◌<◌, ◌≡◌, Bool, true, false, ◌&&◌, List, [], ◌∷◌, if◌then◌else◌, leb, length,
  arith, done, raised, assertion_error, refl, ap,
}
use memory_alloc_analysis.IntervalMap.Interface.{ValueMap}
use memory_alloc_analysis.SegFreeList.Defs.{Dllist}
use memory_alloc_analysis.Clingy.Defs.{Best}
use memory_alloc_analysis.Traditional.States.{SegSt, PageSt}
use memory_alloc_analysis.Traditional.Defs.{Traditional, Method}
use memory_alloc_analysis.Traditional.Revoke.{do_revoke_best_and}

-- [loc for (loc, _) in itertools.islice(spans, n)]
unfoldable pub oldest : ℕ → List (ℕ × ℕ) → List ℕ
oldest zero l = []
oldest (suc n) [] = []
oldest (suc n) (q ∷ l) = q.0 ∷ oldest n l

length-oldest : (n : ℕ) (l : List (ℕ × ℕ)) → n ≤ length l → length (oldest n l) ≡ n
unfolding oldest
length-oldest zero l h = refl
length-oldest (suc n) [] h = absurd (omega (arith, h))
length-oldest (suc n) (q ∷ l) h = ap suc (length-oldest n l (omega (arith, h)))

module _ (A : ValueMap SegSt) (P : ValueMap PageSt) (L : Dllist (ℕ × ℕ)) (G : Dllist ℕ)
    (order : List Best → List Best) (revoke_k : ℕ) where
  unfoldable pub due : Traditional A P L G → Bool
  due s = leb s.nwait s.njunk && leb 16 (length (L.values s.junklru))

  unfoldable pub maybe_revoke : Method A P L G
  unfolding oldest due do_revoke_best_and
  maybe_revoke s =
      if due s
      then do_revoke_best_and A P L G order revoke_k revoke_k (oldest 8 (L.values s.junklru)) s
      else done s

  -- With a --revoke-k below 8, _maybe_revoke fails its assertion on every state in which a
  -- revocation is due, and changes nothing.
  pub maybe_revoke_few :
      (s : Traditional A P L G)
      → revoke_k < 8
      → due s ≡ true
      → maybe_revoke s ≡ raised assertion_error s
  unfolding maybe_revoke do_revoke_best_and
  maybe_revoke_few s few now =
      let many : leb 16 (length (L.values s.junklru)) ≡ true = unfold due in ground (arith, now) in
      let eight = length-oldest 8 (L.values s.junklru) (ground (arith, many)) in
      let over : leb (length (oldest 8 (L.values s.junklru))) revoke_k ≡ false =
        rw eight (ground (arith, few)) in
      rw (maybe_revoke, now, do_revoke_best_and, over) refl
