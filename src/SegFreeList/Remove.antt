-- ===== src/SegFreeList/Remove.antt =====
-- Removal of a free span, and the least address after it.
use memory_alloc_analysis.Prelude.{
  ℕ, ◌+◌, ◌≤◌, ◌<◌, ◌≡◌, ◌↔◌, ◌⊎◌, refl, none, some, answer, arith, true, Option-cases, inl, inr,
  ◌∙◌, ap,
}
use memory_alloc_analysis.SortedDict.Items.{lookup}
use memory_alloc_analysis.SegFreeList.Dict.{delete, keys, least, lookup-delete}
use memory_alloc_analysis.SegFreeList.Defs.{
  Dllist, FreeList, span_of, unlink, remove_core, remove_common, remove_intcoal, minva, is_minimum,
}
use memory_alloc_analysis.SegFreeList.Spans.{
  size_at, Covers, Valid, remove_intcoal-Removed, Removed-Valid,
}
use memory_alloc_analysis.SegFreeList.Grow.{Removed-Grown}

module _ (L : Dllist (ℕ × ℕ)) (G : Dllist ℕ) where
  -- Removal of a span returns its size; the spans stay apart, and free is what was free before
  -- but for the span.
  pub remove_intcoal-Covers :
      (m : FreeList L G)
      → Valid L G m
      → (va sz : ℕ) → size_at L G m va ≡ some sz
      → (m' : FreeList L G) × (remove_intcoal L G va m ≡ answer sz m')
        × Valid L G m'
        × (size_at L G m' va ≡ none)
        × ((x : ℕ) → Covers L G m x ↔ ((va ≤ x) × (x < va + sz)) ⊎ Covers L G m' x)
  remove_intcoal-Covers m V va sz h =
      let (m1, is, R) = remove_intcoal-Removed L G m V va sz h in
      (
        m1,
        is,
        Removed-Valid L G m va sz m1 h V R,
        R.sizes va ∙ ground arith,
        Removed-Grown L G m va sz m1 h R,
      )

  -- Where minva is the least address of the index, removal of the span at that address leaves
  -- minva there, where no span is any more.
  pub remove_common_stale :
      (m : FreeList L G) (va sz : ℕ)
      → least (keys m.adns) ≡ some va
      → m.minv ≡ some va
      → size_at L G m va ≡ some sz
      → (m' : FreeList L G) × (remove_common L G va m ≡ answer sz m')
        × (minva L G m' ≡ some va)
        × (size_at L G m' va ≡ none)
  unfolding remove_common remove_core minva
  remove_common_stale m va sz low cached h = elim (Option-cases (lookup va m.adns)) [
    | inl absent ↦ absurd (ground (arith, absent))
    | inr (n, there) ↦
        let m0 = record m { minv = least (keys m.adns) } in
        let same : (span_of L G n).1 ≡ sz = ground (arith, there) in
        let m' = unlink L G n.0 n.1 (record m0 { adns = delete va m.adns }) in
        let now : is_minimum L G va m.minv ≡ true = rw cached (ground arith) in
        let gone : lookup va (delete va m.adns) ≡ none =
          lookup-delete va va m.adns ∙ ground arith in
        (
          m',
          ap (remove_core L G va) {y = m0} (rw now refl)
              ∙ rw (remove_core, there) (ap (λ s. answer s m') same),
          low,
          rw gone refl,
        )
  ]
