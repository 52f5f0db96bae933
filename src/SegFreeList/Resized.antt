-- ===== src/SegFreeList/Resized.antt =====
-- What `_insert_extcoal` does to the sizes of the free spans.
use memory_alloc_analysis.Prelude.{
  ℕ, ◌+◌, ◌≡◌, refl, ap, ◌∙◌, Bool, true, false, none, some, ◌==◌, ◌&&◌, not, if◌then◌else◌, answer,
  arith, Bool-cases, Option-cases, inl, inr,
}
use memory_alloc_analysis.SortedDict.Items.{lookup}
use memory_alloc_analysis.SegFreeList.Dict.{delete, keys, least}
use memory_alloc_analysis.SegFreeList.Defs.{
  Dllist, FreeList, SegNode, span_of, remove_core, remove_common, insert_core, is_minimum, unlink,
  segix, new_node, seg_at,
}
use memory_alloc_analysis.SegFreeList.Extern.{insert_extcoal, remove_unless}
use memory_alloc_analysis.SegFreeList.Spans.{size_at, size_in-set, size_in-delete}
use memory_alloc_analysis.SegFreeList.Grow.{new_node_value}

module _ (L : Dllist (ℕ × ℕ)) (G : Dllist ℕ) where
  -- the state without the span at va, which had the size sz
  Without : FreeList L G → ℕ → FreeList L G → Type 0
  Without m va m' = (j : ℕ) → size_at L G m' j ≡ (if j == va then none else size_at L G m j)

  remove_core-Without :
      (va sz : ℕ) (m : FreeList L G)
      → size_at L G m va ≡ some sz
      → (m' : FreeList L G) × (remove_core L G va m ≡ answer sz m') × Without m va m'
  unfolding remove_core Without
  remove_core-Without va sz m has = elim (Option-cases (lookup va m.adns)) [
    | inl gone ↦ absurd (ground (arith, has, gone))
    | inr (n, there) ↦
        let same : (span_of L G n).1 ≡ sz = ground (arith, there, has) in
        (
          unlink L G n.0 n.1 (record m { adns = delete va m.adns }),
          rw (remove_core, there)
              (ap (λ s. answer s (unlink L G n.0 n.1 (record m { adns = delete va m.adns }))) same),
          λ j. size_in-delete L G j va m.adns,
        )
  ]

  pub remove_common-Without :
      (va sz : ℕ) (m : FreeList L G)
      → size_at L G m va ≡ some sz
      → (m' : FreeList L G) × (remove_common L G va m ≡ answer sz m')
        × ((j : ℕ) → size_at L G m' j ≡ (if j == va then none else size_at L G m j))
  unfolding remove_common Without
  remove_common-Without va sz m has = elim (Bool-cases (is_minimum L G va m.minv)) [
    | inl lowest ↦
        let (m', did, sizes) =
          remove_core-Without va sz (record m { minv = least (keys m.adns) }) has in
        (m', rw (remove_common, lowest) did, sizes)
    | inr other ↦
        let (m', did, sizes) = remove_core-Without va sz m has in
        (m', rw (remove_common, other) did, sizes)
  ]

  insert_core-sizes :
      (va sz : ℕ) (front : Bool) (m : FreeList L G) (j : ℕ)
      → size_at L G (insert_core L G va sz front m) j
        ≡ (if j == va then some sz else size_at L G m j)
  unfolding insert_core
  insert_core-sizes va sz front m j =
      let i = segix sz in
      let (node, seg) = new_node L G front (va, sz) (seg_at L G i m.segs) in
      let n : SegNode L G × G.Node = (record { list = i; node = node }, (G.insert va m.glru).0) in
      let value : (span_of L G n).1 ≡ sz =
        ap (λ x. x.1) (new_node_value L G front (va, sz) (seg_at L G i m.segs)) in
      size_in-set L G j va n m.adns ∙ ap (λ s. if j == va then some s else size_at L G m j) value

  -- a removal that is left out, or finds its span
  remove_unless-sizes :
      (b : Bool) (va sz : ℕ) (m : FreeList L G)
      → (b ≡ false → size_at L G m va ≡ some sz)
      → (m' : FreeList L G) × (remove_unless L G b va m ≡ answer tt m')
        × ((j : ℕ) → size_at L G m' j ≡ (if j == va && not b then none else size_at L G m j))
  remove_unless-sizes true va sz m has = (m, refl, λ j. ground arith)
  remove_unless-sizes false va sz m has =
      let (m', did, sizes) = remove_common-Without va sz m (has refl) in
      (m', rw did refl, λ j. sizes j ∙ ground arith)

  -- Where the neighbours that the span (k, n) takes in are free, the insertion returns with it.
  pub insert_extcoal-sizes :
      (k n va sz left right : ℕ) (m : FreeList L G)
      → ((va == k) ≡ false → size_at L G m k ≡ some left)
      → ((k + n == va + sz) ≡ false → size_at L G m (va + sz) ≡ some right)
      → (k ≡ va + sz → ⊥)
      → (m' : FreeList L G) × (insert_extcoal L G (λ _. (k, n)) va sz false m ≡ answer tt m')
        × ((j : ℕ)
            → size_at L G m' j ≡ (
                if j == k
                then some n
                else if j == va + sz && not (k + n == va + sz)
                then none
                else size_at L G m j))
  unfolding insert_extcoal
  insert_extcoal-sizes k n va sz left right m on_left on_right apart =
      let (m1, did1, sizes1) = remove_unless-sizes (va == k) k left m on_left in
      let other : (va + sz == k) ≡ false = ground (arith, apart) in
      let still : size_at L G m1 (va + sz) ≡ size_at L G m (va + sz) =
        sizes1 (va + sz) ∙ rw other refl in
      let (m2, did2, sizes2) =
        remove_unless-sizes (k + n == va + sz) (va + sz) right m1 (λ h. still ∙ on_right h) in
      (
        insert_core L G k n false m2,
        rw (insert_extcoal, did1, did2) refl,
        λ j. insert_core-sizes k n false m2 j ∙ elim (Bool-cases (j == k)) [
          | inl same ↦ rw same refl
          | inr differs ↦ rw (differs, sizes2 j, sizes1 j, differs) refl
        ],
      )
