-- ===== src/SegFreeList/Insert.antt =====
-- Insertion of a free span among its neighbours.
use memory_alloc_analysis.Prelude.{
  ℕ, ◌+◌, ◌≤◌, ◌<◌, ◌≡◌, ◌↔◌, refl, Bool, none, some, ◌⊎◌, inl, inr, arith, Option-cases, Answer,
  answer, sym, ◌∙◌,
}
use memory_alloc_analysis.SortedDict.Items.{lookup}
use memory_alloc_analysis.SegFreeList.Defs.{
  Dllist, FreeList, span_of, insert_end, insert_left, insert_intcoal,
}
use memory_alloc_analysis.SegFreeList.Spans.{
  size_at, Covers, Valid, remove_intcoal-Removed, Removed-Valid, found,
}
use memory_alloc_analysis.SegFreeList.Grow.{
  Gap, Grown, insert_end-Added, Added-Valid, Added-Grown, Removed-Grown, glue-Grown,
}

module _ (L : Dllist (ℕ × ℕ)) (G : Dllist ℕ) where
  abbrev Inserts : FreeList L G → ℕ → ℕ → Answer (FreeList L G) Unit → Type 0
  Inserts m va sz o = (m' : FreeList L G) × (o ≡ answer tt m') × Valid L G m' × Grown L G m va sz m'

  insert_end-Inserts :
      (m : FreeList L G) (va sz : ℕ) (front : Bool)
      → 0 < sz
      → Gap L G m va sz
      → Valid L G m
      → Inserts m va sz (insert_end L G va sz front m)
  insert_end-Inserts m va sz front pos gap V =
      let (m1, is, R) = insert_end-Added L G m va sz front in
      (m1, is, Added-Valid L G m va sz m1 pos gap V R, Added-Grown L G m va sz m1 pos gap V R)

  insert_left-Inserts :
      (m : FreeList L G) (va sz : ℕ) (front : Bool)
      → 0 < sz
      → ((b t : ℕ) → size_at L G m b ≡ some t → (b + t ≤ va) ⊎ (va + sz < b))
      → Valid L G m
      → Inserts m va sz (insert_left L G va sz front m)
  unfolding insert_left
  insert_left-Inserts m va sz front pos half V = elim (Option-cases (lookup va m.acod)) [
    | inl absent ↦
        let gap : Gap L G m va sz =
          λ b t e. ground (arith, half b t e, (V.sized b t e).1, absent) in
        let (m1, is, V1, now) = insert_end-Inserts m va sz front pos gap V in
        (m1, rw (insert_left, absent) is, V1, now)
    | inr (l, there) ↦
        let (s, f, g) = V.ended va l there in
        let (m1, is, R) = remove_intcoal-Removed L G m V l s f in
        let V1 = Removed-Valid L G m l s m1 f V R in
        let gap : Gap L G m1 l (sz + s) = λ b t e.
          let (ne, e') = found b l (size_at L G m b) t (sym (R.sizes b) ∙ e) in
          ground (arith, half b t e', V.apart b t l s e' f, V.apart l s b t f e', ne) in
        let (m2, is2, V2, now) = insert_end-Inserts m1 l (sz + s) front (omega arith) gap V1 in
        (
          m2,
          rw (insert_left, there, is) is2,
          V2,
          glue-Grown L G m m1 m2 l s l (sz + s) va sz (Removed-Grown L G m l s m1 f R) now
              (λ x. (λ i. ground arith, λ i. ground arith)),
        )
  ]

  -- Insertion of a span that is not free yet returns; the spans are again apart, and free is what
  -- was free before and the new span.
  pub insert_intcoal-Grown :
      (m : FreeList L G)
      → Valid L G m
      → (va sz : ℕ) (front : Bool) → 0 < sz
      → ((b t : ℕ) → size_at L G m b ≡ some t → (b + t ≤ va) ⊎ (va + sz ≤ b))
      → (m' : FreeList L G) × (insert_intcoal L G va sz front m ≡ answer tt m')
        × Valid L G m'
        × ((x : ℕ) → Covers L G m' x ↔ ((va ≤ x) × (x < va + sz)) ⊎ Covers L G m x)
  unfolding insert_intcoal
  insert_intcoal-Grown m V va sz front pos away = elim (Option-cases (lookup (va + sz) m.adns)) [
    | inl absent ↦
        let none_there : size_at L G m (va + sz) ≡ none = rw absent refl in
        let half : (b t : ℕ) → size_at L G m b ≡ some t → (b + t ≤ va) ⊎ (va + sz < b) = λ b t e.
          let ne : (b ≡ va + sz) → ⊥ = λ q. ground (arith, e, none_there, q) in
          ground (arith, away b t e, ne) in
        let (m1, is, V1, now) = insert_left-Inserts m va sz front pos half V in
        (m1, rw (insert_intcoal, absent) is, V1, now)
    | inr (n, there) ↦
        let t = (span_of L G n).1 in
        let f : size_at L G m (va + sz) ≡ some t = rw there refl in
        let (m1, is, R) = remove_intcoal-Removed L G m V (va + sz) t f in
        let V1 = Removed-Valid L G m (va + sz) t m1 f V R in
        let (m2, is2, V2, now) =
          insert_left-Inserts m1 va (sz + t) front (omega arith)
            (λ b u e.
              let (ne, e') = found b (va + sz) (size_at L G m b) u (sym (R.sizes b) ∙ e) in
              ground (arith, away b u e', V.apart (va + sz) t b u f e', ne))
            V1 in
        (
          m2,
          rw (insert_intcoal, there, is) is2,
          V2,
          glue-Grown L G m m1 m2 (va + sz) t va (sz + t) va sz
              (Removed-Grown L G m (va + sz) t m1 f R) now
              (λ x. (λ i. ground arith, λ i. ground arith)),
        )
  ]
