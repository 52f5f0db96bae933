-- ===== src/SegFreeList/Grow.antt =====
-- The free list with a further span, and the addresses that are free in it.
use memory_alloc_analysis.Prelude.{
  ℕ_discrete, ℕ, ◌+◌, ◌≤◌, ◌<◌, ◌≡◌, ◌↔◌, refl, Bool, true, false, none, some, ◌==◌, if◌then◌else◌,
  ◌⊎◌, inl, inr, ap, arith, answer, sym, ◌∙◌,
}
use memory_alloc_analysis.SortedDict.Items.{lookup}
use memory_alloc_analysis.SegFreeList.Dict.{lookup-set}
use memory_alloc_analysis.SegFreeList.Defs.{
  Dllist, FreeList, SegNode, span_of, insert_core, insert_end, segix, new_node, seg_at,
}
use memory_alloc_analysis.SegFreeList.Spans.{
  size_in-set, size_at, Covers, Valid, Removed, found, either, other_key, same_key,
}

module _ (L : Dllist (ℕ × ℕ)) (G : Dllist ℕ) where
  -- the state with the further span (va, sz)
  pub record Added (m : FreeList L G) (va sz : ℕ) (m1 : FreeList L G) : Type 0 where
    pub sizes : (j : ℕ) → size_at L G m1 j ≡ (if j == va then some sz else size_at L G m j)
    pub ends : (j : ℕ) → lookup j m1.acod ≡ (if j == va + sz then some va else lookup j m.acod)

  pub new_node_value :
      (front : Bool) (x : ℕ × ℕ) (d : L.Dll) → L.node_value (new_node L G front x d).0 ≡ x
  new_node_value true x d = L.appendleft_value x d
  new_node_value false x d = L.insert_value x d

  pub insert_end-Added :
      (m : FreeList L G) (va sz : ℕ) (front : Bool)
      → (m1 : FreeList L G) × (insert_end L G va sz front m ≡ answer tt m1) × Added m va sz m1
  unfolding insert_end insert_core
  insert_end-Added m va sz front =
      let i = segix sz in
      let (node, seg) = new_node L G front (va, sz) (seg_at L G i m.segs) in
      let n : SegNode L G × G.Node = (record { list = i; node = node }, (G.insert va m.glru).0) in
      let value : (span_of L G n).1 ≡ sz =
        ap (λ x. x.1) (new_node_value front (va, sz) (seg_at L G i m.segs)) in
      (
        _,
        refl,
        record {
          sizes = λ j.
              size_in-set L G j va n m.adns
              ∙ ap (λ s. if j == va then some s else size_at L G m j) value;
          ends = λ j. lookup-set j (va + sz) va m.acod;
        },
      )

  -- no span touches [va, va + sz)
  abbrev pub Gap : FreeList L G → ℕ → ℕ → Type 0
  Gap m va sz = (b t : ℕ) → size_at L G m b ≡ some t → (b + t < va) ⊎ (va + sz < b)

  pub Added-Valid :
      (m : FreeList L G) (va sz : ℕ) (m1 : FreeList L G)
      → 0 < sz
      → Gap m va sz
      → Valid L G m
      → Added m va sz m1
      → Valid L G m1
  Added-Valid m va sz m1 pos gap V R = record {
    sized = λ a s e. elim (either a va (size_at L G m a) s sz (sym (R.sizes a) ∙ e)) [
      | inl (q, r) ↦ (
        omega arith,
        R.ends (a + s)
            ∙ same_key (a + s) (va + sz) (lookup (a + s) m.acod) (some va) (omega arith)
            ∙ ap some (sym q),
      )
      | inr (ne, e') ↦
          let (pos', end) = V.sized a s e' in
          (
            pos',
            R.ends (a + s)
                ∙ other_key (a + s) (va + sz) (lookup (a + s) m.acod) (some va)
                    (λ q. ground (arith, gap a s e'))
                ∙ end,
          )
    ];
    ended = λ e a i. elim (either e (va + sz) (lookup e m.acod) a va (sym (R.ends e) ∙ i)) [
      | inl (q, r) ↦
          (sz, R.sizes a ∙ same_key a va (size_at L G m a) (some sz) (sym r), omega arith)
      | inr (ne, i') ↦
          let (s, f, g) = V.ended e a i' in
          (
            s,
            R.sizes a
                ∙ other_key a va (size_at L G m a) (some sz) (λ q. ground (arith, gap a s f))
                ∙ f,
            g,
          )
    ];
    apart = λ a s b t e f lt. elim (either a va (size_at L G m a) s sz (sym (R.sizes a) ∙ e)) [
      | inl (q, r) ↦ elim (either b va (size_at L G m b) t sz (sym (R.sizes b) ∙ f)) [
        | inl (q', r') ↦ absurd (omega arith)
        | inr (ne', f') ↦ ground (arith, gap b t f')
      ]
      | inr (ne, e') ↦ elim (either b va (size_at L G m b) t sz (sym (R.sizes b) ∙ f)) [
        | inl (q', r') ↦ ground (arith, gap a s e')
        | inr (ne', f') ↦ V.apart a s b t e' f' lt
      ]
    ];
  }

  abbrev pub In : ℕ → ℕ → ℕ → Type 0
  In va sz x = (va ≤ x) × (x < va + sz)

  -- What is free after a step: [va, va + sz), and what was free before.
  abbrev pub Grown : FreeList L G → ℕ → ℕ → FreeList L G → Type 0
  Grown m va sz m1 = (x : ℕ) → Covers L G m1 x ↔ ((va ≤ x) × (x < va + sz)) ⊎ Covers L G m x

  pub Added-Grown :
      (m : FreeList L G) (va sz : ℕ) (m1 : FreeList L G)
      → 0 < sz
      → Gap m va sz
      → Valid L G m
      → Added m va sz m1
      → Grown m va sz m1
  Added-Grown m va sz m1 pos gap V R x = (
    λ (a, s, e, lo, hi). elim (either a va (size_at L G m a) s sz (sym (R.sizes a) ∙ e)) [
      | inl (q, r) ↦ inl (omega arith, omega arith)
      | inr (ne, e') ↦ inr (a, s, e', lo, hi)
    ],
    λ c. elim c [
      | inl (lo, hi) ↦
          (va, sz, R.sizes va ∙ same_key va va (size_at L G m va) (some sz) refl, lo, hi)
      | inr (a, s, e, lo, hi) ↦ (
        a,
        s,
        R.sizes a ∙ other_key a va (size_at L G m a) (some sz) (λ q. ground (arith, gap a s e)) ∙ e,
        lo,
        hi,
      )
    ],
  )

  -- A removed span is what the state before had more.
  pub Removed-Grown :
      (m : FreeList L G) (va sz : ℕ) (m1 : FreeList L G)
      → size_at L G m va ≡ some sz
      → Removed L G m va sz m1
      → Grown m1 va sz m
  Removed-Grown m va sz m1 h R x = (
    λ (a, s, e, lo, hi). elim (ℕ_discrete a va) [
      | yes q ↦ let r : s ≡ sz = ground (arith, q, e, h) in inl (omega arith, omega arith)
      | no ne ↦ inr (a, s, R.sizes a ∙ other_key a va (size_at L G m a) none ne ∙ e, lo, hi)
    ],
    λ c. elim c [
      | inl (lo, hi) ↦ (va, sz, h, lo, hi)
      | inr (a, s, e, lo, hi) ↦
          (a, s, (found a va (size_at L G m a) s (sym (R.sizes a) ∙ e)).1, lo, hi)
    ],
  )

  -- the span of the state before, and the larger one of the state after
  pub glue-Grown :
      (m m1 m2 : FreeList L G) (a s a' s' va sz : ℕ)
      → Grown m1 a s m
      → Grown m1 a' s' m2
      → ((x : ℕ) → In a' s' x ↔ In va sz x ⊎ In a s x)
      → Grown m va sz m2
  glue-Grown m m1 m2 a s a' s' va sz before now both x = (
    λ c. elim ((now x).0 c) [
      | inl i ↦ elim ((both x).0 i) [ inl j ↦ inl j | inr j ↦ inr ((before x).1 (inl j)) ]
      | inr d ↦ inr ((before x).1 (inr d))
    ],
    λ c. elim c [
      | inl i ↦ (now x).1 (inl ((both x).1 (inl i)))
      | inr d ↦ elim ((before x).0 d) [
        | inl j ↦ (now x).1 (inl ((both x).1 (inr j)))
        | inr r ↦ (now x).1 (inr r)
      ]
    ],
  )
