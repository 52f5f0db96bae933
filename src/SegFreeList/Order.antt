-- ===== src/SegFreeList/Order.antt =====
-- The free list in the order of release: `eldest` and `iterlru`.
use memory_alloc_analysis.Prelude.{
  ℕ, ◌≡◌, refl, true, Option, none, some, List, [], ◌∷◌, ◌==◌, if◌then◌else◌, Result, ok, err,
  key_error, assertion_error, All, arith, map,
}
use memory_alloc_analysis.SortedDict.Items.{lookup}
use memory_alloc_analysis.SegFreeList.Defs.{Dllist, FreeList, SegNode, span_of}
use memory_alloc_analysis.SegFreeList.Spans.{size_at}
use memory_alloc_analysis.SegFreeList.Expunge.{cons_ok}

abbrev pub first : List (ℕ × ℕ) → Option (ℕ × ℕ)
first [] = none
first (x ∷ l) = some x

module _ (L : Dllist (ℕ × ℕ)) (G : Dllist ℕ) where
  -- `eldest`, at the addresses of `glru`; `none` where there are none
  unfoldable pub eldest_on : FreeList L G → List ℕ → Result (Option (ℕ × ℕ))
  eldest_on m [] = ok none
  eldest_on m (va ∷ l) = elim (lookup va m.adns) [
    | none ↦ err key_error
    | some n ↦ ok (some (span_of L G n))
  ]

  unfoldable pub eldest : FreeList L G → Result (Option (ℕ × ℕ))
  unfolding eldest_on
  eldest m = eldest_on m (G.values m.glru)

  -- the loop of `iterlru`, over the addresses of `glru`
  unfoldable pub iterlru_on : FreeList L G → List ℕ → Result (List (ℕ × ℕ))
  iterlru_on m [] = ok []
  iterlru_on m (va ∷ l) =
      let rest = iterlru_on m l in
      elim (lookup va m.adns) [
        | none ↦ err key_error
        | some n ↦
            if va == (span_of L G n).0 then cons_ok (span_of L G n) rest else err assertion_error
      ]

  unfoldable pub iterlru : FreeList L G → Result (List (ℕ × ℕ))
  unfolding iterlru_on
  iterlru m = iterlru_on m (G.values m.glru)

  -- the index has the address, under its own name
  pub record Indexed (m : FreeList L G) (va : ℕ) : Type 0 where
    pub entry : SegNode L G × G.Node
    pub there : lookup va m.adns ≡ some entry
    pub name : (span_of L G entry).0 ≡ va

  abbrev Spans : FreeList L G → List (ℕ × ℕ) → Type 0
  Spans m = All (λ x. size_at L G m x.0 ≡ some x.1)

  iterlru_on-Indexed :
      (m : FreeList L G) (l : List ℕ)
      → All (Indexed m) l
      → (r : List (ℕ × ℕ)) × (iterlru_on m l ≡ ok r)
        × (map (λ x. x.0) r ≡ l)
        × Spans m r
        × (eldest_on m l ≡ ok (first r))
  unfolding iterlru_on eldest_on
  iterlru_on-Indexed m [] h = ([], refl, refl, tt, refl)
  iterlru_on-Indexed m (va ∷ l) (i, h) =
      let (r, is, names, spans, _) = iterlru_on-Indexed m l h in
      let here : (va == (span_of L G i.entry).0) ≡ true = ground (arith, i.name) in
      let size : size_at L G m (span_of L G i.entry).0 ≡ some (span_of L G i.entry).1 =
        rw (i.name, i.there) refl in
      (
        span_of L G i.entry ∷ r,
        rw (iterlru_on, i.there, here, is) refl,
        rw (i.name, names) refl,
        (size, spans),
        rw (eldest_on, i.there) refl,
      )

  -- Where the index has every address of `glru`, `iterlru` gives the free spans in the order of
  -- release, and `eldest` the first of them.
  pub iterlru-Indexed :
      (m : FreeList L G)
      → All (Indexed m) (G.values m.glru)
      → (r : List (ℕ × ℕ)) × (iterlru m ≡ ok r)
        × (map (λ x. x.0) r ≡ G.values m.glru)
        × All (λ x. size_at L G m x.0 ≡ some x.1) r
        × (eldest m ≡ ok (first r))
  unfolding iterlru eldest
  iterlru-Indexed m h = iterlru_on-Indexed m (G.values m.glru) h
