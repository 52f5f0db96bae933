-- ===== src/SegFreeList/Linked.antt =====
-- The span that `_insert_intcoal` puts in, in the index and in the list of its class.
use memory_alloc_analysis.Prelude.{
  ℕ, zero, suc, ◌+◌, ◌≤◌, ◌<◌, ◌≡◌, refl, ap, ◌∙◌, subst, Bool, true, false, some, List, [], ◌∷◌,
  ◌++◌, length, ◌⊎◌, inl, inr, Answer, answer, arith, Option-cases,
}
use memory_alloc_analysis.SortedDict.Items.{lookup}
use memory_alloc_analysis.SegFreeList.Defs.{
  Dllist, FreeList, SegNode, segix, update, seg_at, new_node, span_of, insert_core, insert_end,
  insert_left, insert_intcoal,
}
use memory_alloc_analysis.SegFreeList.Spans.{
  size_at, size_in-set, Valid, remove_intcoal-Removed, Removed-Valid,
}
use memory_alloc_analysis.SegFreeList.Grow.{new_node_value}
use memory_alloc_analysis.SegFreeList.Classes.{Sorted, Keeps, insert_intcoal-Keeps}

-- the list has x
abbrev pub Among : {A : Type 0} → A → List A → Type 0
Among x [] = ⊥
Among x (y ∷ l) = (y ≡ x) ⊎ Among x l

Among-last : {A : Type 0} (x : A) (l : List A) → Among x (l ++ (x ∷ []))
Among-last x [] = inl refl
Among-last x (y ∷ l) = inr (Among-last x l)

module _ (L : Dllist (ℕ × ℕ)) (G : Dllist ℕ) where
  seg_at-update :
      (i : ℕ) (d : L.Dll) (l : List L.Dll) → i < length l → seg_at L G i (update i (λ _. d) l) ≡ d
  seg_at-update i d [] lt = absurd (omega (arith, lt))
  seg_at-update zero d (x ∷ l) lt = refl
  seg_at-update (suc i) d (x ∷ l) lt = seg_at-update i d l (omega (arith, lt))

  segix_below : (sz : ℕ) → segix sz < 7
  unfolding segix
  segix_below sz = ground arith

  new_node-Among :
      (front : Bool) (x : ℕ × ℕ) (d : L.Dll) → Among x (L.values (new_node L G front x d).1)
  new_node-Among true x d = rw (L.values-appendleft x d) (inl refl)
  new_node-Among false x d = rw (L.values-insert x d) (Among-last x (L.values d))

  -- A span over [va, va + sz) is in the index, and the list of its class has it.
  pub record Linked (m : FreeList L G) (va sz : ℕ) : Type 0 where
    pub start : ℕ
    pub size : ℕ
    pub low : start ≤ va
    pub high : va + sz ≤ start + size
    pub indexed : size_at L G m start ≡ some size
    pub listed : Among (start, size) (L.values (seg_at L G (segix size) m.segs))

  abbrev Links : FreeList L G → ℕ → ℕ → Answer (FreeList L G) Unit → Type 0
  Links m va sz o = (m' : FreeList L G) × (o ≡ answer tt m') × Linked m' va sz

  insert_end-Links :
      (m : FreeList L G) (va sz lo k : ℕ) (front : Bool)
      → length m.segs ≡ 7
      → va ≤ lo
      → lo + k ≤ va + sz
      → Links m lo k (insert_end L G va sz front m)
  unfolding insert_end insert_core
  insert_end-Links m va sz lo k front seven low high =
      let d = seg_at L G (segix sz) m.segs in
      let (node, seg) = new_node L G front (va, sz) d in
      let n : SegNode L G × G.Node =
        (record { list = segix sz; node = node }, (G.insert va m.glru).0) in
      let value : (span_of L G n).1 ≡ sz = ap (λ x. x.1) (new_node_value L G front (va, sz) d) in
      (
        _,
        refl,
        record {
          start = va;
          size = sz;
          low = low;
          high = high;
          indexed = size_in-set L G va va n m.adns ∙ ground (arith, value);
          listed =
              rw
                (seg_at-update (segix sz) (new_node L G front (va, sz) d).1 m.segs
                  (omega (arith, seven, segix_below sz)))
                (new_node-Among front (va, sz) d);
        },
      )

  insert_left-Links :
      (m : FreeList L G) (va sz lo k : ℕ) (front : Bool)
      → Valid L G m
      → length m.segs ≡ 7
      → va ≤ lo
      → lo + k ≤ va + sz
      → Links m lo k (insert_left L G va sz front m)
  unfolding insert_left
  insert_left-Links m va sz lo k front V seven low high = elim (Option-cases (lookup va m.acod)) [
    | inl absent ↦
        let (m1, is, l) = insert_end-Links m va sz lo k front seven low high in
        (m1, rw (insert_left, absent) is, l)
    | inr (lsva, there) ↦
        let (s, f, g) = V.ended va lsva there in
        let (m1, is, R) = remove_intcoal-Removed L G m V lsva s f in
        let (m2, is2, l) =
          insert_end-Links m1 lsva (sz + s) lo k front (omega (arith, R.lists, seven))
            (omega (arith, g, low)) (omega (arith, g, high)) in
        (m2, rw (insert_left, there, is) is2, l)
  ]

  insert_intcoal-Links :
      (m : FreeList L G) (va sz : ℕ) (front : Bool)
      → Valid L G m
      → length m.segs ≡ 7
      → Links m va sz (insert_intcoal L G va sz front m)
  unfolding insert_intcoal
  insert_intcoal-Links m va sz front V seven = elim (Option-cases (lookup (va + sz) m.adns)) [
    | inl absent ↦
        let (m1, is, l) =
          insert_left-Links m va sz va sz front V seven (omega arith) (omega arith) in
        (m1, rw (insert_intcoal, absent) is, l)
    | inr (n, there) ↦
        let t = (span_of L G n).1 in
        let f : size_at L G m (va + sz) ≡ some t = rw there refl in
        let (m1, is, R) = remove_intcoal-Removed L G m V (va + sz) t f in
        let V1 = Removed-Valid L G m (va + sz) t m1 f V R in
        let (m2, is2, l) =
          insert_left-Links m1 va (sz + t) va sz front V1 (omega (arith, R.lists, seven))
            (omega arith) (omega arith) in
        (m2, rw (insert_intcoal, there, is) is2, l)
  ]

  -- On a valid free list with its seven lists, each with spans of its class only, insertion
  -- returns; each list again has spans of its class only, and a span that holds the new one is
  -- in the index with its size and in the list of the class of that size.
  pub insert_intcoal-Linked :
      (m : FreeList L G) (va sz : ℕ) (front : Bool)
      → Valid L G m
      → length m.segs ≡ 7
      → Sorted L G m
      → (m' : FreeList L G) × (insert_intcoal L G va sz front m ≡ answer tt m')
        × Sorted L G m'
        × Linked m' va sz
  insert_intcoal-Linked m va sz front V seven sorted =
      let (m', is, l) = insert_intcoal-Links m va sz front V seven in
      (m', is, subst (Keeps L G) is (insert_intcoal-Keeps L G va sz front m sorted), l)
