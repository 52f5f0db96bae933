-- ===== src/SegFreeList/Classes.antt =====
-- The lists of `segs` and the classes of their spans.
use memory_alloc_analysis.Prelude.{
  ℕ, zero, suc, ◌+◌, ◌≡◌, Bool, true, false, List, [], ◌∷◌, ◌++◌, if◌then◌else◌, Answer, answer,
  failure, and_then, All, Bool-cases, Option-cases, inl, inr, arith, subst,
}
use memory_alloc_analysis.SortedDict.Items.{lookup}
use memory_alloc_analysis.SegFreeList.Dict.{keys, least}
use memory_alloc_analysis.SegFreeList.Defs.{
  Dllist, FreeList, segix, update, new_node, seg_at, is_minimum, without_end, remove_core,
  remove_common, remove_intcoal, insert_core, insert_end, insert_left, insert_intcoal,
}
use memory_alloc_analysis.SegFreeList.Search.{InClass, Segregated}

All-append : {A : Type 0} (P : A → Type 0) (l r : List A) → All P l → All P r → All P (l ++ r)
All-append P [] r h k = k
All-append P (x ∷ l) r h k = (h.0, All-append P l r h.1 k)

module _ (L : Dllist (ℕ × ℕ)) (G : Dllist ℕ) where
  update_remove-Segregated :
      (i k : ℕ) (n : L.Node) (l : List L.Dll)
      → Segregated L G i l
      → Segregated L G i (update k (L.remove n) l)
  update_remove-Segregated i k n [] s = tt
  update_remove-Segregated i zero n (d ∷ l) s = (L.values-remove (λ x. segix x.1 ≡ i) n d s.0, s.1)
  update_remove-Segregated i (suc k) n (d ∷ l) s = (s.0, update_remove-Segregated (suc i) k n l s.1)

  update-Segregated :
      (i k : ℕ) (d' : L.Dll) (l : List L.Dll)
      → Segregated L G i l
      → InClass (i + k) (L.values d')
      → Segregated L G i (update k (λ _. d') l)
  update-Segregated i k d' [] s c = tt
  update-Segregated i zero d' (d ∷ l) s c =
      (subst (λ j. InClass j (L.values d')) (omega arith) c, s.1)
  update-Segregated i (suc k) d' (d ∷ l) s c = (
    s.0,
    update-Segregated (suc i) k d' l s.1 (subst (λ j. InClass j (L.values d')) (omega arith) c),
  )

  seg_at-InClass :
      (i k : ℕ) (l : List L.Dll) → Segregated L G i l → InClass (i + k) (L.values (seg_at L G k l))
  seg_at-InClass i k [] s = rw L.values-empty tt
  seg_at-InClass i zero (d ∷ l) s = subst (λ j. InClass j (L.values d)) (omega arith) s.0
  seg_at-InClass i (suc k) (d ∷ l) s =
      subst (λ j. InClass j (L.values (seg_at L G k l))) (omega arith)
        (seg_at-InClass (suc i) k l s.1)

  new_node-InClass :
      (front : Bool) (va sz i : ℕ) (d : L.Dll)
      → segix sz ≡ i
      → InClass i (L.values d)
      → InClass i (L.values (new_node L G front (va, sz) d).1)
  new_node-InClass true va sz i d h c = rw (L.values-appendleft (va, sz) d) (h, c)
  new_node-InClass false va sz i d h c =
      rw (L.values-insert (va, sz) d) (All-append (λ x. segix x.1 ≡ i) (L.values d) _ c (h, tt))

  abbrev pub Sorted : FreeList L G → Type 0
  Sorted m = Segregated L G 0 m.segs

  -- also where a method raises
  abbrev pub Keeps : {A : Type 0} → Answer (FreeList L G) A → Type 0
  Keeps (answer a m) = Sorted m
  Keeps (failure e m) = Sorted m

  and_then-Keeps :
      {A B : Type 0} (r : Answer (FreeList L G) A) (k : A → FreeList L G → Answer (FreeList L G) B)
      → Keeps r
      → ((a : A) (m : FreeList L G) → Sorted m → Keeps (k a m))
      → Keeps (and_then r k)
  and_then-Keeps (answer a m) k h f = f a m h
  and_then-Keeps (failure e m) k h f = h

  without_end-Keeps :
      {A : Type 0} (k : ℕ) (a : A) (m : FreeList L G) → Sorted m → Keeps (without_end L G k a m)
  without_end-Keeps k a m s = elim (Option-cases (lookup k m.acod)) [
    | inl absent ↦ rw (without_end, absent) s
    | inr (x, there) ↦ rw (without_end, there) s
  ]

  remove_core-Keeps : (va : ℕ) (m : FreeList L G) → Sorted m → Keeps (remove_core L G va m)
  unfolding remove_core
  remove_core-Keeps va m s = elim (Option-cases (lookup va m.adns)) [
    | inl absent ↦ rw (remove_core, absent) s
    | inr (n, there) ↦
        rw (remove_core, there) (update_remove-Segregated 0 n.0.list n.0.node m.segs s)
  ]

  pub remove_intcoal-Keeps :
      (va : ℕ) (m : FreeList L G) → Sorted m → Keeps (remove_intcoal L G va m)
  unfolding remove_intcoal remove_common
  remove_intcoal-Keeps va m s =
      let m0 = if is_minimum L G va m.minv then record m { minv = least (keys m.adns) } else m in
      let s0 : Sorted m0 = elim (Bool-cases (is_minimum L G va m.minv)) [
        | inl low ↦ rw low s
        | inr high ↦ rw high s
      ] in
      and_then-Keeps (remove_core L G va m0) (λ sz m1. without_end L G (va + sz) sz m1)
        (remove_core-Keeps va m0 s0) (λ sz m1 s1. without_end-Keeps (va + sz) sz m1 s1)

  insert_end-Keeps :
      (va sz : ℕ) (front : Bool) (m : FreeList L G)
      → Sorted m
      → Keeps (insert_end L G va sz front m)
  unfolding insert_end insert_core
  insert_end-Keeps va sz front m s =
      let d = seg_at L G (segix sz) m.segs in
      update-Segregated 0 (segix sz) (new_node L G front (va, sz) d).1 m.segs s (
        new_node-InClass front va sz (0 + segix sz) d (omega arith)
          (seg_at-InClass 0 (segix sz) m.segs s))

  insert_left-Keeps :
      (va sz : ℕ) (front : Bool) (m : FreeList L G)
      → Sorted m
      → Keeps (insert_left L G va sz front m)
  unfolding insert_left
  insert_left-Keeps va sz front m s = elim (Option-cases (lookup va m.acod)) [
    | inl absent ↦ rw (insert_left, absent) (insert_end-Keeps va sz front m s)
    | inr (l, there) ↦
        rw (insert_left, there)
          (and_then-Keeps (remove_intcoal L G l m) (λ szl m1. insert_end L G l (sz + szl) front m1)
            (remove_intcoal-Keeps l m s) (λ szl m1 s1. insert_end-Keeps l (sz + szl) front m1 s1))
  ]

  -- Insertion leaves every span in the list of its class, also where it raises.
  pub insert_intcoal-Keeps :
      (va sz : ℕ) (front : Bool) (m : FreeList L G)
      → Sorted m
      → Keeps (insert_intcoal L G va sz front m)
  unfolding insert_intcoal
  insert_intcoal-Keeps va sz front m s = elim (Option-cases (lookup (va + sz) m.adns)) [
    | inl absent ↦ rw (insert_intcoal, absent) (insert_left-Keeps va sz front m s)
    | inr (n, there) ↦
        rw (insert_intcoal, there)
          (and_then-Keeps (remove_intcoal L G (va + sz) m)
            (λ szr m1. insert_left L G va (sz + szr) front m1) (remove_intcoal-Keeps (va + sz) m s)
            (λ szr m1 s1. insert_left-Keeps va (sz + szr) front m1 s1))
  ]
