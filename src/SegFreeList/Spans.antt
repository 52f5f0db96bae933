-- ===== src/SegFreeList/Spans.antt =====
-- What the index says: the free spans, and removal of one of them.
use memory_alloc_analysis.Prelude.{
  ℕ, zero, suc, length, [], ◌∷◌, ◌+◌, ◌≤◌, ◌<◌, ◌≡◌, refl, Option, none, some, List, ◌==◌,
  if◌then◌else◌, ◌⊎◌, inl, inr, ap, arith, Option-cases, Bool-cases, Answer, answer, and_then, sym,
  ◌∙◌,
}
use memory_alloc_analysis.SortedDict.Items.{lookup}
use memory_alloc_analysis.SegFreeList.Dict.{delete, set, keys, least, lookup-delete, lookup-set}
use memory_alloc_analysis.SegFreeList.Defs.{
  Dllist, FreeList, SegNode, span_of, remove_core, remove_common, remove_intcoal, is_minimum,
  unlink, without_end, update,
}

module _ {A : Type 0} (j k : ℕ) (o : Option A) where
  pub found : (x : A) → (if j == k then none else o) ≡ some x → ((j ≡ k) → ⊥) × (o ≡ some x)
  found x h = (λ e. ground arith, ground arith)

  pub either :
      (x y : A)
      → (if j == k then some y else o) ≡ some x
      → ((j ≡ k) × (y ≡ x)) ⊎ (((j ≡ k) → ⊥) × (o ≡ some x))
  either x y h = elim (Bool-cases (j == k)) [
    | inl same ↦ let p : some y ≡ some x = sym (rw same refl) ∙ h in inl (ground arith, cc)
    | inr other ↦ inr (λ e. ground arith, sym (rw other refl) ∙ h)
  ]

  pub other_key : (o' : Option A) → ((j ≡ k) → ⊥) → (if j == k then o' else o) ≡ o
  other_key o' h = ground arith

  pub same_key : (o' : Option A) → j ≡ k → (if j == k then o' else o) ≡ o'
  same_key o' h = ground arith

pub length-update : {A : Type 0} (i : ℕ) (f : A → A) (l : List A) → length (update i f l) ≡ length l
length-update i f [] = refl
length-update zero f (x ∷ l) = refl
length-update (suc i) f (x ∷ l) = ap suc (length-update i f l)

module _ (L : Dllist (ℕ × ℕ)) (G : Dllist ℕ) where
  abbrev pub size_of : Option (SegNode L G × G.Node) → Option ℕ
  size_of none = none
  size_of (some n) = some (span_of L G n).1

  abbrev pub size_in : List (ℕ × (SegNode L G × G.Node)) → ℕ → Option ℕ
  size_in adns va = size_of (lookup va adns)

  abbrev pub size_at : FreeList L G → ℕ → Option ℕ
  size_at m va = size_in m.adns va

  -- an address in a free span
  abbrev pub Covers : FreeList L G → ℕ → Type 0
  Covers m x = (va sz : ℕ) × (size_at m va ≡ some sz) × (va ≤ x) × (x < va + sz)

  -- The spans are not empty, `acod` has the ends of exactly these spans, and between two spans there
  -- is a gap.
  pub record Valid (m : FreeList L G) : Type 0 where
    pub sized :
        (va sz : ℕ) → size_at m va ≡ some sz → (0 < sz) × (lookup (va + sz) m.acod ≡ some va)
    pub ended :
        (e va : ℕ) → lookup e m.acod ≡ some va → (sz : ℕ) × (size_at m va ≡ some sz) × (va + sz ≡ e)
    pub apart : (a s b t : ℕ) → size_at m a ≡ some s → size_at m b ≡ some t → a < b → a + s < b

  pub size_in-delete :
      (j k : ℕ) (l : List (ℕ × (SegNode L G × G.Node)))
      → size_in (delete k l) j ≡ (if j == k then none else size_in l j)
  size_in-delete j k l = ap size_of (lookup-delete j k l) ∙ ground arith

  pub size_in-set :
      (j k : ℕ) (n : SegNode L G × G.Node) (l : List (ℕ × (SegNode L G × G.Node)))
      → size_in (set k n l) j ≡ (if j == k then some (span_of L G n).1 else size_in l j)
  size_in-set j k n l = ap size_of (lookup-set j k n l) ∙ ground arith

  -- the state without the span (va, sz)
  pub record Removed (m : FreeList L G) (va sz : ℕ) (m1 : FreeList L G) : Type 0 where
    pub sizes : (j : ℕ) → size_at m1 j ≡ (if j == va then none else size_at m j)
    pub ends : (j : ℕ) → lookup j m1.acod ≡ (if j == va + sz then none else lookup j m.acod)
    pub lists : length m1.segs ≡ length m.segs

  abbrev taken : SegNode L G × G.Node → ℕ → FreeList L G → FreeList L G
  taken n va m = record (unlink L G n.0 n.1 (record m { adns = delete va m.adns })) {
    acod = delete (va + (span_of L G n).1) m.acod;
  }

  remove_in-taken :
      (va : ℕ) (m : FreeList L G) (n : SegNode L G × G.Node)
      → lookup va m.adns ≡ some n
      → lookup (va + (span_of L G n).1) m.acod ≡ some va
      → and_then (remove_core L G va m) (λ s m1. without_end L G (va + s) s m1)
        ≡ answer (span_of L G n).1 (taken n va m)
  unfolding remove_core
  remove_in-taken va m n there end = rw (remove_core, there) (rw (without_end, end) refl)

  taken-Removed :
      (m : FreeList L G) (va sz : ℕ) (n : SegNode L G × G.Node)
      → (span_of L G n).1 ≡ sz
      → (minv : Option ℕ) → Removed m va sz (taken n va (record m { minv = minv }))
  taken-Removed m va sz n same minv = record {
    sizes = λ j. size_in-delete j va m.adns;
    ends = λ j. rw (← same) (lookup-delete j (va + (span_of L G n).1) m.acod);
    lists = length-update n.0.list (L.remove n.0.node) m.segs;
  }

  pub remove_intcoal-Removed :
      (m : FreeList L G)
      → Valid m
      → (va sz : ℕ) → size_at m va ≡ some sz
      → (m1 : FreeList L G) × (remove_intcoal L G va m ≡ answer sz m1) × Removed m va sz m1
  unfolding remove_intcoal remove_common remove_core
  remove_intcoal-Removed m V va sz h = elim (Option-cases (lookup va m.adns)) [
    | inl absent ↦ absurd (ground (arith, absent))
    | inr (n, there) ↦
        let same : (span_of L G n).1 ≡ sz = ground (arith, there) in
        let end : lookup (va + (span_of L G n).1) m.acod ≡ some va = rw same (V.sized va sz h).1 in
        let remove_in : FreeList L G → Answer (FreeList L G) ℕ =
          λ m0. and_then (remove_core L G va m0) (λ s m1. without_end L G (va + s) s m1) in
        elim (Bool-cases (is_minimum L G va m.minv)) [
          | inl low ↦ (
            taken n va (record m { minv = least (keys m.adns) }),
            ap remove_in (rw low refl)
                ∙ remove_in-taken va (record m { minv = least (keys m.adns) }) n there end
                ∙ ap (λ s. answer s (taken n va (record m { minv = least (keys m.adns) }))) same,
            taken-Removed m va sz n same (least (keys m.adns)),
          )
          | inr high ↦ (
            taken n va m,
            ap remove_in (rw high refl)
                ∙ remove_in-taken va m n there end
                ∙ ap (λ s. answer s (taken n va m)) same,
            taken-Removed m va sz n same m.minv,
          )
        ]
  ]

  pub Removed-Valid :
      (m : FreeList L G) (va sz : ℕ) (m1 : FreeList L G)
      → size_at m va ≡ some sz
      → Valid m
      → Removed m va sz m1
      → Valid m1
  Removed-Valid m va sz m1 h V R = record {
    sized = λ a s e.
        let (ne, e') = found a va (size_at m a) s (sym (R.sizes a) ∙ e) in
        let (pos, end) = V.sized a s e' in
        let away : (a + s ≡ va + sz) → ⊥ =
          λ q. ground (arith, V.apart a s va sz e' h, V.apart va sz a s h e') in
        (pos, R.ends (a + s) ∙ other_key (a + s) (va + sz) (lookup (a + s) m.acod) none away ∙ end);
    ended = λ e a i.
        let (ne, i') = found e (va + sz) (lookup e m.acod) a (sym (R.ends e) ∙ i) in
        let (s, f, g) = V.ended e a i' in
        let away : (a ≡ va) → ⊥ = λ q. ground (arith, h, f) in
        (s, R.sizes a ∙ other_key a va (size_at m a) none away ∙ f, g);
    apart = λ a s b t e f lt.
        V.apart a s b t (found a va (size_at m a) s (sym (R.sizes a) ∙ e)).1
          (found b va (size_at m b) t (sym (R.sizes b) ∙ f)).1 lt;
  }
