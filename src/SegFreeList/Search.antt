-- ===== src/SegFreeList/Search.antt =====
-- `iterfor` and the spans that fit a request, over all lists.
use native.Mathlib.Decide.{dec_lt}
use memory_alloc_analysis.Prelude.{
  ℕ, zero, suc, ◌+◌, ◌≤◌, ◌<◌, ◌≡◌, refl, Bool, ◌||◌, List, [], ◌∷◌, ◌++◌, leb, ◌==◌, if◌then◌else◌,
  ap₂, arith, All,
}
use memory_alloc_analysis.SegFreeList.Defs.{
  Dllist, FreeList, segix, own_class, later_class, later_classes, from_class, iterfor,
}

-- the spans of a request: of exactly its size, or larger by `ovh`
abbrev pub fits : ℕ → ℕ → ℕ → Bool
fits minsz movh sz = sz == minsz || leb movh sz

abbrev pub fitting : ℕ → ℕ → List (ℕ × ℕ) → List (ℕ × ℕ)
fitting minsz movh [] = []
fitting minsz movh (x ∷ l) =
    if fits minsz movh x.1 then x ∷ fitting minsz movh l else fitting minsz movh l

segix_mono : (a b : ℕ) → a ≤ b → segix a ≤ segix b
unfolding segix
segix_mono a b h = ground arith

-- a smaller class has smaller sizes
segix_lt : (a b : ℕ) → segix a < segix b → a < b
segix_lt a b h = elim (dec_lt a b) [
  | yes lt ↦ lt
  | no ge ↦ absurd (omega (arith, segix_mono b a (omega arith)))
]

-- every span of a list has that list's class
abbrev pub InClass : ℕ → List (ℕ × ℕ) → Type 0
InClass i = All (λ x. segix x.1 ≡ i)

module _ (minsz movh : ℕ) (le : minsz ≤ movh) where
  own_class-fitting : (l : List (ℕ × ℕ)) → own_class minsz movh l ≡ fitting minsz movh l
  unfolding own_class
  own_class-fitting [] = refl
  own_class-fitting (x ∷ l) = rw (own_class-fitting l) refl

  later_class-fitting :
      (i : ℕ) (l : List (ℕ × ℕ))
      → segix minsz < i
      → InClass i l
      → later_class movh l ≡ fitting minsz movh l
  unfolding later_class
  later_class-fitting i [] h c = refl
  later_class-fitting i (x ∷ l) h c =
      let above : minsz < x.1 = segix_lt minsz x.1 (omega (arith, c.0)) in
      rw (later_class-fitting i l h c.1) (ground arith)

  lower_class-fitting :
      (i : ℕ) (l : List (ℕ × ℕ)) → i < segix minsz → InClass i l → fitting minsz movh l ≡ []
  lower_class-fitting i [] h c = refl
  lower_class-fitting i (x ∷ l) h c =
      let below : x.1 < minsz = segix_lt x.1 minsz (omega (arith, c.0)) in
      rw (lower_class-fitting i l h c.1) (ground arith)

module _ (L : Dllist (ℕ × ℕ)) (G : Dllist ℕ) where
  -- the lists from index i on have the spans of their classes
  abbrev pub Segregated : ℕ → List L.Dll → Type 0
  Segregated i [] = Unit
  Segregated i (d ∷ l) = InClass i (L.values d) × Segregated (suc i) l

  -- all spans, by list and in the order of each list
  abbrev pub all_spans : List L.Dll → List (ℕ × ℕ)
  all_spans [] = []
  all_spans (d ∷ l) = L.values d ++ all_spans l

  module _ (minsz movh : ℕ) (le : minsz ≤ movh) where
    fitting-append :
        (l l' : List (ℕ × ℕ))
        → fitting minsz movh (l ++ l') ≡ fitting minsz movh l ++ fitting minsz movh l'
    fitting-append [] l' = refl
    fitting-append (x ∷ l) l' = ground (arith, fitting-append l l')

    later_classes-fitting :
        (i : ℕ) (l : List L.Dll)
        → segix minsz < i
        → Segregated i l
        → later_classes L G movh l ≡ fitting minsz movh (all_spans l)
    unfolding later_classes
    later_classes-fitting i [] h s = refl
    later_classes-fitting i (d ∷ l) h s = rw (fitting-append (L.values d) (all_spans l)) (
        ap₂ ◌++◌ (later_class-fitting minsz movh le i (L.values d) h s.0)
          (later_classes-fitting (suc i) l (omega arith) s.1))

    from_class-fitting :
        (k i : ℕ) (l : List L.Dll)
        → i + k ≡ segix minsz
        → Segregated i l
        → from_class L G k minsz movh l ≡ fitting minsz movh (all_spans l)
    unfolding from_class
    from_class-fitting k i [] h s = refl
    from_class-fitting zero i (d ∷ l) h s = rw (fitting-append (L.values d) (all_spans l)) (
        ap₂ ◌++◌ (own_class-fitting minsz movh le (L.values d))
          (later_classes-fitting (suc i) l (omega arith) s.1))
    from_class-fitting (suc k) i (d ∷ l) h s =
        rw
          (
            fitting-append (L.values d) (all_spans l),
            lower_class-fitting minsz movh le i (L.values d) (omega arith) s.0,
          )
          (from_class-fitting k (suc i) l (omega arith) s.1)

  -- `iterfor` gives every span that fits, by list and in the order of each list.
  pub iterfor-fitting :
      (m : FreeList L G) (minsz ovh : ℕ)
      → Segregated 0 m.segs
      → iterfor L G m minsz ovh ≡ fitting minsz (minsz + ovh) (all_spans m.segs)
  unfolding iterfor
  iterfor-fitting m minsz ovh s =
      from_class-fitting minsz (minsz + ovh) (omega arith) (segix minsz) 0 m.segs (omega arith) s
