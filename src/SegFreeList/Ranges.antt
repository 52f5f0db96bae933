-- ===== src/SegFreeList/Ranges.antt =====
-- The keys that the first loops of `expunge` collect, and a dict without them.
use memory_alloc_analysis.Prelude.{
  ℕ, ◌≡◌, refl, Bool, true, false, ◌&&◌, ◌||◌, none, some, List, [], ◌∷◌, ◌==◌, if◌then◌else◌, ok,
  arith, inl, inr, Bool-cases, ℕ_discrete,
}
use memory_alloc_analysis.SortedDict.Items.{lookup}
use memory_alloc_analysis.SegFreeList.Dict.{delete, keys, lookup-delete}
use memory_alloc_analysis.SegFreeList.Expunge.{delete_all, in_range, end_in_range, collect_ends}

abbrev pub member : ℕ → List ℕ → Bool
member j [] = false
member j (k ∷ l) = k == j || member j l

module _ {V : Type 0} where
  lookup-delete_all :
      (j : ℕ) (l : List ℕ) (d : List (ℕ × V))
      → lookup j (delete_all l d) ≡ (if member j l then none else lookup j d)
  lookup-delete_all j [] d = refl
  lookup-delete_all j (k ∷ l) d =
      ground (arith, lookup-delete_all j l (delete k d), lookup-delete j k d)

  keys-absent : (j : ℕ) (d : List (ℕ × V)) → member j (keys d) ≡ false → lookup j d ≡ none
  keys-absent j [] h = refl
  keys-absent j ((k, x) ∷ d) h = ground (arith, keys-absent j d)

  pub keys-present :
      (j : ℕ) (d : List (ℕ × V)) → member j (keys d) ≡ true → (x : V) × (lookup j d ≡ some x)
  keys-present j [] h = absurd (ground arith)
  keys-present j ((k, x) ∷ d) h = elim (ℕ_discrete k j) [
    | yes e ↦ (x, ground arith)
    | no e ↦ let (y, is) = keys-present j d (ground arith) in (y, ground arith)
  ]

  -- the keys of a range out of all keys
  pub cleared :
      (j : ℕ) (b : Bool) (l : List ℕ) (d : List (ℕ × V))
      → member j l ≡ (b && member j (keys d))
      → lookup j (delete_all l d) ≡ (if b then none else lookup j d)
  cleared j b l d h = elim (Bool-cases (member j (keys d))) [
    | inl yes_ ↦ ground (arith, lookup-delete_all j l d)
    | inr no_ ↦ ground (arith, lookup-delete_all j l d, keys-absent j d)
  ]

module _ (base sz : ℕ) where
  pub collect_ends-ok :
      (acod : List (ℕ × ℕ)) (l : List ℕ)
      → ((k : ℕ) → member k l ≡ true → (x : ℕ) × (lookup k acod ≡ some x))
      → ((k x : ℕ)
          → end_in_range base sz k ≡ true
          → lookup k acod ≡ some x
          → in_range base sz x ≡ true)
      → (r : List ℕ) × (collect_ends base sz acod l ≡ ok r)
        × ((j : ℕ) → member j r ≡ (end_in_range base sz j && member j l))
  unfolding collect_ends
  collect_ends-ok acod [] h g = ([], refl, λ j. ground arith)
  collect_ends-ok acod (k ∷ l) h g =
      let (r, is, m) = collect_ends-ok acod l (λ j i. h j (ground arith)) g in
      elim (Bool-cases (end_in_range base sz k)) [
        | inl yes_ ↦
            let (x, there) = h k (ground arith) in
            (
              k ∷ r,
              rw (collect_ends, yes_, there, g k x yes_ there, is) refl,
              λ j. ground (arith, m j),
            )
        | inr no_ ↦ (r, rw (collect_ends, no_) is, λ j. ground (arith, m j))
      ]
