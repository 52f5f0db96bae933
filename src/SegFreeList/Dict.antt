-- ===== src/SegFreeList/Dict.antt =====
-- Python's dict as a list of entries; no operation here depends on their order.
use memory_alloc_analysis.Prelude.{
  ℕ, ◌≡◌, Option, none, some, List, [], ◌∷◌, ◌==◌, if◌then◌else◌, arith, min,
}
use memory_alloc_analysis.SortedDict.Items.{lookup}

module _ {V : Type 0} where
  -- del d[k]
  abbrev pub delete : ℕ → List (ℕ × V) → List (ℕ × V)
  delete k [] = []
  delete k ((j, x) ∷ l) = if j == k then delete k l else (j, x) ∷ delete k l

  -- d[k] = x
  abbrev pub set : ℕ → V → List (ℕ × V) → List (ℕ × V)
  set k x l = (k, x) ∷ delete k l

  abbrev pub keys : List (ℕ × V) → List ℕ
  keys [] = []
  keys ((j, x) ∷ l) = j ∷ keys l

  pub lookup-delete :
      (j k : ℕ) (l : List (ℕ × V)) → lookup j (delete k l) ≡ (if j == k then none else lookup j l)
  lookup-delete j k [] = ground arith
  lookup-delete j k ((i, x) ∷ l) = ground (arith, lookup-delete j k l)

  pub lookup-set :
      (j k : ℕ) (x : V) (l : List (ℕ × V))
      → lookup j (set k x l) ≡ (if j == k then some x else lookup j l)
  lookup-set j k x l = ground (arith, lookup-delete j k l)

-- min(l) of a list that may be empty
abbrev pub least : List ℕ → Option ℕ
least [] = none
least (x ∷ l) = elim (least l) [ none ↦ some x | some y ↦ some (min x y) ]
