-- ===== src/SortedDict/Items.antt =====
-- Lists of (key, value) pairs in the order of their keys: what `SortedDict.items()` shows.
use native.Mathlib.Nat.{suc-add}
use memory_alloc_analysis.Prelude.{
  ℕ, zero, suc, ◌+◌, ◌<◌, ◌≤◌, ◌≡◌, refl, ap, Option, none, some, List, [], ◌∷◌, ◌++◌, arith, ltb,
  ◌==◌, leb, if◌then◌else◌, length, get_elem?,
}

module _ {V : Type 0} where
  -- `d[k]`
  abbrev pub lookup : ℕ → List (ℕ × V) → Option V
  lookup k [] = none
  lookup k ((j, x) ∷ l) = if j == k then some x else lookup k l

  -- `d[k] = x`
  abbrev pub insert : ℕ → V → List (ℕ × V) → List (ℕ × V)
  insert k x [] = (k, x) ∷ []
  insert k x ((j, y) ∷ l) =
      if ltb j k then (j, y) ∷ insert k x l else if j == k then (k, x) ∷ l else (k, x) ∷ (j, y) ∷ l

  -- `del d[k]`
  abbrev pub erase : ℕ → List (ℕ × V) → List (ℕ × V)
  erase k [] = []
  erase k ((j, y) ∷ l) = if j == k then l else (j, y) ∷ erase k l

  -- `del d.iloc[i]`
  abbrev pub erase_at : ℕ → List (ℕ × V) → List (ℕ × V)
  erase_at i [] = []
  erase_at zero (c ∷ l) = l
  erase_at (suc i) (c ∷ l) = c ∷ erase_at i l

  -- how many keys stand left of `k`
  abbrev pub bisect_left : ℕ → List (ℕ × V) → ℕ
  bisect_left k [] = 0
  bisect_left k ((j, y) ∷ l) = if ltb j k then suc (bisect_left k l) else 0

  -- how many keys are at most `k`
  abbrev pub bisect_right : ℕ → List (ℕ × V) → ℕ
  bisect_right k [] = 0
  bisect_right k ((j, y) ∷ l) = if leb j k then suc (bisect_right k l) else 0

  -- the keys strictly between `lo` and `hi`
  abbrev pub between : ℕ → ℕ → List (ℕ × V) → List ℕ
  between lo hi [] = []
  between lo hi ((j, y) ∷ l) =
      if ltb lo j
      then (if ltb j hi then j ∷ between lo hi l else between lo hi l)
      else between lo hi l

  abbrev pub Below : ℕ → List (ℕ × V) → Type 0
  Below k [] = Unit
  Below k ((j, y) ∷ l) = (j < k) × Below k l

  abbrev pub Above : ℕ → List (ℕ × V) → Type 0
  Above k [] = Unit
  Above k ((j, y) ∷ l) = k < j

  pub Below-le : (j k : ℕ) (l : List (ℕ × V)) → j ≤ k → Below j l → Below k l
  Below-le j k [] h b = tt
  Below-le j k ((i, y) ∷ l) h b = (omega arith, Below-le j k l h b.1)

  pub Below-append : (k : ℕ) (l r : List (ℕ × V)) → Below k l → Below k r → Below k (l ++ r)
  Below-append k [] r hl hr = hr
  Below-append k ((i, y) ∷ l) r hl hr = (hl.0, Below-append k l r hl.1 hr)

  module _ (k : ℕ) where
    pub lookup-append :
        (pre post : List (ℕ × V)) → Below k pre → lookup k (pre ++ post) ≡ lookup k post
    lookup-append [] post h = refl
    lookup-append ((j, y) ∷ pre) post h = ground (arith, lookup-append pre post)

    pub insert-append :
        (x : V) (pre post : List (ℕ × V))
        → Below k pre
        → insert k x (pre ++ post) ≡ pre ++ insert k x post
    insert-append x [] post h = refl
    insert-append x ((j, y) ∷ pre) post h = ground (arith, insert-append x pre post)

    pub erase-append :
        (pre post : List (ℕ × V)) → Below k pre → erase k (pre ++ post) ≡ pre ++ erase k post
    erase-append [] post h = refl
    erase-append ((j, y) ∷ pre) post h = ground (arith, erase-append pre post)

    pub bisect_left-append :
        (pre post : List (ℕ × V))
        → Below k pre
        → bisect_left k (pre ++ post) ≡ length pre + bisect_left k post
    bisect_left-append [] post h = omega arith
    bisect_left-append ((j, y) ∷ pre) post h = ground (arith, bisect_left-append pre post)

    pub bisect_right-append :
        (pre post : List (ℕ × V))
        → Below k pre
        → bisect_right k (pre ++ post) ≡ length pre + bisect_right k post
    bisect_right-append [] post h = omega arith
    bisect_right-append ((j, y) ∷ pre) post h = ground (arith, bisect_right-append pre post)

  pub get_elem?-append :
      (pre post : List (ℕ × V)) (i : ℕ)
      → get_elem? (pre ++ post) (length pre + i) ≡ get_elem? post i
  get_elem?-append [] post i = ground arith
  get_elem?-append (c ∷ pre) post i = rw suc-add (get_elem?-append pre post i)

  pub erase_at-append :
      (pre post : List (ℕ × V)) (i : ℕ)
      → erase_at (length pre + i) (pre ++ post) ≡ pre ++ erase_at i post
  erase_at-append [] post i = ground arith
  erase_at-append (c ∷ pre) post i = rw suc-add (ap (◌∷◌ c) (erase_at-append pre post i))
