-- ===== src/SegFreeList/Numbered.antt =====
-- Doubly linked lists as lists of numbered nodes.
use memory_alloc_analysis.Prelude.{
  ℕ, ◌+◌, ◌≡◌, refl, List, [], ◌∷◌, ◌++◌, ◌==◌, if◌then◌else◌, All, Bool-cases, inl, inr, ap,
}
use memory_alloc_analysis.SegFreeList.Defs.{Dllist}

module _ {A : Type 0} where
  abbrev pub contents : List (ℕ × A) → List A
  contents [] = []
  contents ((i, x) ∷ l) = x ∷ contents l

  abbrev pub drop : ℕ → List (ℕ × A) → List (ℕ × A)
  drop k [] = []
  drop k ((i, x) ∷ l) = if i == k then drop k l else (i, x) ∷ drop k l

  pub contents-append :
      (l : List (ℕ × A)) (i : ℕ) (x : A) → contents (l ++ ((i, x) ∷ [])) ≡ contents l ++ (x ∷ [])
  contents-append [] i x = refl
  contents-append ((j, y) ∷ l) i x = ap (◌∷◌ y) (contents-append l i x)

  pub contents-drop :
      (P : A → Type 0) (k : ℕ) (l : List (ℕ × A)) → All P (contents l) → All P (contents (drop k l))
  contents-drop P k [] h = tt
  contents-drop P k ((i, x) ∷ l) h = elim (Bool-cases (i == k)) [
    | inl same ↦ rw same (contents-drop P k l h.1)
    | inr other ↦ rw other (h.0, contents-drop P k l h.1)
  ]

-- the number of the next node, and the numbered entries
abbrev pub dllist : (A : Type 0) → Dllist A
dllist A = record {
  Dll = ℕ × List (ℕ × A);
  Node = ℕ × A;
  empty = (0, []);
  insert = λ x d. ((d.0, x), (d.0 + 1, d.1 ++ ((d.0, x) ∷ [])));
  appendleft = λ x d. ((d.0, x), (d.0 + 1, (d.0, x) ∷ d.1));
  remove = λ n d. (d.0, drop n.0 d.1);
  node_value = λ n. n.1;
  values = λ d. contents d.1;
  values-empty = refl;
  insert_value = λ x d. refl;
  values-insert = λ x d. contents-append d.1 d.0 x;
  appendleft_value = λ x d. refl;
  values-appendleft = λ x d. refl;
  values-remove = λ P n d h. contents-drop P n.0 d.1 h;
}
