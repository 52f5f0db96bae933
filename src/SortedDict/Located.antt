-- ===== src/SortedDict/Located.antt =====
-- The operations of a `SortedDict` at a known place of its items: `pre` holds the smaller keys.
use native.Mathlib.Nat.{add-zero}
use memory_alloc_analysis.Prelude.{
  ℕ, ◌+◌, ◌<◌, ◌≡◌, refl, ap, ◌∙◌, some, List, [], ◌∷◌, ◌++◌, arith, length, get_elem?,
}
use memory_alloc_analysis.SortedDict.Items.{
  lookup, insert, erase, erase_at, bisect_left, Below, Above, Below-le, lookup-append,
  insert-append, erase-append, bisect_left-append, get_elem?-append, erase_at-append,
}
use memory_alloc_analysis.SortedDict.Defs.{SortedDict}

module _ {V : Type 0} (k : ℕ) (x y : V) (post : List (ℕ × V)) where
  lookup_head : lookup k ((k, x) ∷ post) ≡ some x
  lookup_head = ground arith

  insert_head : insert k y ((k, x) ∷ post) ≡ (k, y) ∷ post
  insert_head = ground arith

  erase_head : erase k ((k, x) ∷ post) ≡ post
  erase_head = ground arith

  bisect_left_head : bisect_left k ((k, x) ∷ post) ≡ 0
  bisect_left_head = ground arith

insert-Above :
    {V : Type 0} (k : ℕ) (x : V) (post : List (ℕ × V))
    → Above k post
    → insert k x post ≡ (k, x) ∷ post
insert-Above k x [] h = refl
insert-Above k x ((j, y) ∷ post) h = ground arith

insert_second :
    {V : Type 0} (k : ℕ) (x : V) (j : ℕ) (y : V) (post : List (ℕ × V))
    → j < k
    → Above k post
    → insert k x ((j, y) ∷ post) ≡ (j, y) ∷ (k, x) ∷ post
insert_second k x j y post lt a = rw (insert-Above k x post a) (ground arith)

module _ {ℓ} {A : Type ℓ} (c : A) (post : List A) where
  get_elem?-length : (pre : List A) → get_elem? (pre ++ c ∷ post) (length pre) ≡ some c
  get_elem?-length [] = refl
  get_elem?-length (b ∷ pre) = get_elem?-length pre

erase_at-length :
    {V : Type 0} (c : ℕ × V) (post pre : List (ℕ × V))
    → erase_at (length pre) (pre ++ c ∷ post) ≡ pre ++ post
erase_at-length c post [] = refl
erase_at-length c post (b ∷ pre) = ap (◌∷◌ b) (erase_at-length c post pre)

module _ {V : Type 0} (S : SortedDict V) where
  open S use {Dict, items, get, put, del, del_at, left, key_at}

  module _ (d : Dict) (k : ℕ) (x : V) (pre post : List (ℕ × V))
      (e : items d ≡ pre ++ (k, x) ∷ post) where
    pub get_here : Below k pre → get d k ≡ some x
    get_here h = S.get-items d k ∙ rw (e, lookup-append k pre _ h) (lookup_head k x x post)

    pub put_here : (y : V) → Below k pre → items (put d k y) ≡ pre ++ (k, y) ∷ post
    put_here y h =
        S.items-put d k y
        ∙ rw (e, insert-append k y pre _ h) (ap (◌++◌ pre) (insert_head k x y post))

    pub del_here : Below k pre → items (del d k) ≡ pre ++ post
    del_here h =
        S.items-del d k ∙ rw (e, erase-append k pre _ h) (ap (◌++◌ pre) (erase_head k x x post))

    pub left_here : Below k pre → left d k ≡ length pre
    left_here h =
        S.left-items d k
        ∙ rw (e, bisect_left-append k pre _ h) (rw (bisect_left_head k x x post) (add-zero _))

    pub key_at_here : (i : ℕ) → i ≡ length pre → key_at d i ≡ some k
    key_at_here i h = S.key_at-items d i ∙ rw (h, e, get_elem?-length (k, x) post pre)

    pub del_at_here : (i : ℕ) → i ≡ length pre → items (del_at d i) ≡ pre ++ post
    del_at_here i h = S.items-del_at d i ∙ rw (h, e) (erase_at-length (k, x) post pre)

  module _ (d : Dict) (pre post : List (ℕ × V)) (e : items d ≡ pre ++ post) where
    pub put_new :
        (k : ℕ) (x : V) → Below k pre → Above k post → items (put d k x) ≡ pre ++ (k, x) ∷ post
    put_new k x h a =
        S.items-put d k x
        ∙ rw (e, insert-append k x pre _ h) (ap (◌++◌ pre) (insert-Above k x post a))

  module _ (d : Dict) (c : ℕ × V) (k : ℕ) (x : V) (pre post : List (ℕ × V))
      (e : items d ≡ pre ++ c ∷ (k, x) ∷ post) where
    pub key_at_next : (i : ℕ) → i ≡ length pre → key_at d (i + 1) ≡ some k
    key_at_next i h = S.key_at-items d (i + 1) ∙ rw (h, e, get_elem?-append pre _ 1) refl

    pub del_at_next : (i : ℕ) → i ≡ length pre → items (del_at d (i + 1)) ≡ pre ++ c ∷ post
    del_at_next i h = S.items-del_at d (i + 1) ∙ rw (h, e, erase_at-append pre _ 1) refl

    pub get_next : Below k pre → c.0 < k → get d k ≡ some x
    get_next h lt = S.get-items d k ∙ rw (e, lookup-append k pre _ h) (ground arith)

    pub del_next : Below k pre → c.0 < k → items (del d k) ≡ pre ++ c ∷ post
    del_next h lt = S.items-del d k ∙ rw (e, erase-append k pre _ h) (ap (◌++◌ pre) (ground arith))

  module _ (d : Dict) (j : ℕ) (y : V) (pre post : List (ℕ × V))
      (e : items d ≡ pre ++ (j, y) ∷ post) where
    pub put_after :
        (k : ℕ) (x : V)
        → Below j pre
        → j < k
        → Above k post
        → items (put d k x) ≡ pre ++ (j, y) ∷ (k, x) ∷ post
    put_after k x h lt a =
        S.items-put d k x
        ∙ rw (e, insert-append k x pre _ (Below-le j k pre (omega arith) h))
            (ap (◌++◌ pre) (insert_second k x j y post lt a))
