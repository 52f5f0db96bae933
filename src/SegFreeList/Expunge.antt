-- ===== src/SegFreeList/Expunge.antt =====
-- `expunge`: the spans of a range leave the free list.
use memory_alloc_analysis.Prelude.{
  ℕ, ◌+◌, Bool, ◌&&◌, none, some, List, [], ◌∷◌, ltb, leb, ◌==◌, if◌then◌else◌, Result, ok, err,
  Answer, answer, failure, key_error, assertion_error,
}
use memory_alloc_analysis.SortedDict.Items.{lookup}
use memory_alloc_analysis.SegFreeList.Dict.{delete, keys, least}
use memory_alloc_analysis.SegFreeList.Defs.{Dllist, FreeList, SegNode, span_of, unlink}

abbrev pub cons_ok : {A : Type 0} → A → Result (List A) → Result (List A)
cons_ok x (ok l) = ok (x ∷ l)
cons_ok x (err e) = err e

-- for k in l: del d[k]
abbrev pub delete_all : {V : Type 0} → List ℕ → List (ℕ × V) → List (ℕ × V)
delete_all [] d = d
delete_all (k ∷ l) d = delete_all l (delete k d)

-- vabase <= va < vabase + sz
abbrev pub in_range : ℕ → ℕ → ℕ → Bool
in_range vabase sz va = leb vabase va && ltb va (vabase + sz)

-- vabase < va <= vabase + sz
abbrev pub end_in_range : ℕ → ℕ → ℕ → Bool
end_in_range vabase sz va = ltb vabase va && leb va (vabase + sz)

-- The first loop of `_expunge_intcoal`: the ends to delete, out of the keys.
unfoldable pub collect_ends : ℕ → ℕ → List (ℕ × ℕ) → List ℕ → Result (List ℕ)
collect_ends vabase sz acod [] = ok []
collect_ends vabase sz acod (va ∷ l) =
    let rest = collect_ends vabase sz acod l in
    if end_in_range vabase sz va
    then elim (lookup va acod) [
      | none ↦ err key_error
      | some start ↦ if in_range vabase sz start then cons_ok va rest else err assertion_error
    ]
    else rest

module _ (L : Dllist (ℕ × ℕ)) (G : Dllist ℕ) where
  -- The first loop of `_expunge_common`: the entries to take out, with their keys.
  unfoldable pub collect :
      ℕ
      → ℕ
      → List (ℕ × (SegNode L G × G.Node))
      → List ℕ
      → Result (List (ℕ × (SegNode L G × G.Node)))
  collect vabase sz adns [] = ok []
  collect vabase sz adns (va ∷ l) =
      let rest = collect vabase sz adns l in
      if in_range vabase sz va
      then elim (lookup va adns) [
        | none ↦ err key_error
        | some n ↦
            if (span_of L G n).0 == va && leb (va + (span_of L G n).1) (vabase + sz)
            then cons_ok (va, n) rest
            else err assertion_error
      ]
      else rest

  -- for n in rmn: n.list.remove(n)
  abbrev pub unlink_all : List (ℕ × (SegNode L G × G.Node)) → FreeList L G → FreeList L G
  unlink_all [] m = m
  unlink_all ((va, n) ∷ l) m = unlink_all l (unlink L G n.0 n.1 m)

  -- for a in rma: del self.adns[a], and the new minimum
  abbrev pub forget_all : List ℕ → FreeList L G → FreeList L G
  forget_all l m =
      let adns = delete_all l m.adns in record m { adns = adns; minv = least (keys adns) }

  unfoldable pub expunge_common : ℕ → ℕ → FreeList L G → Answer (FreeList L G) Unit
  unfolding collect
  expunge_common vabase sz m = elim (collect vabase sz m.adns (keys m.adns)) [
    | ok l ↦ answer tt (forget_all (keys l) (unlink_all l m))
    | err e ↦ failure e m
  ]

  unfoldable pub expunge_intcoal : ℕ → ℕ → FreeList L G → Answer (FreeList L G) Unit
  unfolding collect_ends expunge_common
  expunge_intcoal vabase sz m = elim (collect_ends vabase sz m.acod (keys m.acod)) [
    | ok l ↦ expunge_common vabase sz (record m { acod = delete_all l m.acod })
    | err e ↦ failure e m
  ]
