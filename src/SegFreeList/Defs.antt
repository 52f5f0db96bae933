-- ===== src/SegFreeList/Defs.antt =====
-- The state and the methods of `SegFreeListBase`, with the size classes of `SegFreeList`.
use memory_alloc_analysis.Prelude.{
  ℕ, zero, suc, ◌+◌, ◌≡◌, Bool, false, ◌||◌, Option, none, some, List, [], ◌∷◌, ◌++◌, ltb, leb,
  ◌==◌, if◌then◌else◌, min, Result, ok, err, Answer, answer, failure, and_then, key_error,
  get_elem?, All,
}
use memory_alloc_analysis.SortedDict.Items.{lookup}
use memory_alloc_analysis.SegFreeList.Dict.{delete, set, keys, least}

-- The interface of pyllist.dllist: `insert` appends when it is given no node to stand before.
pub record Dllist (A : Type 0) : Type 1 where
  pub Dll : Type 0
  pub Node : Type 0
  pub empty : Dll
  pub insert : A → Dll → Node × Dll
  pub appendleft : A → Dll → Node × Dll
  pub remove : Node → Dll → Dll
  pub node_value : Node → A
  -- list(d)
  pub values : Dll → List A
  pub values-empty : values empty ≡ []
  pub insert_value : (x : A) (d : Dll) → node_value (insert x d).0 ≡ x
  pub values-insert : (x : A) (d : Dll) → values (insert x d).1 ≡ values d ++ (x ∷ [])
  pub appendleft_value : (x : A) (d : Dll) → node_value (appendleft x d).0 ≡ x
  pub values-appendleft : (x : A) (d : Dll) → values (appendleft x d).1 ≡ x ∷ values d
  pub values-remove :
      (P : A → Type 0) (n : Node) (d : Dll) → All P (values d) → All P (values (remove n d))

-- SegFreeList._segix
unfoldable pub segix : ℕ → ℕ
segix sz =
    if ltb sz 32
    then 0
    else if ltb sz 64
    then 1
    else if ltb sz 128
    then 2
    else if ltb sz 256
    then 3
    else if ltb sz 512
    then 4
    else if ltb sz 1024
    then 5
    else 6

abbrev pub update : {A : Type 0} → ℕ → (A → A) → List A → List A
update i f [] = []
update zero f (x ∷ l) = f x ∷ l
update (suc i) f (x ∷ l) = x ∷ update i f l

-- The loops of `iterfor`: over the list of the request's own class, and over the later ones.
unfoldable pub own_class : ℕ → ℕ → List (ℕ × ℕ) → List (ℕ × ℕ)
own_class minsz movh [] = []
own_class minsz movh (x ∷ l) =
    if x.1 == minsz || leb movh x.1 then x ∷ own_class minsz movh l else own_class minsz movh l

unfoldable pub later_class : ℕ → List (ℕ × ℕ) → List (ℕ × ℕ)
later_class movh [] = []
later_class movh (x ∷ l) = if leb movh x.1 then x ∷ later_class movh l else later_class movh l

module _ (L : Dllist (ℕ × ℕ)) (G : Dllist ℕ) where
  -- A node of a list in `segs`: `list` is the index of `sdn.list`.
  pub record SegNode : Type 0 where
    pub list : ℕ
    pub node : L.Node

  -- `acod` has the start of the free span by its end, as with internal coalescing.
  pub record FreeList : Type 0 where
    pub segs : List L.Dll
    pub glru : G.Dll
    pub adns : List (ℕ × (SegNode × G.Node))
    pub minv : Option ℕ
    pub acod : List (ℕ × ℕ)

  -- __init__ without `extcoal`, and the seven lists of `SegFreeList`
  unfoldable pub init : FreeList
  init = record {
    segs = L.empty ∷ L.empty ∷ L.empty ∷ L.empty ∷ L.empty ∷ L.empty ∷ L.empty ∷ [];
    glru = G.empty;
    adns = [];
    minv = none;
    acod = [];
  }

  -- `sdn.list.remove(sdn)` and `self.glru.remove(gdn)`
  abbrev pub unlink : SegNode → G.Node → FreeList → FreeList
  unlink sdn gdn m = record m {
    segs = update sdn.list (L.remove sdn.node) m.segs;
    glru = G.remove gdn m.glru;
  }

  unfoldable pub remove_core : ℕ → FreeList → Answer FreeList ℕ
  remove_core va m = elim (lookup va m.adns) [
    | none ↦ failure key_error m
    | some n ↦
        answer (L.node_value n.0.node).1 (unlink n.0 n.1 (record m { adns = delete va m.adns }))
  ]

  abbrev pub is_minimum : ℕ → Option ℕ → Bool
  is_minimum va none = false
  is_minimum va (some k) = va == k

  unfoldable pub remove_common : ℕ → FreeList → Answer FreeList ℕ
  unfolding remove_core
  remove_common va m =
      remove_core va (if is_minimum va m.minv then record m { minv = least (keys m.adns) } else m)

  -- del self.acod[k], and what follows
  abbrev pub without_end : {A : Type 0} → ℕ → A → FreeList → Answer FreeList A
  without_end k a m = elim (lookup k m.acod) [
    | none ↦ failure key_error m
    | some x ↦ answer a (record m { acod = delete k m.acod })
  ]

  unfoldable pub remove_intcoal : ℕ → FreeList → Answer FreeList ℕ
  unfolding remove_common
  remove_intcoal va m = and_then (remove_common va m) (λ sz m1. without_end (va + sz) sz m1)

  -- minv = va if minv is None else min(minv, va)
  abbrev pub lower : ℕ → Option ℕ → Option ℕ
  lower va none = some va
  lower va (some k) = some (min k va)

  -- The node that a list makes for a new entry. `segix` is below 7 and there are seven lists, so that
  -- an index out of range does not come up.
  abbrev pub new_node : Bool → ℕ × ℕ → L.Dll → L.Node × L.Dll
  new_node front x d = if front then L.appendleft x d else L.insert x d

  abbrev pub seg_at : ℕ → List L.Dll → L.Dll
  seg_at i l = elim (get_elem? l i) [ none ↦ L.empty | some d ↦ d ]

  unfoldable pub insert_core : ℕ → ℕ → Bool → FreeList → FreeList
  unfolding segix
  insert_core va sz front m =
      let (gdn, glru) = G.insert va m.glru in
      let i = segix sz in
      let (node, seg) = new_node front (va, sz) (seg_at i m.segs) in
      record m {
        segs = update i (λ _. seg) m.segs;
        glru = glru;
        adns = set va (record { list = i; node = node }, gdn) m.adns;
        minv = lower va m.minv;
      }

  -- the last two lines of `_insert_intcoal`
  unfoldable pub insert_end : ℕ → ℕ → Bool → FreeList → Answer FreeList Unit
  unfolding insert_core
  insert_end va sz front m =
      let m1 = insert_core va sz front m in
      answer tt (record m1 { acod = set (va + sz) va m1.acod })

  -- the part of `_insert_intcoal` after the span on the right was taken in
  unfoldable pub insert_left : ℕ → ℕ → Bool → FreeList → Answer FreeList Unit
  unfolding remove_intcoal insert_end
  insert_left va sz front m = elim (lookup va m.acod) [
    | none ↦ insert_end va sz front m
    | some lsva ↦ and_then (remove_intcoal lsva m) (λ szl m1. insert_end lsva (sz + szl) front m1)
  ]

  unfoldable pub insert_intcoal : ℕ → ℕ → Bool → FreeList → Answer FreeList Unit
  unfolding remove_intcoal insert_left
  insert_intcoal va sz front m = elim (lookup (va + sz) m.adns) [
    | none ↦ insert_left va sz front m
    | some radn ↦
        and_then (remove_intcoal (va + sz) m) (λ szr m1. insert_left va (sz + szr) front m1)
  ]

  -- the span of an entry of the index
  abbrev pub span_of : SegNode × G.Node → ℕ × ℕ
  span_of n = L.node_value n.0.node

  unfoldable pub peek : FreeList → ℕ → Result ℕ
  peek m va = elim (lookup va m.adns) [ none ↦ err key_error | some n ↦ ok (span_of n).1 ]

  unfoldable pub minva : FreeList → Option ℕ
  minva m = m.minv

  unfoldable pub later_classes : ℕ → List L.Dll → List (ℕ × ℕ)
  unfolding later_class
  later_classes movh [] = []
  later_classes movh (d ∷ l) = later_class movh (L.values d) ++ later_classes movh l

  -- from the list at index i on
  unfoldable pub from_class : ℕ → ℕ → ℕ → List L.Dll → List (ℕ × ℕ)
  unfolding own_class later_classes
  from_class i minsz movh [] = []
  from_class zero minsz movh (d ∷ l) = own_class minsz movh (L.values d) ++ later_classes movh l
  from_class (suc i) minsz movh (d ∷ l) = from_class i minsz movh l

  unfoldable pub iterfor : FreeList → ℕ → ℕ → List (ℕ × ℕ)
  unfolding from_class segix
  iterfor m minsz ovh = from_class (segix minsz) minsz (minsz + ovh) m.segs
