-- ===== src/IntervalMap/Interface.antt =====
-- What the users of `IntervalMap` rely on: its methods and what they promise.
use memory_alloc_analysis.Prelude.{
  ℕ, ◌+◌, ◌-◌, ◌≤◌, ◌<◌, ◌≡◌, ◌≢◌, Bool, true, false, ◌&&◌, Option, some, List, [], if◌then◌else◌,
  leb, ltb, Result, ok, Outcome, done, arith, ok-eq, subst, sym, ◌∙◌,
}
use memory_alloc_analysis.IntervalMap.Defs.{Span}
use memory_alloc_analysis.IntervalMap.Slices.{Run}
use memory_alloc_analysis.IntervalMap.Counts.{count, count_changed, count_in, count_out}

pub record ValueMap (V : Type 0) : Type 1 where
  pub Map : Type 0
  -- the points of the map are the numbers from base to below limit
  pub base : ℕ
  pub limit : ℕ
  -- m[x], m.get(x, coalesce_with_values=vs) and m[lo:hi]
  pub get_item : ℕ → Map → Result (Span V)
  pub get_with : ℕ → List V → Map → Result (Span V)
  pub get_slice : ℕ → ℕ → Map → Result (List (Span V))
  -- the spans of m.iter_vfilter(None, hi, vs)
  pub runs : ℕ → List V → Map → Result (List (Span V))
  pub mark : ℕ → ℕ → V → Map → Outcome Map
  pub IsValid : Map → Type 0
  pub at : Map → ℕ → Option V
  pub get_item-at :
      (m : Map) (x : ℕ)
      → IsValid m
      → base ≤ x
      → x < limit
      → (k s : ℕ) × (w : V) × (get_item x m ≡ ok (k, s, w))
        × (k ≤ x)
        × (x < k + s)
        × ((y : ℕ) → k ≤ y → y < k + s → at m y ≡ some w)
  pub get_item_edges :
      (m : Map) (x k s : ℕ) (w : V)
      → IsValid m
      → base ≤ x
      → x < limit
      → get_item x m ≡ ok (k, s, w)
      → ((y : ℕ) → y + 1 ≡ k → at m y ≢ some w) × (at m (k + s) ≢ some w)
  pub at_inside : (m : Map) (x : ℕ) (w : V) → IsValid m → at m x ≡ some w → (base ≤ x) × (x < limit)
  -- without a value to coalesce, `get` is the indexing
  pub get_with_none : (m : Map) (x : ℕ) → get_with x [] m ≡ get_item x m
  pub get_slice-at :
      (m : Map) (lo hi : ℕ)
      → IsValid m
      → base ≤ lo
      → lo < hi
      → hi ≤ limit
      → (qs : List (Span V)) × (get_slice lo hi m ≡ ok qs) × Run (at m) lo hi qs
  pub mark-at :
      (m : Map) (loc sz : ℕ) (v : V)
      → IsValid m
      → base ≤ loc
      → 0 < sz
      → loc + sz ≤ limit
      → (m' : Map) × (mark loc sz v m ≡ done m')
        × IsValid m'
        × ((x : ℕ) → at m' x ≡ (if leb loc x && ltb x (loc + sz) then some v else at m x))

module _ {V : Type 0} (M : ValueMap V) where
  open M use {Map, base, limit, at}

  -- the number of points whose value has p
  abbrev pub total : (V → Bool) → Map → ℕ
  total p m = count p (at m) base (limit - base)

  module _ (m m' : Map) (v : V) (lo k : ℕ) (from : base ≤ lo) (fits : lo + k ≤ limit)
      (changed : (x : ℕ) → at m' x ≡ (if leb lo x && ltb x (lo + k) then some v else at m x)) where
    -- a mark changes a number by what it marks and what was there
    pub total_in : (p : V → Bool) → p v ≡ true → total p m' + count p (at m) lo k ≡ total p m + k
    total_in p h = omega (
      arith,
      count_changed p (at m) (at m') v base (limit - base) lo k from (omega arith) changed,
      count_in p (at m) (at m') v base (limit - base) lo k from (omega arith) changed h,
    )

    pub total_out : (p : V → Bool) → p v ≡ false → total p m' + count p (at m) lo k ≡ total p m
    total_out p h = omega (
      arith,
      count_changed p (at m) (at m') v base (limit - base) lo k from (omega arith) changed,
      count_out p (at m) (at m') v base (limit - base) lo k from (omega arith) changed h,
    )

  -- a span of the map lies in it
  pub span_inside :
      (m : Map) (k s x : ℕ) (w : V)
      → M.IsValid m
      → k ≤ x
      → x < k + s
      → ((y : ℕ) → k ≤ y → y < k + s → at m y ≡ some w)
      → (base ≤ k) × (k + s ≤ limit)
  span_inside m k s x w valid from until all =
      let first = M.at_inside m k w valid (all k (omega arith) (omega arith)) in
      let final = M.at_inside m (k + s - 1) w valid (all (k + s - 1) (omega arith) (omega arith)) in
      (first.0, omega (arith, final.1))

  -- what a span is that indexing returned
  pub get_item_facts :
      (m : Map) (x k s : ℕ) (w : V)
      → M.IsValid m
      → base ≤ x
      → x < limit
      → M.get_item x m ≡ ok (k, s, w)
      → (k ≤ x) × (x < k + s) × ((y : ℕ) → k ≤ y → y < k + s → at m y ≡ some w)
  get_item_facts m x k s w valid from to is =
      let (j, t, u, is', le, past, all) = M.get_item-at m x valid from to in
      subst
        (λ (q : ℕ × ℕ × V).
          (q.0 ≤ x) × (x < q.0 + q.1) × ((y : ℕ) → q.0 ≤ y → y < q.0 + q.1 → at m y ≡ some q.2))
        (ok-eq (sym is' ∙ is)) (le, past, all)
