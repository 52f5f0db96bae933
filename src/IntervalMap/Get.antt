-- ===== src/IntervalMap/Get.antt =====
-- The readers of `IntervalMap` that go over several spans: `get`, `iter_vfilter`, `__iter__` and
-- `irange`.
use memory_alloc_analysis.Prelude.{
  ℕ, zero, suc, ◌+◌, ◌-◌, min, Bool, true, false, not, ◌&&◌, ◌||◌, List, [], ◌∷◌, ◌++◌, ltb, ◌==◌,
  if◌then◌else◌, Result, ok, err, ◌>>=◌, value_error, assertion_error, stop_iteration, out_of_fuel,
}
use memory_alloc_analysis.SortedDict.{SortedDict}
use memory_alloc_analysis.IntervalMap.Defs.{Cell, Span, IntervalMap, get_item}

module _ {V : Type 0} (S : SortedDict (Cell V)) (dec : Discrete V) where
  open S use {items, right, irange}

  -- v in vs
  unfoldable pub is_one : V → List V → Bool
  is_one v [] = false
  is_one v (w ∷ vs) = let rest = is_one v vs in elim (dec v w) [ yes _ ↦ true | no _ ↦ rest ]

  -- a set of values, and the value of the span itself where the other set is not empty
  abbrev pub with_self : V → List V → List V → List V
  with_self v vs [] = vs
  with_self v vs (w ∷ ws) = vs ++ (v ∷ w ∷ ws)

  -- (base, sz) so far, and the last of them that ended with a value to coalesce with
  pub record Reach : Type 0 where
    pub base : ℕ
    pub sz : ℕ
    pub backup : ℕ × ℕ

  abbrev pub item_before : IntervalMap S → ℕ → Result (Span V)
  item_before m zero = err value_error
  item_before m (suc n) = get_item S m n

  module _ (m : IntervalMap S) (coalesced allowed : V → Bool) where
    abbrev pub widened : V → ℕ → ℕ → Reach → Reach
    widened w base sz r = record {
      base = base;
      sz = sz;
      backup = if coalesced w then (base, sz) else r.backup;
    }

    -- The loop to the left. Its base goes down in each round, so that the base itself is fuel
    -- enough, and one more.
    unfoldable pub widen_left : ℕ → Reach → Result Reach
    widen_left zero r = err out_of_fuel
    widen_left (suc fuel) r = elim (item_before m r.base) [
      | err value_error ↦ ok r
      | err e ↦ err e
      | ok (basel, _, vl) ↦
          let rest = widen_left fuel (widened vl basel (r.base + r.sz - basel) r) in
          if coalesced vl || allowed vl then rest else ok r
    ]

    -- The loop to the right, from `pos`; the fuel is the distance to the end of the map, and one
    -- more.
    unfoldable pub widen_right : ℕ → ℕ → Reach → Result Reach
    widen_right zero pos r = err out_of_fuel
    widen_right (suc fuel) pos r = elim (get_item S m pos) [
      | err value_error ↦ ok r
      | err e ↦ err e
      | ok (baser, szr, vr) ↦
          let rest = widen_right fuel (baser + szr) (widened vr r.base (baser + szr - r.base) r) in
          if coalesced vr || allowed vr then rest else ok r
    ]

    -- back to the last span to coalesce with, where the outermost span is not one
    unfoldable pub fall_back : ℕ → Reach → Result Reach
    fall_back loc r = do
      q ← get_item S m loc
      ok (
          if not (coalesced q.2) && allowed q.2
          then record r { base = r.backup.0; sz = r.backup.1 }
          else r)

    abbrev pub restart : Reach → Reach
    restart r = record r { backup = (r.base, r.sz) }

    unfoldable pub widen : ℕ → ℕ → V → Result (Span V)
    unfolding widen_left widen_right fall_back
    widen base sz v = do
      l ← widen_left (base + 1) (record { base = base; sz = sz; backup = (base, sz) })
      l' ← fall_back l.base l
      r ← widen_right (m.base + m.sz - (base + sz) + 1) (base + sz) (restart l')
      r' ← fall_back (r.base + r.sz - 1) r
      ok (r'.base, r'.sz, v)

  -- get(loc, coalesce_with_values=.., coalesce_with_self_and_values=.., coalesce_beyond_values=..,
  -- coalesce_beyond_self_and_values=..)
  unfoldable pub get : ℕ → List V → List V → List V → List V → IntervalMap S → Result (Span V)
  unfolding widen is_one
  get loc with_values with_self_and_values beyond_values beyond_self_and_values m = do
    q ← get_item S m loc
    let coalesced = with_self q.2 with_values with_self_and_values
    let allowed = with_self q.2 beyond_values beyond_self_and_values
    elim coalesced [
      | [] ↦ ok q
      | v ∷ vs ↦
          widen m (λ w. is_one w (v ∷ vs)) (λ w. is_one w allowed && not (is_one w (v ∷ vs))) q.0
            q.1 q.2
    ]

  -- the loop of `iter_vfilter`; every round moves the cursor on
  unfoldable pub filter_from : ℕ → ℕ → ℕ → List V → IntervalMap S → Result (List (Span V))
  unfolding get is_one
  filter_from zero cursor end vset m = err out_of_fuel
  filter_from (suc fuel) cursor end vset m = elim (ltb cursor end) [
    | false ↦ ok []
    | true ↦ get_item S m cursor >>= λ q. elim (q.0 == cursor) [
      | false ↦ err assertion_error
      | true ↦ elim (is_one q.2 vset) [
        | false ↦ filter_from fuel (min (cursor + q.1) end) end vset m
        | true ↦ get cursor vset [] [] [] m >>= λ r. elim (r.0 == cursor) [
          | false ↦ err assertion_error
          | true ↦ filter_from fuel (min (cursor + r.1) end) end vset m >>= λ rest.
              ok ((r.0, min (cursor + r.1) end - r.0, r.2) ∷ rest)
        ]
      ]
    ]
  ]

  -- iter_vfilter(None, end, vset)
  unfoldable pub iter_vfilter : ℕ → List V → IntervalMap S → Result (List (Span V))
  unfolding filter_from
  iter_vfilter end vset m = elim (items m.d) [
    | [] ↦ err stop_iteration
    | (loc, _) ∷ _ ↦ filter_from (end - loc + 1) loc end vset m
  ]

  -- __iter__
  unfoldable pub spans_of : List (ℕ × Cell V) → List (Span V)
  spans_of [] = []
  spans_of ((base, (sz, v)) ∷ l) = (base, sz, v) ∷ spans_of l

  unfoldable pub iter : IntervalMap S → List (Span V)
  unfolding spans_of
  iter m = spans_of (items m.d)
