-- ===== src/IntervalMap/Mark.antt =====
-- `mark`, split at its stages. What is written stays written where a later line raises.
use memory_alloc_analysis.Prelude.{
  ℕ, zero, suc, ◌+◌, ◌-◌, Bool, true, false, not, ◌&&◌, ◌||◌, Option, none, some, ◌∷◌, leb, ltb,
  ite, ◌==◌, if◌then◌else◌, Outcome, done, raised, value_error, key_error, index_error,
  assertion_error, out_of_fuel,
}
use memory_alloc_analysis.SortedDict.{SortedDict}
use memory_alloc_analysis.IntervalMap.Defs.{
  ℤ, at_or_above, is_below, Cell, IntervalMap, inside, key_before,
}

module _ {V : Type 0} (S : SortedDict (Cell V)) (dec : Discrete V) where
  open S use {Dict, get, put, del, del_at, left, key_at, len}

  -- `k in d`, from d.get(k)
  abbrev pub is_in : Option (Cell V) → Bool
  is_in none = false
  is_in (some c) = true

  abbrev pub Map : Type 0
  Map = IntervalMap S

  abbrev with_dict : Map → Dict → Map
  with_dict m d = record m { d = d }

  -- self.vcc(vold, vnew, loc, sz)
  abbrev pub vcc : V → V → ℕ → ℕ → Map → Map
  vcc old new loc sz m = record m {
    changes = record { old = old; new = new; at = loc; size = sz } ∷ m.changes;
  }

  -- d[k] = (sz, v)
  abbrev pub assign : ℕ → ℕ → V → Map → Map
  assign k sz v m = with_dict m (put m.d k (sz, v))

  -- k = d.iloc[i]; (sz, v) = d[k]
  abbrev pub with_cell_at : Map → Option ℕ → (ℕ → ℕ → V → Outcome Map) → Outcome Map
  with_cell_at m none f = raised index_error m
  with_cell_at m (some k) f = elim (get m.d k) [ none ↦ raised key_error m | some c ↦ f k c.0 c.1 ]

  -- (sz, v) = d[k]
  abbrev pub with_cell : Map → ℕ → (ℕ → V → Outcome Map) → Outcome Map
  with_cell m k f = elim (get m.d k) [ none ↦ raised key_error m | some c ↦ f c.0 c.1 ]

  -- the block under `if couldcleft and (self._coalescing or recursing)`
  unfoldable pub coalesce_left : ℕ → ℕ → ℕ → V → Bool → ℕ → Map → Outcome Map
  unfolding key_before
  coalesce_left ix loc sz v couldcleft recursing m =
      if couldcleft && (m.coalescing || ltb 0 recursing)
      then with_cell_at m (key_before S m.d ix) (λ kl szl vl.
        ite (dec vl v)
          (done (assign kl (szl + sz) v (with_dict m (del_at (del_at m.d ix) (ix - 1))))) (done m))
      else done m

  -- the block under `if couldcright and self._coalescing`, and what follows
  unfoldable pub coalesce : ℕ → ℕ → ℕ → V → Bool → Bool → ℕ → Map → Outcome Map
  coalesce ix loc sz v couldcleft couldcright recursing m =
      if couldcright && m.coalescing
      then with_cell_at m (key_at m.d (ix + 1)) (λ kr szr vr.
        ite (dec vr v)
          (coalesce_left ix loc (sz + szr) v couldcleft recursing
            (assign loc (sz + szr) v (with_dict m (del_at (del_at m.d (ix + 1)) ix))))
          (coalesce_left ix loc sz v couldcleft recursing m))
      else coalesce_left ix loc sz v couldcleft recursing m

  -- The loop `while szex < sz`, on fuel. `k` is what follows it, at the last `szex`.
  unfoldable pub absorb : ℕ → ℕ → ℕ → ℕ → V → (ℕ → Map → Outcome Map) → Map → Outcome Map
  absorb zero loc szex sz v k m = raised out_of_fuel m
  absorb (suc fuel) loc szex sz v k m =
      if ltb szex sz
      then with_cell m (loc + szex) (λ sznext vnext.
        let next = absorb fuel loc (szex + sznext) sz v k (
          assign loc (szex + sznext) v
            (vcc vnext v (loc + szex) sznext (with_dict m (del m.d (loc + szex))))) in
        if leb sznext (sz - szex) then next else k szex m)
      else if szex == sz
      then k szex m
      else raised assertion_error m

  -- A recursive call of `mark`, and the rest of the method if the call returns.
  abbrev pub then_do : Outcome Map → (Map → Outcome Map) → Outcome Map
  then_do (done m) k = k m
  then_do (raised e m) k = raised e m

  abbrev pub Marker : Type 0
  Marker = ℕ → ℕ → V → ℕ → Map → Outcome Map

  -- what follows the loop
  unfoldable pub after_absorb : Marker → ℕ → ℕ → ℕ → V → Bool → ℕ → ℕ → Map → Outcome Map
  after_absorb again ix loc sz v couldcleft recursing szex m =
      if szex == sz
      then coalesce ix loc sz v couldcleft (is_in (get m.d (loc + sz))) recursing m
      else then_do (again (loc + szex) (sz - szex) v (recursing + 1) m) (λ m'.
        with_cell m' loc
          (λ sz' _. coalesce ix loc sz' v couldcleft (is_in (get m'.d (loc + sz'))) recursing m'))

  -- everything from `if sz == szex`: `loc` is a key, with the cell (szex, vex)
  unfoldable pub mark_aligned : Marker → ℕ → ℕ → ℕ → V → ℕ → V → Bool → ℕ → Map → Outcome Map
  mark_aligned again ix loc sz v szex vex couldcleft recursing m =
      if sz == szex
      then ite (dec v vex) (coalesce ix loc sz v couldcleft false recursing (vcc vex v loc sz m)) (
          coalesce ix loc sz v couldcleft (ltb ix (len (put m.d loc (sz, v)) - 1)) recursing
            (vcc vex v loc sz (assign loc sz v m)))
      else if ltb sz szex
      then ite (dec v vex) (coalesce ix loc szex v couldcleft false recursing m) (
          coalesce ix loc sz v couldcleft false recursing
            (vcc vex v loc sz (assign (loc + sz) (szex - sz) vex (assign loc sz v m))))
      else absorb (len m.d + 1) loc szex sz v (after_absorb again ix loc sz v couldcleft recursing)
          (vcc vex v loc szex (ite (dec v vex) m (assign loc szex v m)))

  -- the interval at k reaches over loc and has another value: cut it at loc
  abbrev pub cut : ℕ → ℕ → ℕ → V → Map → Map
  cut k loc szex vex m = assign loc (szex - (loc - k)) vex (assign k (loc - k) vex m)

  -- the branch `elif ix != 0`: the span (k, szex, vex) starts left of loc
  unfoldable pub mark_unaligned : Marker → ℕ → ℕ → ℕ → V → ℕ → ℕ → V → ℕ → Map → Outcome Map
  mark_unaligned again ix loc sz v k szex vex recursing m =
      if not (ltb k loc && ltb loc (k + szex))
      then raised assertion_error m
      else ite (dec v vex)
          (if not m.coalescing && recursing == 0
            then raised value_error m
            else if ltb szex (loc + sz - k)
            then again (k + szex) (loc + sz - k - szex) v (recursing + 1) (vcc vex v loc sz m)
            else done (vcc vex v loc sz m))
          (mark_aligned again ix loc sz v (szex - (loc - k)) vex false recursing
            (cut k loc szex vex m))

  -- the first test of `mark`, at an integer: where it fails, `mark` raises with nothing changed
  unfoldable pub test_location : ℤ → Map → Outcome Map
  test_location loc m =
      if not (at_or_above m.base loc && is_below (m.base + m.sz) loc)
      then raised value_error m
      else done m

  -- the body of `mark`; `again` is `self.mark`
  unfoldable pub mark_body : Marker → Marker
  mark_body again loc sz v recursing m =
      if not (inside S m loc)
      then raised value_error m
      else let ix = left m.d loc in
        elim (get m.d loc) [
          | some c ↦
              ite (dec v c.1)
                (if ltb sz c.0 && (not m.coalescing && recursing == 0)
                  then raised value_error m
                  else mark_aligned again ix loc sz v c.0 c.1 (not (ix == 0)) recursing m)
                (mark_aligned again ix loc sz v c.0 c.1 (not (ix == 0)) recursing m)
          | none ↦
              if ix == 0
              then raised assertion_error m
              else with_cell_at m (key_at m.d (ix - 1))
                  (λ k szex vex. mark_unaligned again ix loc sz v k szex vex recursing m)
        ]

  -- `mark` on fuel
  unfoldable pub mark_on : ℕ → Marker
  mark_on zero = λ loc sz v recursing m. raised out_of_fuel m
  mark_on (suc fuel) = mark_body (mark_on fuel)

  -- Three nested calls are enough: `mark-paint` shows that none runs out of fuel.
  unfoldable pub mark : ℕ → ℕ → V → Map → Outcome Map
  unfolding key_before coalesce_left coalesce absorb after_absorb mark_aligned mark_unaligned
      mark_body mark_on
  mark loc sz v = mark_on 3 loc sz v 0

  unfoldable pub unmark : ℕ → ℕ → Map → Outcome Map
  unfolding mark
  unmark loc sz m = mark loc sz m.v m

  -- add(ival), remove(ival) for an interval [begin, end) with a value
  unfoldable pub add : ℕ → ℕ → V → Map → Outcome Map
  unfolding mark
  add begin end value = mark begin (end - begin) value

  unfoldable pub remove : ℕ → ℕ → Map → Outcome Map
  unfolding mark
  remove begin end m = mark begin (end - begin) m.v m
