-- ===== src/NoReuse/Defs.antt =====
-- The state and the methods of the allocator; its base class wants a pair from `_alloc`, which
-- returns an address.
use memory_alloc_analysis.Prelude.{
  ℕ, ◌+◌, ◌^◌, Bool, true, false, none, some, List, [], ◌∷◌, if◌then◌else◌, ltb, Answer, answer,
  failure, Outcome, done, raised, key_error,
}
use memory_alloc_analysis.SortedDict.{SortedDict}
use memory_alloc_analysis.SortedDict.Items.{lookup, erase}
use memory_alloc_analysis.IntervalMap.Defs.{Cell, IntervalMap, init}
use memory_alloc_analysis.IntervalMap.Mark.{mark}

abbrev pub Bool_discrete : Discrete Bool
Bool_discrete = hlevel

module _ (S : SortedDict (Cell Bool)) where
  pub record NoReuse : Type 0 where
    pub eva2sz : List (ℕ × ℕ)
    pub maxeva : ℕ
    pub state : IntervalMap S

  unfoldable pub new_no_reuse : NoReuse
  unfolding init
  new_no_reuse = record { eva2sz = []; maxeva = 0; state = init S 4096 (2 ^ 64) false true }

  abbrev pub at_least_four : ℕ → ℕ
  at_least_four sz = if ltb sz 4 then 4 else sz

  abbrev pub with_state : {B : Type 0} → B → Outcome (IntervalMap S) → NoReuse → Answer NoReuse B
  with_state b (done m) s = answer b (record s { state = m })
  with_state b (raised e m) s = failure e (record s { state = m })

  -- the fields that `_alloc` writes before it marks
  abbrev pub entered : ℕ → NoReuse → NoReuse
  entered sz s = record s {
    eva2sz = (s.maxeva, at_least_four sz) ∷ erase s.maxeva s.eva2sz;
    maxeva = s.maxeva + at_least_four sz;
  }

  unfoldable pub alloc : ℕ → NoReuse → Answer NoReuse ℕ
  unfolding mark
  alloc sz s =
      with_state s.maxeva (mark S Bool_discrete s.maxeva (at_least_four sz) true s.state)
        (entered sz s)

  unfoldable pub free : ℕ → NoReuse → Answer NoReuse Unit
  unfolding mark
  free eva s = elim (lookup eva s.eva2sz) [
    | none ↦ failure key_error s
    | some sz ↦ elim (mark S Bool_discrete eva sz false s.state) [
      | raised e m ↦ failure e (record s { state = m })
      | done m ↦ answer tt (record s { state = m; eva2sz = erase eva s.eva2sz })
    ]
  ]

  unfoldable pub try_realloc : ℕ → ℕ → NoReuse → Answer NoReuse Bool
  try_realloc oeva nsz s = answer false s
