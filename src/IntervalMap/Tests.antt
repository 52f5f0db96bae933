-- ===== src/IntervalMap/Tests.antt =====
-- Runs of the interval map over truth values, and the theorems at concrete maps.
use memory_alloc_analysis.Prelude.{
  ℕ, List, ◌+◌, ◌≤◌, ◌<◌, ◌&&◌, Bool, true, false, done, raised, [], ◌∷◌, ◌≡◌, refl, key_error,
  arith, leb, ltb, if◌then◌else◌, some, ok,
}
use memory_alloc_analysis.SortedDict.{SortedDict}
use memory_alloc_analysis.SortedDict.Assoc.{assoc}
use memory_alloc_analysis.IntervalMap.Defs.{Cell, Span, IntervalMap, get_item, get_slice}
use memory_alloc_analysis.IntervalMap.Slices.{Run, Entries, get_slice-Run}
use memory_alloc_analysis.IntervalMap.Mark.{mark}
use memory_alloc_analysis.IntervalMap.Paint.{paint}
use memory_alloc_analysis.IntervalMap.Coalesce.{Returns}
use memory_alloc_analysis.IntervalMap.Correct.{mark-paint}
use memory_alloc_analysis.IntervalMap.Limits.{mark_overrun}
use memory_alloc_analysis.IntervalMap.Refines.{IsValid, value, mark-value, get_item-value}

Bool-discrete : Discrete Bool
Bool-discrete = hlevel

abbrev dict : SortedDict (Cell Bool)
dict = assoc (Cell Bool)

-- one marked span in the middle
abbrev striped : IntervalMap dict
striped = record {
  d = (0, (10, false)) ∷ (10, (10, true)) ∷ (20, (80, false)) ∷ [];
  base = 0;
  sz = 100;
  v = false;
  coalescing = true;
  changes = [];
}

striped-IsValid : IsValid dict striped
striped-IsValid = record {
  tiles = omega arith;
  canonical = ((λ e. cc), ((λ e. cc), (tt, tt)));
  coalescing = refl;
}

-- a mark across two boundaries
mark_across :
    mark dict Bool-discrete 5 20 true striped
    ≡ done (record {
      d = (0, (5, false)) ∷ (5, (20, true)) ∷ (25, (75, false)) ∷ [];
      base = 0;
      sz = 100;
      v = false;
      coalescing = true;
      changes =
          record { old = false; new = true; at = 20; size = 5 }
          ∷ record { old = true; new = true; at = 10; size = 10 }
          ∷ record { old = false; new = true; at = 5; size = 5 }
          ∷ [];
    })
unfolding mark Bool-discrete
mark_across = refl

mark-value_example :
    (m' : IntervalMap dict) × (mark dict Bool-discrete 5 20 true striped ≡ done m')
    × IsValid dict m'
    × (m'.base ≡ 0)
    × (m'.sz ≡ 100)
    × (m'.v ≡ false)
    × ((x : ℕ)
        → value dict m' x ≡ (if leb 5 x && ltb x (5 + 20) then some true else value dict striped x))
mark-value_example =
    mark-value dict Bool-discrete striped striped-IsValid 5 20 true (omega arith) (omega arith)
      (omega arith)

mark-paint_example :
    Returns dict striped
      (mark dict Bool-discrete 5 20 true striped)
      (paint Bool-discrete 5 20 true striped.d)
mark-paint_example =
    mark-paint dict Bool-discrete striped 0 100 5 20 true
      (record { base = refl; limit = refl; coalescing = refl }) striped-IsValid.tiles
      striped-IsValid.canonical (omega arith) (omega arith) (omega arith)

get_item-value_example :
    (k s : ℕ) × (w : Bool) × (get_item dict striped 15 ≡ ok (k, s, w))
    × (k ≤ 15)
    × (15 < k + s)
    × ((x : ℕ) → k ≤ x → x < k + s → value dict striped x ≡ some w)
get_item-value_example = get_item-value dict striped striped-IsValid 15 (omega arith) (omega arith)

-- the last span starts at 20, and the mark reaches to 120
mark_overrun_example :
    (m' : IntervalMap dict) × (mark dict Bool-discrete 20 100 true striped ≡ raised key_error m')
    × ((x : ℕ)
        → value dict m' x
          ≡ (if leb 20 x && ltb x (0 + 100) then some true else value dict striped x))
mark_overrun_example =
    mark_overrun dict Bool-discrete striped striped-IsValid
      ((0, (10, false)) ∷ (10, (10, true)) ∷ []) 20 80 false refl 100 true (omega arith)

get_slice-Run_example :
    (qs : List (Span Bool)) × (get_slice dict striped (some 5) (some 15) ≡ ok qs)
    × Run (value dict striped) 5 15 qs
    × Entries dict striped qs
get_slice-Run_example =
    get_slice-Run dict striped striped-IsValid 5 15 (omega arith) (omega arith) (omega arith)
