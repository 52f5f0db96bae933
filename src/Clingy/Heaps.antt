-- ===== src/Clingy/Heaps.antt =====
-- A heap with one large object, and the allocator's methods on it.
use memory_alloc_analysis.Prelude.{
  ℕ, ◌+◌, ◌≤◌, ◌<◌, ◌≡◌, ◌≢◌, refl, subst₂, true, false, none, some, List, [], ◌∷◌, arith, done,
  object, answer, ok,
}
use memory_alloc_analysis.SortedDict.{SortedDict}
use memory_alloc_analysis.SortedDict.Assoc.{assoc}
use memory_alloc_analysis.SortedDict.Items.{lookup}
use memory_alloc_analysis.IntervalMap.Defs.{Cell, IntervalMap, get_item}
use memory_alloc_analysis.IntervalMap.Get.{get}
use memory_alloc_analysis.IntervalMap.Refines.{IsValid}
use memory_alloc_analysis.IntervalMap.Widen.{Around, one_of, beyond, no_beyond, get-Around}
use memory_alloc_analysis.Clingy.Sizes.{bix2va, sz2nbucks, nbucks2sz}
use memory_alloc_analysis.Clingy.States.{BuckSt, ahwm, tidy, wait, junk, BucketMap}
use memory_alloc_analysis.Clingy.Defs.{Clingy, mark_allocated, no_span, best}
use memory_alloc_analysis.Clingy.Alloc.{Policy, alloc_at}
use memory_alloc_analysis.Clingy.Free.{free}
use memory_alloc_analysis.Clingy.OfMap.{bucket_map, BuckSt_discrete}
use memory_alloc_analysis.Clingy.Accounts.{Accounts}
use memory_alloc_analysis.Clingy.Placing.{placed, mark_allocated-Accounts}
use memory_alloc_analysis.Clingy.Large.{alloc_at-Accounts}
use memory_alloc_analysis.Clingy.Freeing.{Holding, Backed, free-Accounts}
use memory_alloc_analysis.Clingy.Due.{Factors}
use memory_alloc_analysis.Clingy.Revoke.{find_largest_revokable_spans}
use memory_alloc_analysis.IntervalMap.Defs.{get_slice, span_at, spans_at}
use memory_alloc_analysis.IntervalMap.Get.{filter_from, iter_vfilter}
use memory_alloc_analysis.Clingy.Fit.{best_fit, Chosen, best_fit-Chosen, typeless, on_bucket_free}

abbrev cells : SortedDict (Cell BuckSt)
cells = assoc (Cell BuckSt)

abbrev buckets : BucketMap
buckets = bucket_map cells 100

-- two buckets of a large object, a TIDY one, and those that were never used
abbrev states : IntervalMap cells
states = record {
  d = (1, (2, wait)) ∷ (3, (1, tidy)) ∷ (4, (96, ahwm)) ∷ [];
  base = 1;
  sz = 99;
  v = ahwm;
  coalescing = true;
  changes = [];
}

states-IsValid : IsValid cells states
states-IsValid = record {
  tiles = omega arith;
  canonical = ((λ e. cc), ((λ e. cc), (tt, tt)));
  coalescing = refl;
}

abbrev heap : Clingy buckets
heap = record {
  maxbix = 4;
  szbix2ap = [];
  bix2szbm = (1, (100000, 0)) ∷ [];
  njunkb = 0;
  nbwb = 2;
  bix2state = states;
  brscache = none;
  junklru = [];
  junkbdn = [];
  next_node = 0;
  published = [];
}

heap-Accounts : Accounts buckets heap
heap-Accounts = record {
  valid = record { valid = states-IsValid; start = refl; stop = refl };
  low = omega arith;
  high = omega arith;
  unused = λ x a c. ground arith;
  used = λ x a c. ground arith;
  junks = refl;
  busy = refl;
}

-- two buckets, with a gap below them
mark_allocated-Accounts_example :
    (s' : Clingy buckets) × (mark_allocated buckets 6 2 wait heap ≡ done s')
    × Accounts buckets s'
    × (s'.bix2szbm ≡ heap.bix2szbm)
    × ((x : ℕ) → buckets.at s'.bix2state x ≡ placed buckets heap 6 2 wait x)
mark_allocated-Accounts_example =
    mark_allocated-Accounts buckets 6 2 wait heap heap-Accounts (omega arith) (omega arith)
      (omega arith) refl (λ x a c. ground arith)

abbrev policy : Policy Unit
policy = typeless Unit true false

alloc_at-Accounts_example :
    (s' : Clingy buckets) × (alloc_at buckets policy tt 70000 4 heap
      ≡ answer (bix2va 4, nbucks2sz (sz2nbucks 70000)) s')
    × (70000 ≤ nbucks2sz (sz2nbucks 70000))
    × Accounts buckets s'
    × (lookup 4 s'.bix2szbm ≡ some (70000, 0))
    × ((x : ℕ) → buckets.at s'.bix2state x ≡ placed buckets heap 4 (sz2nbucks 70000) wait x)
unfolding get_item sz2nbucks
alloc_at-Accounts_example =
    alloc_at-Accounts buckets policy tt 70000 4 heap heap-Accounts (omega arith) (omega arith) 4 96
      ahwm refl refl (omega arith) (omega arith)

only_entry : (bix sz bm : ℕ) → lookup bix heap.bix2szbm ≡ some (sz, bm) → (1 ≡ bix) × (100000 ≡ sz)
only_entry bix sz bm h = ground (arith, h)

held : Holding buckets heap 1 100000
unfolding sz2nbucks
held = record {
  first = omega arith;
  some_size = omega arith;
  fits = omega arith;
  used = λ x a c. ground arith;
}

heap-Backed : Backed buckets heap
unfolding sz2nbucks
heap-Backed = record {
  holding = λ bix sz bm h.
      let is = only_entry bix sz bm h in subst₂ (Holding buckets heap) is.0 is.1 held;
}

no_tidy : (bix bsz : ℕ) → policy.on_bucket_free bix bsz ≢ some false
unfolding typeless on_bucket_free
no_tidy bix bsz h = cc h

free-Accounts_example : Accounts buckets (object (free buckets policy tt 65536 heap))
free-Accounts_example = free-Accounts buckets policy tt no_tidy 65536 heap heap-Accounts heap-Backed

abbrev candidates : List (ℕ × ℕ)
candidates = (3, 1) ∷ (10, 7) ∷ (20, 4) ∷ []

best_fit_four : best_fit 3 candidates ≡ some 20
unfolding best_fit
best_fit_four = refl

best_fit-Chosen_example : Chosen 3 candidates (best_fit 3 candidates)
best_fit-Chosen_example = best_fit-Chosen 3 candidates

-- JUNK and TIDY buckets around bucket 5
abbrev mixed : IntervalMap cells
mixed = record states {
  d = (1, (2, wait)) ∷ (3, (2, tidy)) ∷ (5, (3, junk)) ∷ (8, (1, tidy)) ∷ (9, (91, ahwm)) ∷ [];
}

mixed-IsValid : IsValid cells mixed
mixed-IsValid = record {
  tiles = omega arith;
  canonical = ((λ e. cc), ((λ e. cc), ((λ e. cc), ((λ e. cc), (tt, tt)))));
  coalescing = refl;
}

get_mixed : get cells BuckSt_discrete 5 (tidy ∷ junk ∷ []) [] [] [] mixed ≡ ok (3, 6, junk)
unfolding get get_item
get_mixed = refl

get-Around_example :
    (k s : ℕ) × (w : BuckSt) × (get_item cells mixed 5 ≡ ok (k, s, w))
    × (k ≤ 5)
    × (5 < k + s)
    × Around cells BuckSt_discrete mixed mixed-IsValid
        (one_of cells BuckSt_discrete mixed mixed-IsValid tidy (junk ∷ []))
        (beyond cells BuckSt_discrete mixed mixed-IsValid tidy (junk ∷ []))
        (no_beyond cells BuckSt_discrete mixed mixed-IsValid tidy (junk ∷ []))
        k
        s
        w
        (get cells BuckSt_discrete 5 (tidy ∷ junk ∷ []) [] [] [] mixed)
get-Around_example =
    get-Around cells BuckSt_discrete mixed mixed-IsValid 5 tidy (junk ∷ []) (omega arith)
      (omega arith)

-- the object was freed, and there is one run to revoke
abbrev junk_heap : Clingy buckets
junk_heap = record heap {
  bix2szbm = [];
  njunkb = 2;
  nbwb = 0;
  bix2state = record states { d = (1, (2, junk)) ∷ (3, (1, tidy)) ∷ (4, (96, ahwm)) ∷ [] };
  junklru = (0, (1, 2)) ∷ [];
  junkbdn = (1, 0) ∷ [];
  next_node = 1;
}

found_runs :
    find_largest_revokable_spans buckets 3 junk_heap ≡ ok (some (no_span ∷ best 2 1 3 ∷ []))
unfolding find_largest_revokable_spans iter_vfilter filter_from get get_item get_slice span_at
    spans_at
found_runs = refl

abbrev factors : Factors
factors = record {
  overhead_factor = 0;
  tidy_factor = 1;
  rev_tidy_factor = 8;
  revoke_t = 10;
  rev_lru = 2;
}

-- no bucket is JUNK, and a search has found that
abbrev searched : Clingy buckets
searched = record heap { brscache = some no_span }
