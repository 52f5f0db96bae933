-- ===== src/Traditional/Heaps/Lives.antt =====
-- Runs of the allocator on one page.
use memory_alloc_analysis.Prelude.{
  ℕ, ◌+◌, ◌≡◌, ◌≢◌, refl, true, some, [], ◌∷◌, if◌then◌else◌, leb, ltb, ◌&&◌, arith, done, object,
  answer,
}
use native.Mathlib.Decide.{dec_lt}
use memory_alloc_analysis.SortedDict.Assoc.{assoc}
use memory_alloc_analysis.IntervalMap.Defs.{Cell, IntervalMap}
use memory_alloc_analysis.IntervalMap.Listing.{Lists}
use memory_alloc_analysis.SegFreeList.Defs.{FreeList, init, iterfor}
use memory_alloc_analysis.SegFreeList.Spans.{size_at}
use memory_alloc_analysis.SegFreeList.Numbered.{dllist}
use memory_alloc_analysis.Traditional.States.{SegSt, ahwm, tidy, wait, PageSt, umap}
use memory_alloc_analysis.Traditional.Defs.{Traditional, new_traditional, mark_tidy}
use memory_alloc_analysis.Traditional.Alloc.{request_size, alloc}
use memory_alloc_analysis.Traditional.Free.{free, free_unsafe}
use memory_alloc_analysis.Traditional.Placing.{Allocated}
use memory_alloc_analysis.Traditional.TidyList.{Indexed, mark_tidy-Indexed}
use memory_alloc_analysis.Traditional.Sound.{Sound}
use memory_alloc_analysis.Traditional.Freed.{free-Sound, free_unsafe-Sound}
use memory_alloc_analysis.Traditional.Tidied.{free_unsafe_returns}
use memory_alloc_analysis.Traditional.Allotted.{alloc-Sound}
use memory_alloc_analysis.Traditional.Reached.{
  Unused, Reached, new, allocated, freed, Reached-Sound,
}
use memory_alloc_analysis.Traditional.Heaps.{
  options, segments, pages, bytes, heap, heap-Balanced, heap-Backed,
}

heap_no_tidy : (x : ℕ) → segments.at bytes x ≢ some tidy
unfolding heap
heap_no_tidy x h =
    let (from, below) = segments.at_inside bytes x tidy heap-Balanced.segments.valid h in
    elim (dec_lt x 4112) [
      | yes lt ↦
          let used : segments.at bytes x ≡ some wait = ground (arith, from, lt) in cc (used, h)
      | no ge ↦
          let unused : segments.at bytes x ≡ some ahwm = ground (arith, ge, below) in cc (unused, h)
    ]

heap-Indexed : Indexed segments pages (dllist (ℕ × ℕ)) (dllist ℕ) heap
unfolding heap init
heap-Indexed j n = (
  λ h. absurd (cc h),
  λ a. absurd (heap_no_tidy j (a.all j (omega arith) (omega (arith, a.some_there)))),
)

heap-Sound : Sound segments pages (dllist (ℕ × ℕ)) (dllist ℕ) heap
unfolding heap
heap-Sound = record {
  balanced = heap-Balanced;
  owned = record {
    held = heap-Backed.held;
    apart = λ a sa b sb h k lt.
        let at : 4096 ≡ a = ground (arith, h) in
        let at' : 4096 ≡ b = ground (arith, k) in absurd (omega (arith, at, at', lt));
    indexed = heap-Indexed;
  };
}

free-Sound_example :
    Sound segments pages
      (dllist (ℕ × ℕ))
      (dllist ℕ)
      (object (free segments pages (dllist (ℕ × ℕ)) (dllist ℕ) 4096 heap))
free-Sound_example =
    free-Sound segments pages (dllist (ℕ × ℕ)) (dllist ℕ) refl refl 4096 heap heap-Sound

free_unsafe_returns_example :
    (s' : Traditional segments pages (dllist (ℕ × ℕ)) (dllist ℕ)) × (free_unsafe segments pages
        (dllist (ℕ × ℕ))
        (dllist ℕ)
        4096
        heap
      ≡ done s')
    × (s'.eva2sz ≡ [])
    × ((x : ℕ)
        → segments.at s'.eva2sst x
          ≡ (if leb 4096 x && ltb x (4096 + 16) then some tidy else segments.at bytes x))
    × Sound segments pages (dllist (ℕ × ℕ)) (dllist ℕ) s'
unfolding heap
free_unsafe_returns_example =
    free_unsafe_returns segments pages (dllist (ℕ × ℕ)) (dllist ℕ) refl refl 4096 16 heap heap-Sound
      refl

free_unsafe-Sound_example :
    Sound segments pages
      (dllist (ℕ × ℕ))
      (dllist ℕ)
      (object (free_unsafe segments pages (dllist (ℕ × ℕ)) (dllist ℕ) 4096 heap))
free_unsafe-Sound_example =
    free_unsafe-Sound segments pages (dllist (ℕ × ℕ)) (dllist ℕ) refl refl 4096 heap heap-Sound

alloc-Sound_example :
    (loc : ℕ) × (s' : Traditional segments pages (dllist (ℕ × ℕ)) (dllist ℕ)) × (alloc segments
        pages
        (dllist (ℕ × ℕ))
        (dllist ℕ)
        options
        21
        heap
      ≡ answer (loc, request_size options 21) s')
    × Allocated segments pages (dllist (ℕ × ℕ)) (dllist ℕ) heap loc (request_size options 21) s'
    × Sound segments pages (dllist (ℕ × ℕ)) (dllist ℕ) s'
unfolding heap request_size iterfor
alloc-Sound_example =
    alloc-Sound segments pages (dllist (ℕ × ℕ)) (dllist ℕ) heap heap-Sound refl refl options 21
      (omega arith) (omega arith) tt

mark_tidy-Indexed_example :
    (m' : IntervalMap (assoc (Cell SegSt))) × (l' : FreeList (dllist (ℕ × ℕ)) (dllist ℕ))
    × (mark_tidy segments pages (dllist (ℕ × ℕ)) (dllist ℕ) 4112 64 heap
        ≡ done (record heap { eva2sst = m'; tidylst = l' }))
    × segments.IsValid m'
    × ((x : ℕ)
        → segments.at m' x
          ≡ (if leb 4112 x && ltb x (4112 + 64) then some tidy else segments.at bytes x))
    × Lists (segments.at m') tidy (size_at (dllist (ℕ × ℕ)) (dllist ℕ) l')
unfolding heap
mark_tidy-Indexed_example =
    mark_tidy-Indexed segments pages (dllist (ℕ × ℕ)) (dllist ℕ) 4112 64 heap
      heap-Balanced.segments.valid heap-Indexed (omega arith) (omega arith) (omega arith)
      (λ x p q. heap_no_tidy x)

-- the map and the pages of a new allocator
abbrev no_bytes : IntervalMap (assoc (Cell SegSt))
no_bytes = record {
  d = (4096, (4096, ahwm)) ∷ [];
  base = 4096;
  sz = 4096;
  v = ahwm;
  coalescing = true;
  changes = [];
}

abbrev no_frames : IntervalMap (assoc (Cell PageSt))
no_frames = record {
  d = (1, (1, umap)) ∷ [];
  base = 1;
  sz = 1;
  v = umap;
  coalescing = true;
  changes = [];
}

no_bytes-Unused : Unused segments pages (dllist (ℕ × ℕ)) (dllist ℕ) no_bytes no_frames
no_bytes-Unused = record {
  segments = record {
    valid = record {
      valid = record { tiles = omega arith; canonical = (tt, tt); coalescing = refl };
      start = refl;
      stop = refl;
    };
    same = λ x a c. ground (arith, a, c);
  };
  pages = record {
    valid = record {
      valid = record { tiles = omega arith; canonical = (tt, tt); coalescing = refl };
      start = refl;
      stop = refl;
    };
    same = λ x a c. ground (arith, a, c);
  };
}

abbrev fresh : Traditional segments pages (dllist (ℕ × ℕ)) (dllist ℕ)
fresh = new_traditional segments pages (dllist (ℕ × ℕ)) (dllist ℕ) no_bytes no_frames

fresh-Reached : Reached segments pages (dllist (ℕ × ℕ)) (dllist ℕ) options fresh
fresh-Reached = new no_bytes no_frames no_bytes-Unused

-- the first allocation
served :
    (loc : ℕ) × (s' : Traditional segments pages (dllist (ℕ × ℕ)) (dllist ℕ)) × (alloc segments
        pages
        (dllist (ℕ × ℕ))
        (dllist ℕ)
        options
        21
        fresh
      ≡ answer (loc, request_size options 21) s')
    × Allocated segments pages (dllist (ℕ × ℕ)) (dllist ℕ) fresh loc (request_size options 21) s'
    × Sound segments pages (dllist (ℕ × ℕ)) (dllist ℕ) s'
unfolding new_traditional init request_size iterfor
served =
    alloc-Sound segments pages (dllist (ℕ × ℕ)) (dllist ℕ) fresh
      (Reached-Sound segments pages (dllist (ℕ × ℕ)) (dllist ℕ) refl refl (omega arith)
        (omega arith) options (omega arith) fresh fresh-Reached)
      refl refl options 21 (omega arith) (omega arith) tt

served-Reached : Reached segments pages (dllist (ℕ × ℕ)) (dllist ℕ) options served.1
unfolding new_traditional init request_size iterfor
served-Reached =
    allocated fresh served.1 21 served.0 (request_size options 21) fresh-Reached (omega arith) tt
      served.2

Reached-Sound_example :
    Sound segments pages
      (dllist (ℕ × ℕ))
      (dllist ℕ)
      (object (free segments pages (dllist (ℕ × ℕ)) (dllist ℕ) served.0 served.1))
Reached-Sound_example =
    Reached-Sound segments pages (dllist (ℕ × ℕ)) (dllist ℕ) refl refl (omega arith) (omega arith)
      options (omega arith)
      (object (free segments pages (dllist (ℕ × ℕ)) (dllist ℕ) served.0 served.1))
      (freed served.1 served.0 served-Reached)
