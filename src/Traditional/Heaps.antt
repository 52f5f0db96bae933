-- ===== src/Traditional/Heaps.antt =====
-- A heap of one page with one object, and the methods on it.
mod Lives
mod Junked
use memory_alloc_analysis.Prelude.{
  ℕ, raised, assertion_error, subst₂, ◌+◌, ◌^◌, ◌≤◌, ◌<◌, ◌≡◌, ◌%◌, refl, max, true, none, List, [],
  ◌∷◌, length, arith, done, object, answer,
}
use memory_alloc_analysis.SortedDict.Assoc.{assoc}
use memory_alloc_analysis.IntervalMap.Defs.{Cell, IntervalMap}
use memory_alloc_analysis.IntervalMap.Interface.{ValueMap}
use memory_alloc_analysis.IntervalMap.Filled.{value_map}
use memory_alloc_analysis.SegFreeList.Defs.{init, iterfor}
use memory_alloc_analysis.SegFreeList.Numbered.{dllist}
use memory_alloc_analysis.Clingy.Defs.{best}
use memory_alloc_analysis.Traditional.States.{SegSt, ahwm, wait, PageSt, umap, mapd}
use memory_alloc_analysis.Traditional.Defs.{Options, Traditional}
use memory_alloc_analysis.Traditional.Alloc.{request_size, ensure_mapped, alloc}
use memory_alloc_analysis.Traditional.Free.{free, free_unsafe, ensure_unmapped}
use memory_alloc_analysis.Traditional.Revoke.{fill}
use memory_alloc_analysis.Clingy.Revoke.{member}
use memory_alloc_analysis.Traditional.Requests.{request_size_bounds}
use memory_alloc_analysis.Traditional.Pages.{
  Paged, Repaged, ensure_mapped-Repaged, ensure_unmapped-Repaged,
}
use memory_alloc_analysis.Traditional.Balanced.{Balanced}
use memory_alloc_analysis.Traditional.Freeing.{Held, Backed, free-Balanced, free_unsafe-Balanced}
use memory_alloc_analysis.Traditional.Placing.{Allocated}
use memory_alloc_analysis.Traditional.Served.{alloc-Allocated}
use memory_alloc_analysis.Traditional.Due.{due, maybe_revoke, maybe_revoke_few}
use memory_alloc_analysis.Traditional.Fill.{length-fill_one_more}

abbrev pub options : Options
options = record { alignlog = 2; minsize = 16; revoke_k = 2 }

request_size_bounds_example :
    (21 ≤ request_size options 21)
    × (16 ≤ request_size options 21)
    × (request_size options 21 < max 21 16 + 2 ^ 2)
    × (request_size options 21 % 2 ^ 2 ≡ 0)
request_size_bounds_example = request_size_bounds options 21

length-fill_one_more_example :
    length (fill 1 (best 3 4096 3 ∷ best 2 5000 8 ∷ best 1 6000 1 ∷ []) []).0 ≡ 2
unfolding member
length-fill_one_more_example =
    length-fill_one_more 1 (best 3 4096 3 ∷ best 2 5000 8 ∷ best 1 6000 1 ∷ [])
      (refl, (refl, (refl, tt))) (omega arith)

abbrev pub SegSt_discrete : Discrete SegSt
SegSt_discrete = hlevel

abbrev pub PageSt_discrete : Discrete PageSt
PageSt_discrete = hlevel

abbrev pub segments : ValueMap SegSt
segments = value_map (assoc (Cell SegSt)) SegSt_discrete 4096 8192

abbrev pub pages : ValueMap PageSt
pages = value_map (assoc (Cell PageSt)) PageSt_discrete 1 2

abbrev pub bytes : IntervalMap (assoc (Cell SegSt))
bytes = record {
  d = (4096, (16, wait)) ∷ (4112, (4080, ahwm)) ∷ [];
  base = 4096;
  sz = 4096;
  v = ahwm;
  coalescing = true;
  changes = [];
}

abbrev pub frames : IntervalMap (assoc (Cell PageSt))
frames = record {
  d = (1, (1, mapd)) ∷ [];
  base = 1;
  sz = 1;
  v = umap;
  coalescing = true;
  changes = [];
}

abbrev pub heap : Traditional segments pages (dllist (ℕ × ℕ)) (dllist ℕ)
unfolding init
heap = record {
  brscache = none;
  eva2sst = bytes;
  eva2sz = (4096, 16) ∷ [];
  evp2pst = frames;
  junklru = (0, []);
  junkadn = [];
  njunk = 0;
  nmapped = 4096;
  nwait = 16;
  tidylst = init (dllist (ℕ × ℕ)) (dllist ℕ);
  wildern = 4112;
  published = [];
}

frames-Paged : Paged segments pages (dllist (ℕ × ℕ)) (dllist ℕ) frames 4096
frames-Paged = record {
  valid = record {
    valid = record { tiles = omega arith; canonical = (tt, tt); coalescing = refl };
    start = refl;
    stop = refl;
  };
  bytes = refl;
}

pub heap-Balanced : Balanced segments pages (dllist (ℕ × ℕ)) (dllist ℕ) heap
unfolding heap
heap-Balanced = record {
  segments = record {
    valid = record {
      valid = record { tiles = omega arith; canonical = ((λ e. cc), (tt, tt)); coalescing = refl };
      start = refl;
      stop = refl;
    };
    low = omega arith;
    high = omega arith;
    unused = λ x a c. ground arith;
    used = λ x a c. ground (arith, a, c);
    junks = refl;
    waits = refl;
  };
  pages = frames-Paged;
}

pub heap-Backed : Backed segments pages (dllist (ℕ × ℕ)) (dllist ℕ) heap
unfolding heap
heap-Backed = record {
  held = λ loc sz h.
      let at : 4096 ≡ loc = ground (arith, h) in
      let size : 16 ≡ sz = ground (arith, h) in
      subst₂ (λ k n. Held segments pages (dllist (ℕ × ℕ)) (dllist ℕ) bytes k n) at size
        (record {
          from = omega arith;
          some_there = omega arith;
          fits = omega arith;
          used = λ x a c. ground (arith, a, c);
        });
}

ensure_mapped-Repaged_example :
    (s' : Traditional segments pages (dllist (ℕ × ℕ)) (dllist ℕ)) × (ensure_mapped segments pages
        (dllist (ℕ × ℕ))
        (dllist ℕ)
        4112
        24
        heap
      ≡ done s')
    × Repaged segments pages (dllist (ℕ × ℕ)) (dllist ℕ) heap 1 2 mapd s'
unfolding heap
ensure_mapped-Repaged_example =
    ensure_mapped-Repaged segments pages (dllist (ℕ × ℕ)) (dllist ℕ) heap 4112 24 frames-Paged
      (omega arith) (omega arith) (omega arith)

-- all of 99 pages are mapped
abbrev many_pages : ValueMap PageSt
many_pages = value_map (assoc (Cell PageSt)) PageSt_discrete 1 100

abbrev mapped_heap : Traditional segments many_pages (dllist (ℕ × ℕ)) (dllist ℕ)
unfolding init
mapped_heap = record {
  brscache = none;
  eva2sst = bytes;
  eva2sz = [];
  evp2pst = record {
    d = (1, (99, mapd)) ∷ [];
    base = 1;
    sz = 99;
    v = umap;
    coalescing = true;
    changes = [];
  };
  junklru = (0, []);
  junkadn = [];
  njunk = 0;
  nmapped = 405504;
  nwait = 0;
  tidylst = init (dllist (ℕ × ℕ)) (dllist ℕ);
  wildern = 4096;
  published = [];
}

ensure_unmapped-Repaged_example :
    (s' : Traditional segments many_pages (dllist (ℕ × ℕ)) (dllist ℕ)) × (ensure_unmapped segments
        many_pages
        (dllist (ℕ × ℕ))
        (dllist ℕ)
        5000
        81920
        mapped_heap
      ≡ done s')
    × Repaged segments many_pages (dllist (ℕ × ℕ)) (dllist ℕ) mapped_heap 2 21 umap s'
    × (5000 ≤ 8192)
    × (8192 < 5000 + 2 ^ 12)
    × (86016 ≤ 5000 + 81920)
    × (5000 + 81920 ≤ 86016 + 2 ^ 12)
unfolding mapped_heap
ensure_unmapped-Repaged_example =
    ensure_unmapped-Repaged segments many_pages (dllist (ℕ × ℕ)) (dllist ℕ) mapped_heap 5000 81920
      (record {
        valid = record {
          valid = record { tiles = omega arith; canonical = (tt, tt); coalescing = refl };
          start = refl;
          stop = refl;
        };
        bytes = refl;
      })
      (omega arith) (omega arith) (omega arith)

-- sixteen spans are JUNK
abbrev junk_spans : List (ℕ × (ℕ × ℕ))
junk_spans =
    (0, (5000, 4))
    ∷ (1, (5010, 4))
    ∷ (2, (5020, 4))
    ∷ (3, (5030, 4))
    ∷ (4, (5040, 4))
    ∷ (5, (5050, 4))
    ∷ (6, (5060, 4))
    ∷ (7, (5070, 4))
    ∷ (8, (5080, 4))
    ∷ (9, (5090, 4))
    ∷ (10, (5100, 4))
    ∷ (11, (5110, 4))
    ∷ (12, (5120, 4))
    ∷ (13, (5130, 4))
    ∷ (14, (5140, 4))
    ∷ (15, (5150, 4))
    ∷ []

abbrev littered : Traditional segments pages (dllist (ℕ × ℕ)) (dllist ℕ)
unfolding heap
littered = record heap { junklru = (16, junk_spans); njunk = 64 }

maybe_revoke_few_example :
    maybe_revoke segments pages (dllist (ℕ × ℕ)) (dllist ℕ) (λ l. l) 2 littered
    ≡ raised assertion_error littered
unfolding littered due
maybe_revoke_few_example =
    maybe_revoke_few segments pages (dllist (ℕ × ℕ)) (dllist ℕ) (λ l. l) 2 littered (omega arith)
      refl
