-- ===== src/Traditional/Heaps/Junked.antt =====
-- A revocation on one page.
use memory_alloc_analysis.Prelude.{ℕ, ◌≡◌, ◌≢◌, refl, true, some, [], ◌∷◌, arith, object}
use native.Mathlib.Decide.{dec_lt}
use memory_alloc_analysis.SortedDict.Assoc.{assoc}
use memory_alloc_analysis.IntervalMap.Defs.{Cell, IntervalMap}
use memory_alloc_analysis.SegFreeList.Defs.{init}
use memory_alloc_analysis.SegFreeList.Numbered.{dllist}
use memory_alloc_analysis.Clingy.Defs.{best}
use memory_alloc_analysis.Traditional.States.{SegSt, ahwm, tidy, junk}
use memory_alloc_analysis.Traditional.Defs.{Traditional}
use memory_alloc_analysis.Traditional.Revoke.{do_revoke}
use memory_alloc_analysis.Traditional.Revoking.{Shaped, do_revoke-Shape}
use memory_alloc_analysis.Traditional.Heaps.{segments, pages, heap}

-- one JUNK span
abbrev junk_bytes : IntervalMap (assoc (Cell SegSt))
junk_bytes = record {
  d = (4096, (16, junk)) ∷ (4112, (4080, ahwm)) ∷ [];
  base = 4096;
  sz = 4096;
  v = ahwm;
  coalescing = true;
  changes = [];
}

abbrev junk_heap : Traditional segments pages (dllist (ℕ × ℕ)) (dllist ℕ)
unfolding heap
junk_heap = record heap {
  eva2sst = junk_bytes;
  eva2sz = [];
  junklru = (1, (0, (4096, 16)) ∷ []);
  junkadn = (4096, (0, (4096, 16))) ∷ [];
  njunk = 16;
  nwait = 0;
}

junk_bytes-IsValid : segments.IsValid junk_bytes
junk_bytes-IsValid = record {
  valid = record { tiles = omega arith; canonical = ((λ e. cc), (tt, tt)); coalescing = refl };
  start = refl;
  stop = refl;
}

junk_no_tidy : (x : ℕ) → segments.at junk_bytes x ≢ some tidy
junk_no_tidy x h =
    let (from, below) = segments.at_inside junk_bytes x tidy junk_bytes-IsValid h in
    elim (dec_lt x 4112) [
      | yes lt ↦
          let waits : segments.at junk_bytes x ≡ some junk = ground (arith, from, lt) in
          cc (waits, h)
      | no ge ↦
          let unused : segments.at junk_bytes x ≡ some ahwm = ground (arith, ge, below) in
          cc (unused, h)
    ]

junk_heap-Shaped : Shaped segments pages (dllist (ℕ × ℕ)) (dllist ℕ) junk_heap
unfolding junk_heap heap init
junk_heap-Shaped = record {
  valid = junk_bytes-IsValid;
  owned = record {
    held = λ loc sz h. absurd (cc h);
    apart = λ a sa b sb h k lt. absurd (cc h);
    indexed = λ j n. (
      λ h. absurd (cc h),
      λ a. absurd (junk_no_tidy j (a.all j (omega arith) (omega (arith, a.some_there)))),
    );
  };
}

do_revoke-Shape_example :
    Shaped segments pages (dllist (ℕ × ℕ)) (dllist ℕ) (
      object
        (do_revoke segments pages (dllist (ℕ × ℕ)) (dllist ℕ) (best 16 4096 16 ∷ []) junk_heap))
do_revoke-Shape_example =
    do_revoke-Shape segments pages (dllist (ℕ × ℕ)) (dllist ℕ) (best 16 4096 16 ∷ []) junk_heap
      ((omega arith, omega arith, omega arith), tt) junk_heap-Shaped
