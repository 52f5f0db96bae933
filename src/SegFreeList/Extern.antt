-- ===== src/SegFreeList/Extern.antt =====
-- The methods of a free list whose caller knows the coalesced spans: `acod` is a function from an
-- address to the span that holds it.
use memory_alloc_analysis.Prelude.{ℕ, ◌+◌, Bool, true, false, ◌==◌, Answer, answer, and_then}
use memory_alloc_analysis.SegFreeList.Defs.{Dllist, FreeList, remove_common, insert_core}

module _ (L : Dllist (ℕ × ℕ)) (G : Dllist ℕ) where
  -- a removal whose result is dropped
  abbrev pub remove_unless : Bool → ℕ → FreeList L G → Answer (FreeList L G) Unit
  remove_unless true va m = answer tt m
  remove_unless false va m = and_then (remove_common L G va m) (λ sz m1. answer tt m1)

  unfoldable pub insert_extcoal :
      (ℕ → ℕ × ℕ) → ℕ → ℕ → Bool → FreeList L G → Answer (FreeList L G) Unit
  insert_extcoal acod va sz front m =
      let (cva, csz) = acod va in
      and_then (remove_unless (va == cva) cva m) (λ _ m1.
        and_then (remove_unless (cva + csz == va + sz) (va + sz) m1)
          (λ _ m2. answer tt (insert_core L G cva csz front m2)))
