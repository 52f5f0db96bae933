-- ===== src/Traditional/Reached.antt =====
-- A new allocator, and its methods one after the other.
use memory_alloc_analysis.Prelude.{
  ℕ, ◌+◌, ◌-◌, ◌*◌, ◌^◌, ◌≤◌, ◌<◌, ◌≡◌, ◌≢◌, refl, ap, ◌∙◌, subst, Bool, false, some, All, arith,
  object, answer,
}
use memory_alloc_analysis.IntervalMap.Counts.{holds, count_none}
use memory_alloc_analysis.IntervalMap.Interface.{ValueMap, total}
use memory_alloc_analysis.SegFreeList.Defs.{Dllist, init, iterfor}
use memory_alloc_analysis.SegFreeList.Spans.{size_at}
use memory_alloc_analysis.Traditional.States.{
  SegSt, ahwm, tidy, is_junk, is_wait, PageSt, umap, is_mapd, pagelog,
}
use memory_alloc_analysis.Traditional.Defs.{Options, Traditional, new_traditional}
use memory_alloc_analysis.Traditional.Alloc.{alloc, request_size}
use memory_alloc_analysis.Traditional.Free.{free, free_unsafe}
use memory_alloc_analysis.Traditional.Balanced.{Balanced}
use memory_alloc_analysis.Traditional.Sound.{Sound}
use memory_alloc_analysis.Traditional.Freed.{free-Sound, free_unsafe-Sound}
use memory_alloc_analysis.Traditional.Allotted.{alloc-Sound}

module _ {V : Type 0} (M : ValueMap V) where
  -- a map with one value
  pub record Uniform (m : M.Map) (v : V) : Type 0 where
    pub valid : M.IsValid m
    pub same : (x : ℕ) → M.base ≤ x → x < M.limit → M.at m x ≡ some v

  total-Uniform :
      (m : M.Map) (v : V) (p : V → Bool)
      → M.base ≤ M.limit
      → Uniform m v
      → p v ≡ false
      → total M p m ≡ 0
  total-Uniform m v p le u fails =
      count_none p (M.at m) M.base (M.limit - M.base)
        (λ x a c. ap (holds p) (u.same x a (omega (arith, c, le))) ∙ fails)

module _ (A : ValueMap SegSt) (P : ValueMap PageSt) (L : Dllist (ℕ × ℕ)) (G : Dllist ℕ) where
  -- The maps of __init__ have one state each.
  pub record Unused (m : A.Map) (p : P.Map) : Type 0 where
    pub segments : Uniform A m ahwm
    pub pages : Uniform P p umap

  module _ (le : A.base ≤ A.limit) (page_le : P.base ≤ P.limit) (m : A.Map) (p : P.Map)
      (u : Unused m p) where
    new-Balanced : Balanced A P L G (new_traditional A P L G m p)
    unfolding new_traditional
    new-Balanced = record {
      segments = record {
        valid = u.segments.valid;
        low = omega arith;
        high = le;
        unused = λ x a c. u.segments.same x a c;
        used = λ x a c. absurd (omega (arith, a, c));
        junks = total-Uniform A m ahwm is_junk le u.segments refl;
        waits = total-Uniform A m ahwm is_wait le u.segments refl;
      };
      pages = record {
        valid = u.pages.valid;
        bytes = rw (total-Uniform P p umap is_mapd page_le u.pages refl) refl;
      };
    }

    no_tidy : (x : ℕ) → A.at m x ≢ some tidy
    no_tidy x h =
        let (from, below) = A.at_inside m x tidy u.segments.valid h in
        cc (h, u.segments.same x from below)

    new-Sound : Sound A P L G (new_traditional A P L G m p)
    unfolding new_traditional init
    new-Sound = record {
      balanced = new-Balanced;
      owned = record {
        held = λ loc sz h. absurd (cc h);
        apart = λ a sa b sb h k lt. absurd (cc h);
        indexed = λ j n. (
          λ h. absurd (cc h),
          λ a. absurd (no_tidy j (a.all j (omega arith) (omega (arith, a.some_there)))),
        );
      };
    }

  -- What the methods make of a new allocator. An allocation is one for which the wilderness has
  -- room, and iterfor yields spans of the index; a call that frees may be of any address, and may
  -- raise.
  pub data Reached (o : Options) : Traditional A P L G → Type 0 where
    new : (m : A.Map) (p : P.Map) → Unused m p → Reached o (new_traditional A P L G m p)
    allocated :
        (s s' : Traditional A P L G) (sz loc n : ℕ)
        → Reached o s
        → s.wildern + request_size o sz ≤ A.limit
        → All
            (λ q. size_at L G s.tidylst q.0 ≡ some q.1)
            (iterfor L G s.tidylst (request_size o sz) 16)
        → alloc A P L G o sz s ≡ answer (loc, n) s'
        → Reached o s'
    freed :
        (s : Traditional A P L G) (loc : ℕ) → Reached o s → Reached o (object (free A P L G loc s))
    tidied :
        (s : Traditional A P L G) (loc : ℕ)
        → Reached o s
        → Reached o (object (free_unsafe A P L G loc s))

  module _ (start : A.base ≡ P.base * 2 ^ pagelog) (stop : A.limit ≡ P.limit * 2 ^ pagelog)
      (le : A.base ≤ A.limit) (page_le : P.base ≤ P.limit) (o : Options) (pos : 0 < o.minsize) where
    -- In every state that allocations and both ways to free make of a new allocator, where an
    -- allocation has room at the wilderness and iterfor yields spans of the index, _njunk,
    -- _nwait, _nmapped and the wilderness agree with the maps, every object of _eva2sz is of
    -- WAIT bytes, no two objects overlap, and the index of the TIDY list has exactly the
    -- longest TIDY runs of the map.
    pub Reached-Sound : (s : Traditional A P L G) → Reached o s → Sound A P L G s
    Reached-Sound s (new m p u) = new-Sound le page_le m p u
    Reached-Sound s' (allocated s _ sz loc n before room listed is) =
        let (loc', s1, did, _, sound) =
          alloc-Sound A P L G s (Reached-Sound s before) start stop o sz pos room listed in
        let same : s1 ≡ s' = ground (arith, is, did) in subst (Sound A P L G) same sound
    Reached-Sound s' (freed s loc before) =
        free-Sound A P L G start stop loc s (Reached-Sound s before)
    Reached-Sound s' (tidied s loc before) =
        free_unsafe-Sound A P L G start stop loc s (Reached-Sound s before)
