-- ===== src/Traditional/Allotted.antt =====
-- `_alloc` and the state of the allocator as a whole.
use memory_alloc_analysis.Prelude.{
  ℕ, ◌+◌, ◌*◌, ◌^◌, ◌≤◌, ◌<◌, ◌≡◌, refl, sym, ap, ◌∙◌, subst, some, List, [], ◌∷◌, All, ◌⊎◌, ◌&&◌,
  leb, ltb, arith, answer, Bool-cases, Option-cases, inl, inr,
}
use native.Mathlib.Decide.{dec_lt}
use memory_alloc_analysis.SortedDict.Items.{lookup}
use memory_alloc_analysis.IntervalMap.Counts.{holds}
use memory_alloc_analysis.IntervalMap.Interface.{ValueMap}
use memory_alloc_analysis.IntervalMap.Maximal.{Maximal, same_run}
use memory_alloc_analysis.SegFreeList.Dict.{set, lookup-set}
use memory_alloc_analysis.SegFreeList.Defs.{Dllist, iterfor}
use memory_alloc_analysis.SegFreeList.Spans.{size_at, either}
use memory_alloc_analysis.Traditional.States.{SegSt, tidy, is_wait, PageSt, pagelog}
use memory_alloc_analysis.Traditional.Defs.{Options, Traditional}
use memory_alloc_analysis.Traditional.Alloc.{alloc, request_size}
use memory_alloc_analysis.Traditional.Balanced.{free_no_wait}
use memory_alloc_analysis.Traditional.Freeing.{Held}
use memory_alloc_analysis.Traditional.Placing.{Listed, Allocated}
use memory_alloc_analysis.Traditional.Served.{alloc-Allocated}
use memory_alloc_analysis.Traditional.TidyList.{item-Maximal}
use memory_alloc_analysis.Traditional.Sound.{Sound}

module _ (A : ValueMap SegSt) (P : ValueMap PageSt) (L : Dllist (ℕ × ℕ)) (G : Dllist ℕ)
    (s : Traditional A P L G) (sound : Sound A P L G s) where
  -- a span of the index is a TIDY span of the map
  size-Listed : (loc n : ℕ) → size_at L G s.tidylst loc ≡ some n → Listed A P L G s loc n
  size-Listed loc n has = elim (Option-cases (lookup loc s.tidylst.adns)) [
    | inl gone ↦ absurd (ground (arith, has, gone))
    | inr (node, there) ↦
        let valid = sound.balanced.segments.valid in
        let run = (sound.owned.indexed loc n).0 has in
        let here = run.all loc (omega arith) (omega (arith, run.some_there)) in
        let (from, below) = A.at_inside s.eva2sst loc tidy valid here in
        let (k, e, w, is, le, past, all) = A.get_item-at s.eva2sst loc valid from below in
        let state : some w ≡ some tidy = sym (all loc le past) ∙ here in
        let item : Maximal (A.at s.eva2sst) tidy k e =
          subst (λ u. Maximal (A.at s.eva2sst) u k e) (cc state)
            (item-Maximal A P L G s.eva2sst loc k e w valid from below is) in
        let (start, size) =
          same_run (A.at s.eva2sst) tidy k e loc n loc item run le past (omega arith)
            (omega (arith, run.some_there)) in
        record {
          node = node;
          indexed = there;
          sized = ground (arith, has, there);
          from = from;
          below = below;
          span = is ∙ ground (arith, start, size, state);
        }
  ]

  sizes-Listed :
      (qs : List (ℕ × ℕ))
      → All (λ q. size_at L G s.tidylst q.0 ≡ some q.1) qs
      → All (λ q. Listed A P L G s q.0 q.1) qs
  sizes-Listed [] h = tt
  sizes-Listed (q ∷ qs) h = (size-Listed q.0 q.1 h.0, sizes-Listed qs h.1)

  module _ (s' : Traditional A P L G) (loc sz : ℕ) (a : Allocated A P L G s loc sz s') where
    -- an object and the new range have no byte in common
    no_shared :
        (b sb x : ℕ) → Held A P L G s.eva2sst b sb → b ≤ x → x < b + sb → loc ≤ x → x < loc + sz → ⊥
    no_shared b sb x h p q r t = cc (h.used x p q, free_no_wait (A.at s.eva2sst x) (a.free x r t))

    entry :
        (b sb : ℕ)
        → lookup b s'.eva2sz ≡ some sb
        → ((b ≡ loc) × (sz ≡ sb)) ⊎ (((b ≡ loc) → ⊥) × (lookup b s.eva2sz ≡ some sb))
    entry b sb h =
        let table : lookup b s'.eva2sz ≡ lookup b (set loc sz s.eva2sz) = ap (lookup b) a.entered in
        either b loc (lookup b s.eva2sz) sb sz (sym (lookup-set b loc sz s.eva2sz) ∙ sym table ∙ h)

    held_now : (b sb : ℕ) → lookup b s'.eva2sz ≡ some sb → Held A P L G s'.eva2sst b sb
    held_now b sb h = elim (entry b sb h) [
      | inl (at, size) ↦ record {
        from = omega (arith, a.inside.0, at);
        some_there = omega (arith, a.inside.1, size);
        fits = omega (arith, a.inside.2, at, size);
        used = λ x p q. ap (holds is_wait) (a.states x) ∙ ground (arith, p, q, at, size);
      }
      | inr (other, e) ↦
          let was = sound.owned.held b sb e in
          record {
            from = was.from;
            some_there = was.some_there;
            fits = was.fits;
            used = λ x p q.
                ap (holds is_wait) (a.states x)
                ∙ elim (Bool-cases (leb loc x && ltb x (loc + sz))) [
                  | inl within ↦ rw within refl
                  | inr out ↦ rw out (was.used x p q)
                ];
          }
    ]

    apart_now :
        (b sb c sc : ℕ)
        → lookup b s'.eva2sz ≡ some sb
        → lookup c s'.eva2sz ≡ some sc
        → b < c
        → b + sb ≤ c
    apart_now b sb c sc h k lt = elim (entry b sb h) [
      | inl (at, size) ↦ elim (entry c sc k) [
        | inl (at', size') ↦ absurd (omega (arith, at, at', lt))
        | inr (other, e) ↦ elim (dec_lt c (b + sb)) [
          | no ge ↦ omega (arith, ge)
          | yes less ↦
              let was = sound.owned.held c sc e in
              absurd (
                no_shared c sc c was (omega arith) (omega (arith, was.some_there))
                  (omega (arith, lt, at)) (omega (arith, less, at, size)))
        ]
      ]
      | inr (other, e) ↦ elim (entry c sc k) [
        | inr (other', e') ↦ sound.owned.apart b sb c sc e e' lt
        | inl (at, size) ↦ elim (dec_lt c (b + sb)) [
          | no ge ↦ omega (arith, ge)
          | yes less ↦ absurd (
              no_shared b sb c (sound.owned.held b sb e) (omega (arith, lt)) less
                (omega (arith, at)) (omega (arith, at, a.inside.1)))
        ]
      ]
    ]

    Allocated-Sound : Sound A P L G s'
    Allocated-Sound = record {
      balanced = a.balanced;
      owned = record {
        held = held_now;
        apart = apart_now;
        indexed = a.indexed sound.owned.indexed;
      };
    }

  -- Where the state is sound, the wilderness has room and the spans that iterfor yields for the size
  -- are in the index with their sizes, _alloc returns a range of the size that request_size gives;
  -- the range was free and no object overlaps it, it is WAIT and entered with its size, its pages
  -- are MAPD, no other byte or page has changed its state, and the state is sound again.
  pub alloc-Sound :
      (start : A.base ≡ P.base * 2 ^ pagelog) (stop : A.limit ≡ P.limit * 2 ^ pagelog) (o : Options)
      (sz : ℕ)
      → 0 < o.minsize
      → s.wildern + request_size o sz ≤ A.limit
      → All
          (λ q. size_at L G s.tidylst q.0 ≡ some q.1)
          (iterfor L G s.tidylst (request_size o sz) 16)
      → (loc : ℕ) × (s' : Traditional A P L G) × (alloc A P L G o sz s
          ≡ answer (loc, request_size o sz) s')
        × Allocated A P L G s loc (request_size o sz) s'
        × Sound A P L G s'
  alloc-Sound start stop o sz pos room listed =
      let (loc, s', did, a) =
        alloc-Allocated A P L G start stop s sound.balanced o sz pos room
          (sizes-Listed (iterfor L G s.tidylst (request_size o sz) 16) listed) in
      (loc, s', did, a, Allocated-Sound s' loc (request_size o sz) a)
