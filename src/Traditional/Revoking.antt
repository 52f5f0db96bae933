-- ===== src/Traditional/Revoking.antt =====
-- `_do_revoke`, the objects and the TIDY list.
use memory_alloc_analysis.Prelude.{
  ℕ, ◌+◌, ◌≤◌, ◌<◌, ◌≡◌, ap, ◌∙◌, Option, none, some, List, [], ◌∷◌, All, ◌&&◌, if◌then◌else◌, leb,
  ltb, ◌-◌, arith, done, object, Bool-cases, Option-cases, inl, inr,
}
use memory_alloc_analysis.SortedDict.Items.{lookup}
use memory_alloc_analysis.IntervalMap.Defs.{Span}
use memory_alloc_analysis.IntervalMap.Counts.{holds}
use memory_alloc_analysis.IntervalMap.Interface.{ValueMap, span_inside}
use memory_alloc_analysis.IntervalMap.Slices.{Onward, Run}
use memory_alloc_analysis.IntervalMap.Listing.{Lists}
use memory_alloc_analysis.Renaming.Defs.{Space}
use memory_alloc_analysis.SegFreeList.Defs.{Dllist, FreeList}
use memory_alloc_analysis.SegFreeList.Dict.{delete}
use memory_alloc_analysis.SegFreeList.Spans.{size_at}
use memory_alloc_analysis.Clingy.Defs.{Best, no_span, best}
use memory_alloc_analysis.Traditional.States.{SegSt, ahwm, tidy, wait, junk, is_wait, PageSt}
use memory_alloc_analysis.Traditional.Defs.{Traditional, publish, unlist, mark_tidy}
use memory_alloc_analysis.Traditional.Revoke.{tidy_junk, revoke_one, revoke_all, do_revoke, ranges}
use memory_alloc_analysis.Traditional.TidyList.{mark_tidy-Indexed}
use memory_alloc_analysis.Traditional.Kept.{and_run-On}
use memory_alloc_analysis.Traditional.Sound.{Owned}

-- the spans follow one another from lo on, and f has the value of each span on it
abbrev Follow : (ℕ → Option SegSt) → ℕ → List (Span SegSt) → Type 0
Follow f lo [] = Unit
Follow f lo ((k, n, v) ∷ qs) =
    (lo ≤ k) × (0 < n) × ((x : ℕ) → k ≤ x → x < k + n → f x ≡ some v) × Follow f (k + n) qs

Onward-Follow :
    (f : ℕ → Option SegSt) (lo hi : ℕ) (qs : List (Span SegSt)) → Onward f lo hi qs → Follow f lo qs
Onward-Follow f lo hi [] r = tt
Onward-Follow f lo hi ((k, n, v) ∷ qs) r =
    (omega (arith, r.0), r.2, r.3, Onward-Follow f (k + n) hi qs r.4)

Run-Follow :
    (f : ℕ → Option SegSt) (lo hi : ℕ) (qs : List (Span SegSt)) → Run f lo hi qs → Follow f 0 qs
Run-Follow f lo hi [] r = tt
Run-Follow f lo hi ((k, n, v) ∷ qs) r =
    (omega arith, omega (arith, r.0, r.2), r.3, Onward-Follow f (k + n) hi qs r.4)

Follow-kept :
    (f g : ℕ → Option SegSt) (from lo : ℕ) (qs : List (Span SegSt))
    → from ≤ lo
    → ((x : ℕ) → from ≤ x → g x ≡ f x)
    → Follow f lo qs
    → Follow g lo qs
Follow-kept f g from lo [] le same r = tt
Follow-kept f g from lo ((k, n, v) ∷ qs) le same r = (
  r.0,
  r.1,
  λ x a c. same x (omega (arith, a, le, r.0)) ∙ r.2 x a c,
  Follow-kept f g from (k + n) qs (omega (arith, le, r.0)) same r.3,
)

module _ (A : ValueMap SegSt) (P : ValueMap PageSt) (L : Dllist (ℕ × ℕ)) (G : Dllist ℕ) where
  -- the map is valid, and the objects and the TIDY list agree with it
  pub record Shape (m : A.Map) (sizes : List (ℕ × ℕ)) (l : FreeList L G) : Type 0 where
    pub valid : A.IsValid m
    pub owned : Owned A P L G m sizes l

  abbrev pub Shaped : Traditional A P L G → Type 0
  Shaped s = Shape s.eva2sst s.eva2sz s.tidylst

  -- JUNK bytes that are no longer JUNK were no object's
  Owned-tidied :
      (m m' : A.Map) (sizes : List (ℕ × ℕ)) (l l' : FreeList L G) (k n : ℕ)
      → Owned A P L G m sizes l
      → ((x : ℕ) → k ≤ x → x < k + n → A.at m x ≡ some junk)
      → ((x : ℕ) → A.at m' x ≡ (if leb k x && ltb x (k + n) then some tidy else A.at m x))
      → Lists (A.at m') tidy (size_at L G l')
      → Owned A P L G m' sizes l'
  Owned-tidied m m' sizes l l' k n o junks changed lists = record {
    held = λ loc sz h.
        let was = o.held loc sz h in
        record {
          from = was.from;
          some_there = was.some_there;
          fits = was.fits;
          used = λ x p q. elim (Bool-cases (leb k x && ltb x (k + n))) [
            | inl within ↦ absurd (
                cc (
                  ap (holds is_wait) (junks x (ground (arith, within)) (ground (arith, within))),
                  was.used x p q,
                ))
            | inr out ↦ ap (holds is_wait) (changed x) ∙ rw out (was.used x p q)
          ];
        };
    apart = o.apart;
    indexed = lists;
  }

  mark_junk :
      (k n : ℕ) (s : Traditional A P L G)
      → Shaped s
      → 0 < n
      → ((x : ℕ) → k ≤ x → x < k + n → A.at s.eva2sst x ≡ some junk)
      → (m' : A.Map) × (l' : FreeList L G) × (mark_tidy A P L G k n s
          ≡ done (record s { eva2sst = m'; tidylst = l' }))
        × Shape m' s.eva2sz l'
        × ((x : ℕ) → k + n ≤ x → A.at m' x ≡ A.at s.eva2sst x)
  mark_junk k n s h pos junks =
      let inside =
        span_inside A s.eva2sst k n k junk h.valid (omega arith) (omega (arith, pos)) junks in
      let (m', l', did, valid', changed, lists) =
        mark_tidy-Indexed A P L G k n s h.valid h.owned.indexed inside.0 pos inside.1
          (λ x p q e. cc (e, junks x p q)) in
      (
        m',
        l',
        did,
        record {
          valid = valid';
          owned = Owned-tidied s.eva2sst m' s.eva2sz s.tidylst l' k n h.owned junks changed lists;
        },
        λ x a. changed x ∙ ground (arith, a),
      )

  tidy_junk-Shape :
      (lo : ℕ) (qs : List (Span SegSt)) (s : Traditional A P L G)
      → Shaped s
      → Follow (A.at s.eva2sst) lo qs
      → Shaped (object (tidy_junk A P L G qs s))
  unfolding tidy_junk unlist
  tidy_junk-Shape lo [] s h r = h
  tidy_junk-Shape lo ((k, n, ahwm) ∷ qs) s h r = h
  tidy_junk-Shape lo ((k, n, wait) ∷ qs) s h r = h
  tidy_junk-Shape lo ((k, n, tidy) ∷ qs) s h r = tidy_junk-Shape (k + n) qs s h r.3
  tidy_junk-Shape lo ((k, n, junk) ∷ qs) s h r = elim (Option-cases (lookup k s.junkadn)) [
    | inl gone ↦ rw (unlist, gone) h
    | inr (node, here) ↦
        let s1 = record s { junklru = L.remove node s.junklru; junkadn = delete k s.junkadn } in
        let (m', l', did, h2, kept) = mark_junk k n s1 h r.1 r.2 in
        rw (unlist, here, did)
          (tidy_junk-Shape (k + n) qs (record s1 { eva2sst = m'; tidylst = l' }) h2
            (Follow-kept (A.at s.eva2sst) (A.at m') (k + n) (k + n) qs (omega arith) kept r.3))
  ]

  -- a span to revoke lies on the map, and is not empty
  abbrev pub OnMap : Best → Type 0
  OnMap no_span = Unit
  OnMap (best nj loc sz) = (A.base ≤ loc) × (0 < sz) × (loc + sz ≤ A.limit)

  revoke_one-Shape :
      (b : Best) (s : Traditional A P L G)
      → OnMap b
      → Shaped s
      → Shaped (object (revoke_one A P L G b s))
  unfolding revoke_one
  revoke_one-Shape no_span s i h = h
  revoke_one-Shape (best nj loc sz) s i h =
      let (qs, is, run) =
        A.get_slice-at s.eva2sst loc (loc + sz) h.valid i.0 (omega (arith, i.1)) i.2 in
      rw is (
        tidy_junk-Shape 0 qs (record s { njunk = s.njunk - nj }) h
          (Run-Follow (A.at s.eva2sst) loc (loc + sz) qs run))

  revoke_all-Shape :
      (bs : List Best) (s : Traditional A P L G)
      → All OnMap bs
      → Shaped s
      → Shaped (object (revoke_all A P L G bs s))
  unfolding revoke_all
  revoke_all-Shape [] s i h = h
  revoke_all-Shape (b ∷ bs) s i h =
      and_run-On A P L G Shape (revoke_one A P L G b s) (revoke_all A P L G bs)
        (revoke_one-Shape b s i.0 h) (λ s1 h1. revoke_all-Shape bs s1 i.1 h1)

  -- Where every object of _eva2sz is of WAIT bytes and apart from the others and the index of
  -- the TIDY list has exactly the longest TIDY runs of the map, _do_revoke leaves it so, for
  -- all spans on the map, in any order, also where it raises with a part of them revoked.
  pub do_revoke-Shape :
      (bs : List Best) (s : Traditional A P L G)
      → All OnMap bs
      → Shaped s
      → Shaped (object (do_revoke A P L G bs s))
  unfolding do_revoke
  do_revoke-Shape bs s i h =
      and_run-On A P L G Shape (revoke_all A P L G bs (record s { brscache = none }))
        (λ s1. done (publish A P L G (Space.revoked (ranges bs)) s1))
        (revoke_all-Shape bs (record s { brscache = none }) i h) (λ s1 h1. h1)
