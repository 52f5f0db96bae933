-- ===== src/Traditional/Balanced.antt =====
-- The counters of the allocator against its two maps.
use memory_alloc_analysis.Prelude.{
  ℕ, ◌+◌, ◌≤◌, ◌<◌, ◌≡◌, refl, ◌∙◌, max, Bool, true, false, ◌&&◌, Option, some, none, if◌then◌else◌,
  leb, ltb, arith, done, Bool-cases, inl, inr,
}
use memory_alloc_analysis.IntervalMap.Counts.{count, holds, count_none, count_all}
use memory_alloc_analysis.IntervalMap.Interface.{ValueMap, total, total_in, total_out}
use memory_alloc_analysis.SegFreeList.Defs.{Dllist}
use memory_alloc_analysis.Traditional.States.{
  SegSt, ahwm, tidy, wait, junk, is_junk, is_wait, in_at, PageSt,
}
use memory_alloc_analysis.Traditional.Defs.{Traditional, mark_segment}
use memory_alloc_analysis.Traditional.Pages.{Paged}

-- the byte was used
abbrev pub touched : SegSt → Bool
touched ahwm = false
touched tidy = true
touched wait = true
touched junk = true

module _ (A : ValueMap SegSt) where
  -- The numbers of bytes that are JUNK and that are allocated; the used bytes are those below the
  -- wilderness.
  pub record Tallied (wildern : ℕ) (m : A.Map) (njunk nwait : ℕ) : Type 0 where
    pub valid : A.IsValid m
    pub low : A.base ≤ wildern
    pub high : wildern ≤ A.limit
    pub unused : (x : ℕ) → wildern ≤ x → x < A.limit → A.at m x ≡ some ahwm
    pub used : (x : ℕ) → A.base ≤ x → x < wildern → holds touched (A.at m x) ≡ true
    pub junks : total A is_junk m ≡ njunk
    pub waits : total A is_wait m ≡ nwait

  -- [lo, lo + k) is marked as v, which reaches no further than the used bytes or goes on from them
  module _ (hwm nj nw : ℕ) (m m' : A.Map) (v : SegSt) (lo k : ℕ) (t : Tallied hwm m nj nw)
      (from : A.base ≤ lo) (fits : lo + k ≤ A.limit) (reach : lo ≤ hwm) (valid : A.IsValid m')
      (changed : (x : ℕ)
        → A.at m' x ≡ (if leb lo x && ltb x (lo + k) then some v else A.at m x)) where
    pub total_change :
        (p : SegSt → Bool)
        → total A p m' + count p (A.at m) lo k ≡ total A p m + (if p v then k else 0)
    total_change p = elim (Bool-cases (p v)) [
      | inl pass ↦ rw pass (total_in A m m' v lo k from fits changed p pass)
      | inr fail ↦ rw fail (omega (arith, total_out A m m' v lo k from fits changed p fail))
    ]

    still_unused : (x : ℕ) → max hwm (lo + k) ≤ x → x < A.limit → A.at m' x ≡ some ahwm
    still_unused x a c =
        let out : ltb x (lo + k) ≡ false = ground arith in
        changed x ∙ ground (arith, out, t.unused x (omega arith) c)

    now_used :
        touched v ≡ true
        → (x : ℕ) → A.base ≤ x
        → x < max hwm (lo + k)
        → holds touched (A.at m' x) ≡ true
    now_used h x a c = elim (Bool-cases (leb lo x && ltb x (lo + k))) [
      | inl within ↦ rw (changed x, within) h
      | inr out ↦ let below : x < hwm = ground arith in rw (changed x, out) (t.used x a below)
    ]

    -- the new counts, from those of the range
    pub Tallied-mark :
        (nj' nw' : ℕ)
        → touched v ≡ true
        → nj' + count is_junk (A.at m) lo k ≡ nj + (if is_junk v then k else 0)
        → nw' + count is_wait (A.at m) lo k ≡ nw + (if is_wait v then k else 0)
        → Tallied (max hwm (lo + k)) m' nj' nw'
    Tallied-mark nj' nw' used junks waits = record {
      valid = valid;
      low = omega (arith, t.low);
      high = omega (arith, t.high);
      unused = still_unused;
      used = now_used used;
      junks = omega (arith, total_change is_junk, t.junks, junks);
      waits = omega (arith, total_change is_wait, t.waits, waits);
    }

  -- all bytes of [loc, loc + sz) pass the test
  abbrev pub Every : (SegSt → Bool) → A.Map → ℕ → ℕ → Type 0
  Every p m loc sz = (x : ℕ) → loc ≤ x → x < loc + sz → holds p (A.at m x) ≡ true

  pub count-Every :
      (p : SegSt → Bool) (m : A.Map) (loc sz : ℕ) → Every p m loc sz → count p (A.at m) loc sz ≡ sz
  count-Every p m loc sz all = count_all p (A.at m) loc sz all

  -- no byte passes a test that excludes the other
  pub count-Every_other :
      (p q : SegSt → Bool) (m : A.Map) (loc sz : ℕ)
      → ((o : Option SegSt) → holds q o ≡ true → holds p o ≡ false)
      → Every q m loc sz
      → count p (A.at m) loc sz ≡ 0
  count-Every_other p q m loc sz apart all =
      count_none p (A.at m) loc sz (λ x a c. apart (A.at m x) (all x a c))

module _ (A : ValueMap SegSt) (P : ValueMap PageSt) (L : Dllist (ℕ × ℕ)) (G : Dllist ℕ) where
  -- _njunk, _nwait, _wildern and _nmapped agree with the maps.
  pub record Balanced (s : Traditional A P L G) : Type 0 where
    pub segments : Tallied A s.wildern s.eva2sst s.njunk s.nwait
    pub pages : Paged A P L G s.evp2pst s.nmapped

  pub mark_segment-at :
      (loc sz : ℕ) (v : SegSt) (s : Traditional A P L G)
      → A.IsValid s.eva2sst
      → A.base ≤ loc
      → 0 < sz
      → loc + sz ≤ A.limit
      → (m' : A.Map) × (mark_segment A P L G loc sz v s ≡ done (record s { eva2sst = m' }))
        × A.IsValid m'
        × ((x : ℕ)
            → A.at m' x ≡ (if leb loc x && ltb x (loc + sz) then some v else A.at s.eva2sst x))
  unfolding mark_segment
  mark_segment-at loc sz v s valid from pos fits =
      let (m', is, valid', changed) = A.mark-at s.eva2sst loc sz v valid from pos fits in
      (m', rw (mark_segment, is) refl, valid', changed)

-- which states exclude which
pub free_no_junk : (o : Option SegSt) → holds in_at o ≡ true → holds is_junk o ≡ false
free_no_junk none h = refl
free_no_junk (some ahwm) h = refl
free_no_junk (some tidy) h = refl
free_no_junk (some wait) h = refl
free_no_junk (some junk) h = cc h

pub free_no_wait : (o : Option SegSt) → holds in_at o ≡ true → holds is_wait o ≡ false
free_no_wait none h = refl
free_no_wait (some ahwm) h = refl
free_no_wait (some tidy) h = refl
free_no_wait (some wait) h = cc h
free_no_wait (some junk) h = refl

pub wait_no_junk : (o : Option SegSt) → holds is_wait o ≡ true → holds is_junk o ≡ false
wait_no_junk none h = refl
wait_no_junk (some ahwm) h = refl
wait_no_junk (some tidy) h = refl
wait_no_junk (some wait) h = refl
wait_no_junk (some junk) h = cc h

pub junk_no_wait : (o : Option SegSt) → holds is_junk o ≡ true → holds is_wait o ≡ false
junk_no_wait none h = refl
junk_no_wait (some ahwm) h = refl
junk_no_wait (some tidy) h = refl
junk_no_wait (some wait) h = cc h
junk_no_wait (some junk) h = refl
