-- ===== src/Clingy/Accounts.antt =====
-- The counters of the allocator against the states of the buckets.
use memory_alloc_analysis.Prelude.{
  ℕ, ◌+◌, ◌-◌, ◌≤◌, ◌<◌, ◌≡◌, refl, Bool, true, false, ◌&&◌, some, if◌then◌else◌, leb, ltb, arith,
  done,
}
use memory_alloc_analysis.Clingy.States.{
  BuckSt, ahwm, tidy, bump, wait, junk, is_junk, is_busy, BucketMap,
}
use memory_alloc_analysis.IntervalMap.Counts.{count, holds, count_changed, count_in, count_out}
use memory_alloc_analysis.Clingy.Defs.{Clingy, mark_state}

-- the bucket was used
abbrev pub touched : BuckSt → Bool
touched ahwm = false
touched tidy = true
touched bump = true
touched wait = true
touched junk = true

module _ (B : BucketMap) where
  open B use {Map, limit, IsValid, at, mark-at}

  -- the number of buckets whose state has p
  abbrev pub total : (BuckSt → Bool) → Map → ℕ
  total p m = count p (at m) 1 (limit - 1)

  -- The numbers of buckets that are JUNK and that are in use, and the used buckets are those below
  -- hwm.
  pub record Tallied (hwm : ℕ) (m : Map) (njunkb nbwb : ℕ) : Type 0 where
    pub valid : IsValid m
    pub low : 1 ≤ hwm
    pub high : hwm ≤ limit
    pub unused : (x : ℕ) → hwm ≤ x → x < limit → at m x ≡ some ahwm
    pub used : (x : ℕ) → 1 ≤ x → x < hwm → holds touched (at m x) ≡ true
    pub junks : total is_junk m ≡ njunkb
    pub busy : total is_busy m ≡ nbwb

  abbrev pub Accounts : Clingy B → Type 0
  Accounts s = Tallied s.maxbix s.bix2state s.njunkb s.nbwb

  module _ (m m' : Map) (v : BuckSt) (lo k : ℕ) (from : 1 ≤ lo) (pos : 0 < k)
      (fits : lo + k ≤ limit)
      (changed : (x : ℕ) → at m' x ≡ (if leb lo x && ltb x (lo + k) then some v else at m x)) where
    -- a mark changes a number by what it marks and what was there
    pub total_in :
        (p : BuckSt → Bool) → p v ≡ true → total p m' + count p (at m) lo k ≡ total p m + k
    total_in p h = omega (
      arith,
      count_changed p (at m) (at m') v 1 (limit - 1) lo k from (omega arith) changed,
      count_in p (at m) (at m') v 1 (limit - 1) lo k from (omega arith) changed h,
    )

    pub total_out : (p : BuckSt → Bool) → p v ≡ false → total p m' + count p (at m) lo k ≡ total p m
    total_out p h = omega (
      arith,
      count_changed p (at m) (at m') v 1 (limit - 1) lo k from (omega arith) changed,
      count_out p (at m) (at m') v 1 (limit - 1) lo k from (omega arith) changed h,
    )

  -- a mark within the limit returns
  pub mark_state-at :
      (bix sz : ℕ) (v : BuckSt) (s : Clingy B)
      → IsValid s.bix2state
      → 1 ≤ bix
      → 0 < sz
      → bix + sz ≤ limit
      → (m' : Map) × (mark_state B bix sz v s ≡ done (record s { bix2state = m' }))
        × IsValid m'
        × ((x : ℕ) → at m' x ≡ (if leb bix x && ltb x (bix + sz) then some v else at s.bix2state x))
  unfolding mark_state
  mark_state-at bix sz v s valid from pos fits =
      let (m', is, valid', changed) = mark-at s.bix2state bix sz v valid from pos fits in
      (m', rw (mark_state, is) refl, valid', changed)
