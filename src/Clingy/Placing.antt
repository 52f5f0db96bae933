-- ===== src/Clingy/Placing.antt =====
-- `_mark_allocated` and the counters.
use memory_alloc_analysis.Prelude.{
  ℕ, ◌+◌, ◌-◌, ◌≤◌, ◌<◌, ◌≡◌, refl, sym, ap, ◌∙◌, max, true, false, ◌&&◌, Option, none, some,
  if◌then◌else◌, leb, ltb, arith, done, Bool-cases, inl, inr, subst, outside_range,
}
use memory_alloc_analysis.Clingy.States.{
  BuckSt, ahwm, tidy, bump, wait, junk, is_junk, is_busy, in_at, BucketMap,
}
use memory_alloc_analysis.IntervalMap.Counts.{count, holds, count_none}
use memory_alloc_analysis.Clingy.Defs.{Clingy, mark_state, mark_placed, mark_allocated}
use memory_alloc_analysis.Clingy.Accounts.{
  touched, Tallied, Accounts, total_in, total_out, mark_state-at,
}

-- a bucket that may be given out is neither JUNK nor in use
free_no_junk : (o : Option BuckSt) → holds in_at o ≡ true → holds is_junk o ≡ false
free_no_junk none h = refl
free_no_junk (some ahwm) h = refl
free_no_junk (some tidy) h = refl
free_no_junk (some bump) h = refl
free_no_junk (some wait) h = refl
free_no_junk (some junk) h = cc h

free_no_busy : (o : Option BuckSt) → holds in_at o ≡ true → holds is_busy o ≡ false
free_no_busy none h = refl
free_no_busy (some ahwm) h = refl
free_no_busy (some tidy) h = refl
free_no_busy (some bump) h = cc h
free_no_busy (some wait) h = cc h
free_no_busy (some junk) h = refl

busy_no_junk : (v : BuckSt) → is_busy v ≡ true → is_junk v ≡ false
busy_no_junk ahwm h = refl
busy_no_junk tidy h = refl
busy_no_junk bump h = refl
busy_no_junk wait h = refl
busy_no_junk junk h = cc h

busy_touched : (v : BuckSt) → is_busy v ≡ true → touched v ≡ true
busy_touched ahwm h = cc h
busy_touched tidy h = refl
busy_touched bump h = refl
busy_touched wait h = refl
busy_touched junk h = refl

module _ (B : BucketMap) where
  open B use {Map, limit, IsValid, at}

  -- the buckets [bix, bix + sz) are TIDY or AHWM
  abbrev pub Free : Map → ℕ → ℕ → Type 0
  Free m bix sz = (x : ℕ) → bix ≤ x → x < bix + sz → holds in_at (at m x) ≡ true

  -- [lo, lo + k) is marked as v, which reaches no further than the used buckets or goes on from them
  module _ (hwm nj nb : ℕ) (m m' : Map) (v : BuckSt) (lo k : ℕ) (t : Tallied B hwm m nj nb)
      (from : 1 ≤ lo) (pos : 0 < k) (fits : lo + k ≤ limit) (reach : lo ≤ hwm) (valid : IsValid m')
      (changed : (x : ℕ) → at m' x ≡ (if leb lo x && ltb x (lo + k) then some v else at m x))
      (free : Free m lo k) where
    still_unused : (x : ℕ) → max hwm (lo + k) ≤ x → x < limit → at m' x ≡ some ahwm
    still_unused x a c =
        let out : ltb x (lo + k) ≡ false = ground arith in
        changed x ∙ ground (arith, out, t.unused x (omega arith) c)

    now_used :
        touched v ≡ true → (x : ℕ) → 1 ≤ x → x < max hwm (lo + k) → holds touched (at m' x) ≡ true
    now_used h x a c = elim (Bool-cases (leb lo x && ltb x (lo + k))) [
      | inl within ↦ rw (changed x, within) h
      | inr out ↦ let below : x < hwm = ground arith in rw (changed x, out) (t.used x a below)
    ]

    no_junk_there : count is_junk (at m) lo k ≡ 0
    no_junk_there = count_none is_junk (at m) lo k (λ x a c. free_no_junk (at m x) (free x a c))

    no_busy_there : count is_busy (at m) lo k ≡ 0
    no_busy_there = count_none is_busy (at m) lo k (λ x a c. free_no_busy (at m x) (free x a c))

    Tallied-use : is_busy v ≡ true → Tallied B (max hwm (lo + k)) m' nj (nb + k)
    Tallied-use h = record {
      valid = valid;
      low = omega (arith, t.low);
      high = omega (arith, t.high);
      unused = still_unused;
      used = now_used (busy_touched v h);
      junks = omega (
        arith,
        total_out B m m' v lo k from pos fits changed is_junk (busy_no_junk v h),
        no_junk_there,
        t.junks,
      );
      busy =
          omega
            (arith, total_in B m m' v lo k from pos fits changed is_busy h, no_busy_there, t.busy);
    }

    Tallied-tidy : v ≡ tidy → Tallied B (max hwm (lo + k)) m' nj nb
    Tallied-tidy h = record {
      valid = valid;
      low = omega (arith, t.low);
      high = omega (arith, t.high);
      unused = still_unused;
      used = now_used (ap touched h);
      junks = omega (
        arith,
        total_out B m m' v lo k from pos fits changed is_junk (ap is_junk h),
        no_junk_there,
        t.junks,
      );
      busy = omega (
        arith,
        total_out B m m' v lo k from pos fits changed is_busy (ap is_busy h),
        no_busy_there,
        t.busy,
      );
    }

  -- What `_mark_allocated` does to the states, the gap below the new buckets included.
  abbrev pub placed : Clingy B → ℕ → ℕ → BuckSt → ℕ → Option BuckSt
  placed s req sz nst x =
      if leb req x && ltb x (req + sz)
      then some nst
      else if leb s.maxbix x && ltb x req
      then some tidy
      else at s.bix2state x

  -- the buckets are marked, with none between them and those in use so far
  module _ (hwm req sz : ℕ) (nst : BuckSt) (s : Clingy B) (from : 1 ≤ req) (pos : 0 < sz)
      (fits : req + sz ≤ limit) (is_use : is_busy nst ≡ true) where
    mark_placed-Accounts :
        Tallied B hwm s.bix2state s.njunkb s.nbwb
        → req ≤ hwm
        → max s.maxbix (req + sz) ≡ max hwm (req + sz)
        → Free s.bix2state req sz
        → (s' : Clingy B) × (mark_placed B req sz nst s ≡ done s')
          × Accounts B s'
          × (s'.bix2szbm ≡ s.bix2szbm)
          × ((x : ℕ)
              → at s'.bix2state x
                ≡ (if leb req x && ltb x (req + sz) then some nst else at s.bix2state x))
    unfolding mark_placed
    mark_placed-Accounts t reach top free =
        let (m', is, valid, changed) = mark_state-at B req sz nst _ t.valid from pos fits in
        (
          _,
          is,
          subst (λ n. Tallied B n m' s.njunkb (s.nbwb + sz)) (sym top)
              (Tallied-use hwm s.njunkb s.nbwb s.bix2state m' nst req sz t from pos fits reach valid
                changed free is_use),
          refl,
          changed,
        )

  module _ (req sz : ℕ) (nst : BuckSt) (s : Clingy B) (accounts : Accounts B s) (from : 1 ≤ req)
      (pos : 0 < sz) (fits : req + sz ≤ limit) (is_use : is_busy nst ≡ true)
      (free : Free s.bix2state req sz) where
    -- the mark of the gap
    fill_gap :
        s.maxbix < req
        → (m' : Map) × (mark_state B s.maxbix (req - s.maxbix) tidy s
            ≡ done (record s { bix2state = m' }))
          × Tallied B req m' s.njunkb s.nbwb
          × ((x : ℕ)
              → at m' x ≡ (if leb s.maxbix x && ltb x req then some tidy else at s.bix2state x))
    fill_gap gap =
        let (m', is, valid, changed) =
          mark_state-at B s.maxbix (req - s.maxbix) tidy s accounts.valid accounts.low (omega arith)
            (omega arith) in
        let up : s.maxbix + (req - s.maxbix) ≡ req = omega arith in
        let top : max s.maxbix (s.maxbix + (req - s.maxbix)) ≡ req = omega arith in
        (
          m',
          is,
          subst (λ n. Tallied B n m' s.njunkb s.nbwb) top
              (Tallied-tidy s.maxbix s.njunkb s.nbwb s.bix2state m' tidy s.maxbix (req - s.maxbix)
                accounts accounts.low (omega arith) (omega arith) (omega arith) valid changed
                (λ x a c. rw (accounts.unused x a (omega arith)) refl) refl),
          λ x. changed x ∙ rw up refl,
        )

    -- Where the counters agree with the states and the buckets are TIDY or AHWM,
    -- _mark_allocated returns, the counters still agree, the buckets have the new state, those
    -- between them and the used ones are TIDY, and all others keep their state.
    pub mark_allocated-Accounts :
        (s' : Clingy B) × (mark_allocated B req sz nst s ≡ done s')
        × Accounts B s'
        × (s'.bix2szbm ≡ s.bix2szbm)
        × ((x : ℕ) → at s'.bix2state x ≡ placed s req sz nst x)
    unfolding mark_allocated
    mark_allocated-Accounts = elim (Bool-cases (ltb s.maxbix req)) [
      | inl gap ↦
          let lt : s.maxbix < req = ground arith in
          let (m', is, t, filled) = fill_gap lt in
          let (s', did, acc, kept, changed) =
            mark_placed-Accounts req req sz nst (record s { bix2state = m' }) from pos fits is_use t
              (omega arith) (omega arith)
              (λ x a c.
                rw (filled x, outside_range s.maxbix req x (some tidy) (at s.bix2state x) (inl a))
                  (free x a c)) in
          (s', rw (mark_allocated, gap, is) did, acc, kept, λ x. changed x ∙ rw (filled x) refl)
      | inr no_gap ↦
          let le : req ≤ s.maxbix = ground arith in
          let (s', did, acc, kept, changed) =
            mark_placed-Accounts s.maxbix req sz nst s from pos fits is_use accounts le refl free in
          (
            s',
            rw (mark_allocated, no_gap) did,
            acc,
            kept,
            λ x.
                changed x
                ∙ ap (λ o. if leb req x && ltb x (req + sz) then some nst else o)
                    (sym
                      (outside_range s.maxbix req x (some tidy) (at s.bix2state x) (inr (inl le)))),
          )
    ]
