-- ===== src/Clingy/Junking.antt =====
-- `_mark_junk` and the counters.
use memory_alloc_analysis.Prelude.{
  ℕ, ◌+◌, ◌-◌, ◌≤◌, ◌<◌, ◌≡◌, refl, sym, ap, ◌∙◌, Bool, true, false, not, ◌&&◌, ◌==◌, Option, none,
  some, if◌then◌else◌, leb, ltb, arith, Option-cases, Outcome, done, raised, and_run, object,
  Bool-cases, inl, inr, Result-cases,
}
use memory_alloc_analysis.SortedDict.Items.{lookup, erase}
use memory_alloc_analysis.Clingy.States.{
  BuckSt, ahwm, tidy, bump, wait, junk, is_junk, is_busy, BucketMap,
}
use memory_alloc_analysis.IntervalMap.Counts.{count, holds, count_none, count_all}
use memory_alloc_analysis.Clingy.Defs.{
  Clingy, mark_junk, coalesced_insert, unlist, enlist, revise_cache, count_junk, njunk, when,
  require,
}
use memory_alloc_analysis.Clingy.Accounts.{Tallied, Accounts, total_in, total_out, mark_state-at}

busy_no_junk : (o : Option BuckSt) → holds is_busy o ≡ true → holds is_junk o ≡ false
busy_no_junk none h = refl
busy_no_junk (some ahwm) h = refl
busy_no_junk (some tidy) h = refl
busy_no_junk (some bump) h = refl
busy_no_junk (some wait) h = refl
busy_no_junk (some junk) h = cc h

module _ (B : BucketMap) where
  open B use {Map, limit, IsValid, at}

  -- the buckets [bix, bix + sz) are in use
  abbrev pub InUse : Map → ℕ → ℕ → Type 0
  InUse m bix sz = (x : ℕ) → bix ≤ x → x < bix + sz → holds is_busy (at m x) ≡ true

  in_use_below :
      (hwm nj nb : ℕ) (m : Map)
      → Tallied B hwm m nj nb
      → (x : ℕ) → x < limit
      → holds is_busy (at m x) ≡ true
      → x < hwm
  in_use_below hwm nj nb m t x hi h = elim (Bool-cases (ltb x hwm)) [
    | inl lt ↦ ground arith
    | inr ge ↦ cc (h, ap (holds is_busy) (t.unused x (ground arith) hi))
  ]

  module _ (hwm nj nb : ℕ) (m m' : Map) (lo k : ℕ) (t : Tallied B hwm m nj nb) (from : 1 ≤ lo)
      (pos : 0 < k) (fits : lo + k ≤ limit) (valid : IsValid m')
      (changed : (x : ℕ) → at m' x ≡ (if leb lo x && ltb x (lo + k) then some junk else at m x))
      (used : InUse m lo k) where
    end_below : lo + k ≤ hwm
    end_below =
        let last : lo + k - 1 < hwm =
          in_use_below hwm nj nb m t (lo + k - 1) (omega arith)
            (used (lo + k - 1) (omega arith) (omega arith)) in
        omega (arith, last)

    there : count is_busy (at m) lo k ≡ k
    there = count_all is_busy (at m) lo k used

    no_junk_there : count is_junk (at m) lo k ≡ 0
    no_junk_there = count_none is_junk (at m) lo k (λ x a c. busy_no_junk (at m x) (used x a c))

    Tallied-junk : Tallied B hwm m' (nj + k) (nb - k)
    Tallied-junk = record {
      valid = valid;
      low = t.low;
      high = t.high;
      unused = λ x a c.
          let out : ltb x (lo + k) ≡ false = ground (arith, end_below) in
          changed x ∙ ground (arith, out, t.unused x a c);
      used = λ x a c. elim (Bool-cases (leb lo x && ltb x (lo + k))) [
        | inl within ↦ rw (changed x, within) refl
        | inr out ↦ rw (changed x, out) (t.used x a c)
      ];
      junks = omega (
        arith,
        total_in B m m' junk lo k from pos fits changed is_junk refl,
        no_junk_there,
        t.junks,
      );
      busy =
          omega
            (arith, total_out B m m' junk lo k from pos fits changed is_busy refl, there, t.busy);
    }

  -- the methods on the list of junk spans change none of it
  pub and_run-Accounts :
      (o : Outcome (Clingy B)) (next : Clingy B → Outcome (Clingy B))
      → Accounts B (object o)
      → ((s : Clingy B) → Accounts B s → Accounts B (object (next s)))
      → Accounts B (object (and_run o next))
  and_run-Accounts (done s) next h k = k s h
  and_run-Accounts (raised e s) next h k = h

  unlist-Accounts : (bix : ℕ) (s : Clingy B) → Accounts B s → Accounts B (object (unlist B bix s))
  unfolding unlist
  unlist-Accounts bix s acc = elim (Option-cases (lookup bix s.junkbdn)) [
    | inl gone ↦ rw (unlist, gone) acc
    | inr (node, here) ↦ elim (Option-cases (lookup node s.junklru)) [
      | inl lost ↦ rw (unlist, here, lost) acc
      | inr (span, kept) ↦ rw (unlist, here, kept) acc
    ]
  ]

  when-Accounts :
      (b : Bool) (bix : ℕ) (s : Clingy B)
      → Accounts B s
      → Accounts B (object (when B b (unlist B bix) s))
  when-Accounts true bix s acc = unlist-Accounts bix s acc
  when-Accounts false bix s acc = acc

  coalesced_insert-Accounts :
      (loc sz : ℕ) (s : Clingy B) → Accounts B s → Accounts B (object (coalesced_insert B loc sz s))
  unfolding coalesced_insert enlist
  coalesced_insert-Accounts loc sz s acc = elim (Result-cases (B.get_item loc s.bix2state)) [
    | inr (e, bad) ↦ rw (coalesced_insert, bad) acc
    | inl (q, good) ↦
        rw (coalesced_insert, good)
          (let left = when B (not (loc == q.0)) (unlist B q.0) s in
            let right = when B (not (q.0 + q.1 == loc + sz)) (unlist B (loc + sz)) in
            and_run-Accounts (and_run left right) (λ s1. done (enlist B q.0 q.1 s1))
              (and_run-Accounts left right (when-Accounts (not (loc == q.0)) q.0 s acc)
                (when-Accounts (not (q.0 + q.1 == loc + sz)) (loc + sz)))
              (λ s1 acc1. acc1))
  ]

  revise_cache-Accounts :
      (bix : ℕ) (s : Clingy B) → Accounts B s → Accounts B (object (revise_cache B bix s))
  revise_cache-Accounts bix s acc = elim (Option-cases s.brscache) [
    | inl empty ↦ rw empty acc
    | inr (b, cached) ↦ elim (Result-cases (B.get_tj bix s.bix2state)) [
      | inr (e, bad) ↦ rw (cached, bad) acc
      | inl (q, good) ↦ elim (Bool-cases (leb (njunk b) q.1)) [
        | inl large ↦ rw (cached, good, large) acc
        | inr small ↦ rw (cached, good, small) acc
      ]
    ]
  ]

  module _ (bix bsz : ℕ) (s : Clingy B) (accounts : Accounts B s) (from : 1 ≤ bix) (pos : 0 < bsz)
      (fits : bix + bsz ≤ limit) (used : InUse s.bix2state bix bsz) where
    -- the object once the buckets are marked and counted
    abbrev marked : Map → Clingy B
    marked m' = count_junk B bsz (record s { bix2szbm = erase bix s.bix2szbm; bix2state = m' })

    -- Of buckets in use, _mark_junk marks all as JUNK and counts them, also where it raises
    -- later.
    pub mark_junk-Accounts :
        (entry : ℕ × ℕ)
        → lookup bix s.bix2szbm ≡ some entry
        → Accounts B (object (mark_junk B bix bsz s))
    unfolding mark_junk
    mark_junk-Accounts entry has =
        let (k, n, w, is, le, past, same) =
          B.get_item-at s.bix2state bix accounts.valid from (omega arith) in
        let busy : is_busy w ≡ true =
          ap (holds is_busy) (sym (same bix le past)) ∙ used bix (omega arith) (omega arith) in
        let other : is_junk w ≡ false = busy_no_junk (some w) busy in
        let (m', did, valid, changed) =
          mark_state-at B bix bsz junk (record s { bix2szbm = erase bix s.bix2szbm }) accounts.valid
            from pos fits in
        let t =
          Tallied-junk s.maxbix s.njunkb s.nbwb s.bix2state m' bix bsz accounts from pos fits valid
            changed used in
        rw (mark_junk, is, other, require, has, did)
          (and_run-Accounts (revise_cache B bix (marked m')) (coalesced_insert B bix bsz)
            (revise_cache-Accounts bix (marked m') t) (coalesced_insert-Accounts bix bsz))
