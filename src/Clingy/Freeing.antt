-- ===== src/Clingy/Freeing.antt =====
-- `_free` and the counters.
use memory_alloc_analysis.Prelude.{
  ℕ, ◌+◌, ◌-◌, ◌/◌, ◌%◌, ◌^◌, ◌≤◌, ◌<◌, ◌≡◌, ◌≢◌, refl, sym, Bool, true, false, not, ◌&&◌, ◌==◌,
  some, if◌then◌else◌, leb, ltb, arith, Option-cases, Outcome, done, raised, and_run, object,
  Bool-cases, inl, inr, Result, ok, err, Result-cases, assertion_error, subst,
}
use memory_alloc_analysis.SortedDict.Items.{lookup}
use memory_alloc_analysis.IntervalMap.Defs.{Span}
use memory_alloc_analysis.Renaming.Defs.{unmapd}
use memory_alloc_analysis.Clingy.Sizes.{is_small, maxoix, bix2va, va2bix, sz2nbucks}
use memory_alloc_analysis.Clingy.States.{BuckSt, is_busy, BucketMap}
use memory_alloc_analysis.Clingy.Defs.{Clingy, publish}
use memory_alloc_analysis.Clingy.Alloc.{Policy, has_bit, or_empty}
use memory_alloc_analysis.Clingy.Free.{
  free, free_bix, free_small, free_large, free_bit, check_bump, has_key, is_wait, is_bump,
}
use memory_alloc_analysis.Clingy.Accounts.{Accounts}
use memory_alloc_analysis.Clingy.Junking.{InUse, mark_junk-Accounts, and_run-Accounts}

module _ (B : BucketMap) where
  -- an object or a bucket of objects at bix, on buckets in use
  pub record Holding (s : Clingy B) (bix sz : ℕ) : Type 0 where
    pub first : 1 ≤ bix
    pub some_size : 0 < sz
    pub fits : bix + sz2nbucks sz ≤ B.limit
    pub used : InUse B s.bix2state bix (sz2nbucks sz)

  -- every entry of `_bix2szbm` is of buckets in use
  pub record Backed (s : Clingy B) : Type 0 where
    pub holding : (bix sz bm : ℕ) → lookup bix s.bix2szbm ≡ some (sz, bm) → Holding s bix sz

  module _ {E : Type 0} (P : Policy E) (event : E)
      (junks : (bix bsz : ℕ) → P.on_bucket_free bix bsz ≢ some false) where
    free_bix-Accounts :
        (bix bsz : ℕ) (s : Clingy B) (entry : ℕ × ℕ)
        → Accounts B s
        → 1 ≤ bix
        → 0 < bsz
        → bix + bsz ≤ B.limit
        → InUse B s.bix2state bix bsz
        → lookup bix s.bix2szbm ≡ some entry
        → Accounts B (object (free_bix B P bix bsz s))
    unfolding free_bix
    free_bix-Accounts bix bsz s entry acc from pos fits used has =
        elim (Option-cases (P.on_bucket_free bix bsz)) [
          | inl stays ↦ rw (free_bix, stays) acc
          | inr (true, junk_it) ↦
              rw (free_bix, junk_it)
                (mark_junk-Accounts B bix bsz s acc from pos fits used entry has)
          | inr (false, tidy_it) ↦ absurd (junks bix bsz tidy_it)
        ]

    -- a check returns or raises, and changes nothing
    check_bump_same : (sz bix bitix : ℕ) (s : Clingy B) → object (check_bump B P sz bix bitix s) ≡ s
    unfolding check_bump
    check_bump_same sz bix bitix s = elim (Option-cases (lookup sz s.szbix2ap)) [
      | inl gone ↦ rw (check_bump, gone) refl
      | inr (bbs, here) ↦ elim (Option-cases (lookup bix bbs)) [
        | inl lost ↦ rw (check_bump, here, lost) refl
        | inr (bbap, kept) ↦ elim (Bool-cases (ltb bitix bbap)) [
          | inl below ↦ rw (check_bump, here, kept, below) refl
          | inr beyond ↦ rw (check_bump, here, kept, beyond) refl
        ]
      ]
    ]

    checked-Accounts :
        (o : Outcome (Clingy B)) (next : Clingy B → Outcome (Clingy B)) (s : Clingy B)
        → object o ≡ s
        → Accounts B s
        → Accounts B (object (next s))
        → Accounts B (object (and_run o next))
    checked-Accounts (done s1) next s eq acc h =
        subst (λ r. Accounts B (object (next r))) (sym eq) h
    checked-Accounts (raised e s1) next s eq acc h = subst (Accounts B) (sym eq) acc

    if_same :
        (b : Bool) (o : Outcome (Clingy B)) (s : Clingy B)
        → object o ≡ s
        → object (if b then o else done s) ≡ s
    if_same true o s h = h
    if_same false o s h = refl

    read-Accounts :
        (r : Result ℕ) (next : ℕ → Clingy B → Outcome (Clingy B)) (s : Clingy B)
        → Accounts B s
        → ((n : ℕ) → Accounts B (object (next n s)))
        → Accounts B (object (elim r [ err e ↦ raised e s | ok n ↦ next n s ]))
    read-Accounts (ok n) next s acc h = h n
    read-Accounts (err e) next s acc h = acc

    if-Accounts :
        (b : Bool) (x y : Outcome (Clingy B))
        → Accounts B (object x)
        → Accounts B (object y)
        → Accounts B (object (if b then x else y))
    if-Accounts true x y h k = h
    if-Accounts false x y h k = k

    module _ (bix sz bbm : ℕ) (s : Clingy B) (acc : Accounts B s) (hold : Holding s bix sz)
        (entry : ℕ × ℕ) (has : lookup bix s.bix2szbm ≡ some entry) where
      some_buckets : 0 < sz2nbucks sz
      unfolding sz2nbucks
      some_buckets = omega (arith, hold.some_size)

      free_large-Accounts :
          (span : Span BuckSt) → Accounts B (object (free_large B P event bix sz span s))
      unfolding free_large
      free_large-Accounts span =
          if-Accounts
            (is_wait span.2 && (leb span.0 bix && leb (bix + sz2nbucks sz) (span.0 + span.1))) _
            (raised assertion_error s)
            (and_run-Accounts B (free_bix B P bix (sz2nbucks sz) s)
              (λ s1. done (publish B (unmapd (bix2va bix) (bix2va (bix + sz2nbucks sz))) s1))
              (free_bix-Accounts bix (sz2nbucks sz) s entry acc hold.first some_buckets hold.fits
                hold.used has)
              (λ s1 acc1. acc1))
            acc

      free_bit-Accounts :
          (spanst : BuckSt) (most : ℕ)
          → Accounts B (object (free_bit B P event bix sz bbm spanst most s))
      unfolding free_bit
      free_bit-Accounts spanst most =
          if-Accounts (bbm == 2 ^ most - 1) _ _
            (if-Accounts (not (has_key B P bix (or_empty (lookup sz s.szbix2ap))) && is_wait spanst)
              _ (raised assertion_error s)
              (and_run-Accounts B (free_bix B P bix 1 s)
                (λ s1. done (publish B (unmapd (bix2va bix) (bix2va (bix + 1))) s1))
                (free_bix-Accounts bix 1 s entry acc hold.first (omega arith)
                  (omega (arith, hold.fits, some_buckets))
                  (λ x a c. hold.used x a (omega (arith, some_buckets))) has)
                (λ s1 acc1. acc1))
              acc)
            acc

    module _ (eva bix sz bbm : ℕ) (s : Clingy B) (acc : Accounts B s) (hold : Holding s bix sz)
        (entry : ℕ × ℕ) (has : lookup bix s.bix2szbm ≡ some entry) where
      abbrev after_checks : BuckSt → Clingy B → Outcome (Clingy B)
      unfolding free_bit
      after_checks spanst s1 = elim (maxoix sz) [
        | err e ↦ raised e s1
        | ok most ↦ free_bit B P event bix sz (bbm + 2 ^ ((eva - bix2va bix) / sz)) spanst most s1
      ]

      after_checks-Accounts : (spanst : BuckSt) → Accounts B (object (after_checks spanst s))
      unfolding after_checks
      after_checks-Accounts spanst =
          read-Accounts (maxoix sz)
            (λ most. free_bit B P event bix sz (bbm + 2 ^ ((eva - bix2va bix) / sz)) spanst most) s
            acc
            (free_bit-Accounts bix sz (bbm + 2 ^ ((eva - bix2va bix) / sz)) s acc hold entry has
              spanst)

      free_small-Accounts :
          (spanst : BuckSt) → Accounts B (object (free_small B P event eva bix sz bbm spanst s))
      unfolding free_small
      free_small-Accounts spanst =
          let bitix = (eva - bix2va bix) / sz in
          if-Accounts ((eva - bix2va bix) % sz == 0 && not (has_bit bbm bitix)) _
            (raised assertion_error s)
            (checked-Accounts (if is_bump spanst then check_bump B P sz bix bitix s else done s)
              (after_checks spanst) s
              (if_same (is_bump spanst) (check_bump B P sz bix bitix s) s
                (check_bump_same sz bix bitix s))
              acc (after_checks-Accounts spanst))
            acc

    -- Where the counters agree with the states, every entry is of buckets in use, and no
    -- bucket is made TIDY at once, _free leaves the counters in agreement, for every address,
    -- also where it raises.
    pub free-Accounts :
        (eva : ℕ) (s : Clingy B)
        → Accounts B s
        → Backed s
        → Accounts B (object (free B P event eva s))
    unfolding free
    free-Accounts eva s acc backed = elim (Option-cases (lookup (va2bix eva) s.bix2szbm)) [
      | inl gone ↦ rw (free, gone) acc
      | inr ((sz, bm), has) ↦ elim (Result-cases (B.get_item (va2bix eva) s.bix2state)) [
        | inr (e, bad) ↦ rw (free, has, bad) acc
        | inl (span, good) ↦
            let hold = backed.holding (va2bix eva) sz bm has in
            rw (free, has, good)
              (if-Accounts (is_busy span.2) _ (raised assertion_error s)
                (if-Accounts (is_small sz) (free_small B P event eva (va2bix eva) sz bm span.2 s)
                  (free_large B P event (va2bix eva) sz span s)
                  (free_small-Accounts eva (va2bix eva) sz bm s acc hold (sz, bm) has span.2)
                  (free_large-Accounts (va2bix eva) sz bm s acc hold (sz, bm) has span))
                acc)
      ]
    ]
