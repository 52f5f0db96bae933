-- ===== src/Clingy/Large.antt =====
-- The branch of `_alloc` for large objects.
use memory_alloc_analysis.Prelude.{
  ℕ, ◌+◌, ◌≤◌, ◌<◌, ◌≡◌, refl, sym, ap, ◌∙◌, true, some, List, [], ◌∷◌, ok-eq, subst, arith, le→leb,
  answer, ok,
}
use memory_alloc_analysis.SortedDict.Items.{lookup}
use memory_alloc_analysis.Renaming.Defs.{mapd}
use memory_alloc_analysis.Clingy.Sizes.{bix2va, sz2nbucks, nbucks2sz}
use memory_alloc_analysis.Clingy.Sizes.Buckets.{sz2nbucks_least}
use memory_alloc_analysis.Clingy.States.{BuckSt, wait, in_at, BucketMap}
use memory_alloc_analysis.IntervalMap.Counts.{holds}
use memory_alloc_analysis.Clingy.Defs.{Clingy, publish}
use memory_alloc_analysis.Clingy.Alloc.{Policy, alloc_at, set_item}
use memory_alloc_analysis.Clingy.Accounts.{Accounts}
use memory_alloc_analysis.Clingy.Placing.{Free, placed, mark_allocated-Accounts}

pub lookup-set_item :
    {A : Type 0} (k : ℕ) (a : A) (d : List (ℕ × A)) → lookup k (set_item k a d) ≡ some a
unfolding set_item
lookup-set_item k a [] = ground arith
lookup-set_item k a ((j, b) ∷ d) = ground (arith, lookup-set_item k a d)

module _ (B : BucketMap) {E : Type 0} (P : Policy E) (event : E) (sz bbix : ℕ) (s : Clingy B)
    (accounts : Accounts B s) (large : 0 < sz) (from : 1 ≤ bbix) (k n : ℕ) (w : BuckSt)
    (here : B.get_item bbix s.bix2state ≡ ok (k, n, w)) (free : in_at w ≡ true)
    (room : bbix + sz2nbucks sz ≤ k + n) (fits : bbix + sz2nbucks sz ≤ B.limit) where
  some_buckets : 0 < sz2nbucks sz
  unfolding sz2nbucks
  some_buckets = omega arith

  span-Free : Free B s.bix2state bbix (sz2nbucks sz)
  span-Free x a c =
      let (k', n', w', is, le, past, same) =
        B.get_item-at s.bix2state bbix accounts.valid from (omega (arith, some_buckets)) in
      let same' =
        subst
          (λ (q : ℕ × ℕ × BuckSt).
            (y : ℕ) → q.0 ≤ y → y < q.0 + q.1 → B.at s.bix2state y ≡ some q.2)
          (ok-eq (sym is ∙ here)) same in
      let start : k ≤ bbix =
        subst (λ (q : ℕ × ℕ × BuckSt). q.0 ≤ bbix) (ok-eq (sym is ∙ here)) le in
      ap (holds in_at) (same' x (omega (arith, start)) (omega arith)) ∙ free

  -- the object once the buckets are marked
  abbrev finished : Clingy B → Clingy B
  unfolding set_item
  finished s1 =
      publish B (mapd (bix2va bbix) (bix2va bbix + nbucks2sz (sz2nbucks sz)) 3)
        (record s1 { bix2szbm = set_item bbix (sz, 0) s1.bix2szbm })

  -- Where the counters agree with the states and the placement is inside a span that is TIDY
  -- or AHWM, the allocation of a large object returns its address and a size that covers it,
  -- records it, marks its buckets as WAIT, and the counters still agree.
  pub alloc_at-Accounts :
      (s' : Clingy B) × (alloc_at B P event sz bbix s
        ≡ answer (bix2va bbix, nbucks2sz (sz2nbucks sz)) s')
      × (sz ≤ nbucks2sz (sz2nbucks sz))
      × Accounts B s'
      × (lookup bbix s'.bix2szbm ≡ some (sz, 0))
      × ((x : ℕ) → B.at s'.bix2state x ≡ placed B s bbix (sz2nbucks sz) wait x)
  unfolding alloc_at
  alloc_at-Accounts =
      let (s1, did, acc, kept, changed) =
        mark_allocated-Accounts B bbix (sz2nbucks sz) wait s accounts from some_buckets fits refl
          span-Free in
      (
        finished s1,
        rw (alloc_at, here, le→leb (bbix + sz2nbucks sz) (k + n) room, did) refl,
        (sz2nbucks_least sz).0,
        acc,
        lookup-set_item bbix (sz, 0) s1.bix2szbm,
        changed,
      )
