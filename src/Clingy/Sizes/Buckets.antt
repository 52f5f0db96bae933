-- ===== src/Clingy/Sizes/Buckets.antt =====
-- Objects in a bucket, and buckets of a large allocation.
use native.Mathlib.Nat.{le-div_iff_mul-le, mul-div-le, lt-div-mul-add}
use memory_alloc_analysis.Prelude.{ℕ, ◌+◌, ◌-◌, ◌*◌, ◌/◌, ◌^◌, ◌≤◌, ◌<◌, ◌≡◌, refl, ok, arith}
use memory_alloc_analysis.Clingy.Sizes.{
  szfix, maxoix, bix2va, va2bix, sz2nbucks, nbucks2sz, bucklog,
}
use memory_alloc_analysis.Clingy.Sizes.Classes.{szfix_least, least_16}

-- For a small size, a bucket holds two objects of its class or more, as many as fit.
pub maxoix_fits :
    (sz : ℕ)
    → sz ≤ 2 ^ 15
    → (n : ℕ) × (k : ℕ) × (szfix sz ≡ ok n)
      × (maxoix sz ≡ ok k)
      × (2 ≤ k)
      × (n * k ≤ 2 ^ bucklog)
      × (2 ^ bucklog < n * k + n)
unfolding maxoix
maxoix_fits sz small =
    let (n, is, up, top, class, least) = szfix_least sz small in
    let low : 16 ≤ n = least_16 n class in
    (
      n,
      2 ^ 16 / n,
      is,
      rw (maxoix, is) refl,
      (le-div_iff_mul-le {k = n} {x = 2} {y = 2 ^ 16} (omega arith)).1 (omega arith),
      mul-div-le (2 ^ 16) n,
      omega (arith, lt-div-mul-add {a = 2 ^ 16} {b = n} (omega arith)),
    )

-- A large allocation gets the least number of buckets that covers it.
pub sz2nbucks_least :
    (sz : ℕ) → (sz ≤ nbucks2sz (sz2nbucks sz)) × ((n : ℕ) → sz ≤ nbucks2sz n → sz2nbucks sz ≤ n)
unfolding nbucks2sz sz2nbucks
sz2nbucks_least sz = (omega arith, λ n h. omega arith)

-- An address lies in the bucket that `va2bix` names, and in no other.
pub va2bix-bix2va : (va bix : ℕ) → bix2va bix ≤ va → va < bix2va (bix + 1) → va2bix va ≡ bix
unfolding va2bix bix2va
va2bix-bix2va va bix lo hi = omega arith

-- The buckets marked when an object of osz bytes grows to nsz bytes are enough for it, and at most
-- one too many.
pub sz2nbucks_growth :
    (osz nsz : ℕ)
    → osz ≤ nsz
    → (sz2nbucks nsz ≤ sz2nbucks osz + sz2nbucks (nsz - osz))
      × (sz2nbucks osz + sz2nbucks (nsz - osz) ≤ sz2nbucks nsz + 1)
unfolding sz2nbucks
sz2nbucks_growth osz nsz le = (omega arith, omega arith)
