-- ===== src/Traditional/Requests.antt =====
-- The sizes that are allocated.
use memory_alloc_analysis.Prelude.{
  ℕ, zero, suc, ◌+◌, ◌-◌, ◌%◌, ◌^◌, ◌≤◌, ◌<◌, ◌≡◌, max, if◌then◌else◌, ltb, arith,
}
use native.Mathlib.Nat.{pow-suc}
use memory_alloc_analysis.Traditional.Defs.{Options}
use memory_alloc_analysis.Traditional.Alloc.{request_size}

round_up :
    (d t : ℕ)
    → 0 < d
    → (t ≤ t + (d - 1) - (t + (d - 1)) % d)
      × (t + (d - 1) - (t + (d - 1)) % d < t + d)
      × ((t + (d - 1) - (t + (d - 1)) % d) % d ≡ 0)
round_up d t pos = (grind arith, grind arith, grind arith)

pow_pos : (a : ℕ) → 0 < 2 ^ a
pow_pos zero = omega arith
pow_pos (suc a) = omega (arith, pow_pos a, pow-suc 2 a)

-- The size that is allocated is no less than the request and than the least size, exceeds the larger
-- of the two by less than the alignment, and is a multiple of it.
pub request_size_bounds :
    (a : Options) (sz : ℕ)
    → (sz ≤ request_size a sz)
      × (a.minsize ≤ request_size a sz)
      × (request_size a sz < max sz a.minsize + 2 ^ a.alignlog)
      × (request_size a sz % 2 ^ a.alignlog ≡ 0)
unfolding request_size
request_size_bounds a sz =
    let r =
      round_up (2 ^ a.alignlog) (if ltb sz a.minsize then a.minsize else sz) (pow_pos a.alignlog) in
    (ground (arith, r.0), ground (arith, r.0), ground (arith, r.1), r.2)
