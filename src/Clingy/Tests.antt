-- ===== src/Clingy/Tests.antt =====
-- Sizes at work: a request of 100 bytes, and one of two buckets and a byte.
use memory_alloc_analysis.Prelude.{ℕ, ◌+◌, ◌-◌, ◌^◌, ◌≤◌, ◌≡◌, refl, ok, arith}
use memory_alloc_analysis.Clingy.Sizes.{
  szfix, sz2nbucks, is_small, bit_length, bit_length_on, szfix_from,
}
use memory_alloc_analysis.Clingy.Sizes.Classes.{IsClass, szfix_least}

szfix_100 : szfix 100 ≡ ok 112
unfolding szfix is_small bit_length bit_length_on szfix_from
szfix_100 = refl

szfix_least_example :
    (n : ℕ) × (szfix 100 ≡ ok n)
    × (100 ≤ n)
    × (n ≤ 2 ^ 15)
    × IsClass n
    × ((c : ℕ) → IsClass c → 100 ≤ c → n ≤ c)
szfix_least_example = szfix_least 100 (omega arith)

-- an object of one and a half buckets that grows to two buckets and six tenths
one_too_many : sz2nbucks 98304 + sz2nbucks (170394 - 98304) ≡ sz2nbucks 170394 + 1
unfolding sz2nbucks
one_too_many = refl
