-- ===== src/Clingy/Sizes.antt =====
-- The size-related functions of sim/ClingyAllocatorBase.py.
pub mod Classes
pub mod Buckets
use memory_alloc_analysis.Prelude.{
  ℕ, zero, suc, ◌+◌, ◌-◌, ◌*◌, ◌/◌, ◌^◌, Bool, true, false, ◌&&◌, leb, ltb, ◌==◌, if◌then◌else◌,
  Result, ok, err, assertion_error,
}

abbrev pub bucklog : ℕ
bucklog = 16

unfoldable pub is_small : ℕ → Bool
is_small sz = leb sz (2 ^ (bucklog - 1))

-- int.bit_length of Python, on fuel; a number is fuel enough for itself
unfoldable pub bit_length_on : ℕ → ℕ → ℕ
bit_length_on zero n = 0
bit_length_on (suc fuel) n = elim (n == 0) [ true ↦ 0 | false ↦ suc (bit_length_on fuel (n / 2)) ]

unfoldable pub bit_length : ℕ → ℕ
unfolding bit_length_on
bit_length n = bit_length_on n n

-- the part of `_szfix` from `d = sz - fl`
unfoldable pub szfix_from : ℕ → ℕ → Result ℕ
szfix_from sz fl =
    let d = sz - fl in
    let cl = fl * 2 in
    if d == 0
    then ok sz
    else if leb fl sz && ltb sz cl
    then if leb d (fl / 2)
      then if leb d (fl / 4) then ok (fl + fl / 4) else ok (fl + fl / 2)
      else if leb d (3 * (fl / 4))
      then ok (fl + 3 * (fl / 4))
      else ok cl
    else err assertion_error

unfoldable pub szfix : ℕ → Result ℕ
unfolding is_small bit_length szfix_from
szfix sz =
    if is_small sz
    then if leb sz 16 then ok 16 else szfix_from sz (2 ^ (bit_length sz - 1))
    else err assertion_error

-- int((2 ** bucklog) / szfix(sz)): a quotient of numbers this small is a float that lies on the
-- same side of every integer as the exact one
unfoldable pub maxoix : ℕ → Result ℕ
unfolding szfix
maxoix sz = elim (szfix sz) [ ok n ↦ ok (2 ^ bucklog / n) | err e ↦ err e ]

unfoldable pub bix2va : ℕ → ℕ
bix2va bix = bix * 2 ^ bucklog

unfoldable pub va2bix : ℕ → ℕ
va2bix va = va / 2 ^ bucklog

unfoldable pub sz2nbucks : ℕ → ℕ
sz2nbucks sz = (sz + 2 ^ bucklog - 1) / 2 ^ bucklog

unfoldable pub nbucks2sz : ℕ → ℕ
nbucks2sz bs = bs * 2 ^ bucklog
