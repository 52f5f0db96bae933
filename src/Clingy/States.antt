-- ===== src/Clingy/States.antt =====
-- The states of buckets, and the map from buckets to states as an interface: what the allocator uses
-- of `IntervalMap`.
use memory_alloc_analysis.Prelude.{
  ℕ, ◌+◌, ◌≤◌, ◌<◌, ◌≡◌, Bool, true, false, ◌&&◌, Option, some, List, if◌then◌else◌, leb, ltb,
  Result, ok, Outcome, done,
}
use memory_alloc_analysis.IntervalMap.Defs.{Span, ℤ}

pub data BuckSt : Type 0 where
  ahwm tidy bump wait junk : BuckSt

abbrev pub is_junk : BuckSt → Bool
is_junk junk = true
is_junk ahwm = false
is_junk tidy = false
is_junk bump = false
is_junk wait = false

-- BUMP or WAIT
abbrev pub is_busy : BuckSt → Bool
is_busy bump = true
is_busy wait = true
is_busy ahwm = false
is_busy tidy = false
is_busy junk = false

abbrev pub is_tidy : BuckSt → Bool
is_tidy tidy = true
is_tidy ahwm = false
is_tidy bump = false
is_tidy wait = false
is_tidy junk = false

-- the sets st_at, st_tj and st_atj
abbrev pub in_at : BuckSt → Bool
in_at tidy = true
in_at ahwm = true
in_at bump = false
in_at wait = false
in_at junk = false

abbrev pub in_tj : BuckSt → Bool
in_tj tidy = true
in_tj junk = true
in_tj ahwm = false
in_tj bump = false
in_tj wait = false

abbrev pub in_atj : BuckSt → Bool
in_atj tidy = true
in_atj junk = true
in_atj ahwm = true
in_atj bump = false
in_atj wait = false

pub record BucketMap : Type 1 where
  pub Map : Type 0
  -- the buckets are the numbers from 1 to below the limit
  pub limit : ℕ
  -- self._bix2state[x], .get(x, coalesce_with_values=st_tj) and [lo:hi]
  pub get_item : ℕ → Map → Result (Span BuckSt)
  pub get_tj : ℕ → Map → Result (Span BuckSt)
  pub get_slice : ℕ → ℕ → Map → Result (List (Span BuckSt))
  -- the spans, and those of iter_vfilter(None, hi, st_tj)
  pub spans : Map → List (Span BuckSt)
  pub runs_tj : ℕ → Map → Result (List (Span BuckSt))
  pub mark : ℕ → ℕ → BuckSt → Map → Outcome Map
  -- the first test of .mark, on a location that may be negative
  pub test_location : ℤ → Map → Outcome Map
  pub IsValid : Map → Type 0
  pub at : Map → ℕ → Option BuckSt
  pub get_item-at :
      (m : Map) (x : ℕ)
      → IsValid m
      → 1 ≤ x
      → x < limit
      → (k s : ℕ) × (w : BuckSt) × (get_item x m ≡ ok (k, s, w))
        × (k ≤ x)
        × (x < k + s)
        × ((y : ℕ) → k ≤ y → y < k + s → at m y ≡ some w)
  pub mark-at :
      (m : Map) (loc sz : ℕ) (v : BuckSt)
      → IsValid m
      → 1 ≤ loc
      → 0 < sz
      → loc + sz ≤ limit
      → (m' : Map) × (mark loc sz v m ≡ done m')
        × IsValid m'
        × ((x : ℕ) → at m' x ≡ (if leb loc x && ltb x (loc + sz) then some v else at m x))
