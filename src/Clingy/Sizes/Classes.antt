-- ===== src/Clingy/Sizes/Classes.antt =====
-- The size classes of `szfix`.
use native.Mathlib.Decide.{dec_lt}
use native.Mathlib.Nat.{add-suc, le_refl, pow-suc, pow-le-pow_right}
use memory_alloc_analysis.Prelude.{
  ℕ, zero, suc, ◌+◌, ◌-◌, ◌*◌, ◌/◌, ◌^◌, ◌≤◌, ◌<◌, ◌≡◌, refl, leb, if◌then◌else◌, ok, arith,
  Bool-cases, inl, inr, ◌⊎◌, ap, le→leb, lt→leb, ◌∙◌,
}
use memory_alloc_analysis.Clingy.Sizes.{is_small, bit_length_on, bit_length, szfix_from, szfix}

bit_length_on_zero : (fuel : ℕ) → bit_length_on fuel 0 ≡ 0
unfolding bit_length_on
bit_length_on_zero zero = refl
bit_length_on_zero (suc fuel) = refl

-- 2 ^ (bit_length - 1) ≤ n < 2 ^ bit_length
bit_length_on_bounds :
    (fuel n : ℕ)
    → n ≤ fuel
    → 0 < n
    → (k : ℕ) × (bit_length_on fuel n ≡ suc k) × (2 ^ k ≤ n) × (n < 2 ^ k + 2 ^ k)
unfolding bit_length_on
bit_length_on_bounds zero n h pos = absurd (omega arith)
bit_length_on_bounds (suc fuel) n h pos = elim (dec_lt 0 (n / 2)) [
  | yes more ↦
      let (k, e, lo, hi) = bit_length_on_bounds fuel (n / 2) (omega arith) more in
      (suc k, ground (arith, e), omega (arith, pow-suc 2 k), omega (arith, pow-suc 2 k))
  | no one ↦ (0, ground (arith, bit_length_on_zero fuel), omega arith, omega arith)
]

-- The size classes: 16 20 24 28 32 40 48 56 64 80 96 112 128 and so on.
pub record IsClass (n : ℕ) : Type 0 where
  pub exponent : ℕ
  pub size :
      (n ≡ 4 * 2 ^ (exponent + 2))
      ⊎ ((n ≡ 5 * 2 ^ (exponent + 2))
          ⊎ ((n ≡ 6 * 2 ^ (exponent + 2)) ⊎ (n ≡ 7 * 2 ^ (exponent + 2))))

double : (e : ℕ) → 2 ^ (e + 3) ≡ 2 * 2 ^ (e + 2)
double e = rw (add-suc e 2) (pow-suc 2 (e + 2) ∙ omega arith)

double_le : (e e' : ℕ) → e < e' → 2 * 2 ^ (e + 2) ≤ 2 ^ (e' + 2)
double_le e e' h =
    rw (← double e) (pow-le-pow_right {n = 2} (omega arith) {i = e + 3} {j = e' + 2} (omega arith))

four : (k e : ℕ) → k ≡ e + 4 → 2 ^ k ≡ 4 * 2 ^ (e + 2)
four k e h = rw (h, add-suc e 3) (pow-suc 2 (e + 3) ∙ omega (arith, double e))

-- the power of two below a size, as four quarters
floor :
    (sz : ℕ)
    → 16 < sz
    → (e : ℕ) × (2 ^ (bit_length sz - 1) ≡ 4 * 2 ^ (e + 2))
      × (4 * 2 ^ (e + 2) ≤ sz)
      × (sz < 8 * 2 ^ (e + 2))
unfolding bit_length
floor sz h =
    let (k, len, lo, hi) = bit_length_on_bounds sz sz (le_refl sz) (omega arith) in
    let high : 4 ≤ k = elim (dec_lt k 4) [
      | yes low ↦
          absurd
            (omega (arith, pow-le-pow_right {n = 2} (omega arith) {i = k} {j = 3} (omega arith)))
      | no high ↦ omega arith
    ] in
    let e = k - 4 in
    let quarters = four k e (omega arith) in
    let last : bit_length_on sz sz - 1 ≡ k = omega (arith, len) in
    (e, rw last quarters, omega (arith, quarters), omega (arith, quarters))

-- the number of quarters that a size is rounded up to
quarter : ℕ → ℕ → ℕ
quarter sz q =
    if leb sz (4 * q)
    then 4 * q
    else if leb sz (5 * q)
    then 5 * q
    else if leb sz (6 * q)
    then 6 * q
    else if leb sz (7 * q)
    then 7 * q
    else 8 * q

module _ (sz q : ℕ) (lo : 4 * q ≤ sz) (hi : sz < 8 * q) where
  szfix_from-quarter : szfix_from sz (4 * q) ≡ ok (quarter sz q)
  unfolding szfix_from quarter
  szfix_from-quarter = ground arith

  quarter_bounds : (sz ≤ quarter sz q) × (quarter sz q < sz + q) × (quarter sz q ≤ 8 * q)
  unfolding quarter
  quarter_bounds = ground arith

  quarter_least :
      (c : ℕ)
      → (c ≡ 4 * q) ⊎ ((c ≡ 5 * q) ⊎ ((c ≡ 6 * q) ⊎ (c ≡ 7 * q)))
      → sz ≤ c
      → quarter sz q ≤ c
  unfolding quarter
  quarter_least c h le = ground arith

next_double : (e : ℕ) → 2 ^ (e + 1 + 2) ≡ 2 * 2 ^ (e + 2)
next_double e = ap (λ n. 2 ^ n) (omega arith) ∙ double e

quarter-IsClass : (sz e : ℕ) → IsClass (quarter sz (2 ^ (e + 2)))
unfolding quarter
quarter-IsClass sz e =
    let q = 2 ^ (e + 2) in
    elim (Bool-cases (leb sz (4 * q))) [
      | inl a ↦ rw a (record { exponent = e; size = inl refl })
      | inr a ↦ elim (Bool-cases (leb sz (5 * q))) [
        | inl b ↦ rw (a, b) (record { exponent = e; size = inr (inl refl) })
        | inr b ↦ elim (Bool-cases (leb sz (6 * q))) [
          | inl c ↦ rw (a, b, c) (record { exponent = e; size = inr (inr (inl refl)) })
          | inr c ↦ elim (Bool-cases (leb sz (7 * q))) [
            | inl d ↦ rw (a, b, c, d) (record { exponent = e; size = inr (inr (inr refl)) })
            | inr d ↦
                rw (a, b, c, d)
                  (record { exponent = e + 1; size = inl (omega (arith, next_double e)) })
          ]
        ]
      ]
    ]

-- a class of a lower, an equal or a higher power of two
least :
    (sz e c : ℕ)
    → 4 * 2 ^ (e + 2) ≤ sz
    → sz < 8 * 2 ^ (e + 2)
    → IsClass c
    → sz ≤ c
    → quarter sz (2 ^ (e + 2)) ≤ c
least sz e c lo hi k le = elim (dec_lt k.exponent e) [
  | yes low ↦ absurd (ground (arith, double_le k.exponent e low, k.size))
  | no nl ↦ elim (dec_lt e k.exponent) [
    | yes high ↦
        ground (arith, double_le e k.exponent high, k.size, quarter_bounds sz (2 ^ (e + 2)) lo hi)
    | no nh ↦
        let same : k.exponent ≡ e = omega arith in
        quarter_least sz (2 ^ (e + 2)) lo hi c (rw same at k.size) le
  ]
]

pub least_16 : (c : ℕ) → IsClass c → 16 ≤ c
least_16 c k = ground (
  arith,
  k.size,
  pow-le-pow_right {n = 2} (omega arith) {i = 2} {j = k.exponent + 2} (omega arith),
)

half_bucket : IsClass (2 ^ 15)
half_bucket = record { exponent = 11; size = inl refl }

szfix-quarter :
    (sz : ℕ)
    → sz ≤ 2 ^ 15
    → 16 < sz
    → (e : ℕ) × (szfix sz ≡ ok (quarter sz (2 ^ (e + 2))))
      × (4 * 2 ^ (e + 2) ≤ sz)
      × (sz < 8 * 2 ^ (e + 2))
unfolding szfix is_small
szfix-quarter sz small h =
    let (e, power, lo, hi) = floor sz h in
    (
      e,
      rw (le→leb sz (2 ^ 15) small, lt→leb sz 16 h, power)
          (szfix_from-quarter sz (2 ^ (e + 2)) lo hi),
      lo,
      hi,
    )

-- `szfix` takes every small size to the least size class that is not below it, which is small
-- again.
pub szfix_least :
    (sz : ℕ)
    → sz ≤ 2 ^ 15
    → (n : ℕ) × (szfix sz ≡ ok n)
      × (sz ≤ n)
      × (n ≤ 2 ^ 15)
      × IsClass n
      × ((c : ℕ) → IsClass c → sz ≤ c → n ≤ c)
unfolding szfix is_small
szfix_least sz small = elim (dec_lt 16 sz) [
  | yes h ↦
      let (e, is, lo, hi) = szfix-quarter sz small h in
      (
        quarter sz (2 ^ (e + 2)),
        is,
        (quarter_bounds sz (2 ^ (e + 2)) lo hi).0,
        least sz e (2 ^ 15) lo hi half_bucket small,
        quarter-IsClass sz e,
        λ c k le. least sz e c lo hi k le,
      )
  | no h ↦ (
    16,
    rw (le→leb sz (2 ^ 15) small, le→leb sz 16 (omega arith)) refl,
    omega arith,
    omega arith,
    record { exponent = 0; size = inl refl },
    λ c k le. least_16 c k,
  )
]

-- Above 16 bytes the rounding wastes less than a quarter of the size.
pub szfix_waste : (sz n : ℕ) → sz ≤ 2 ^ 15 → 16 < sz → szfix sz ≡ ok n → 4 * (n - sz) < sz
szfix_waste sz n small h is =
    let (e, is', lo, hi) = szfix-quarter sz small h in
    let same : n ≡ quarter sz (2 ^ (e + 2)) = ground arith in
    omega (arith, same, quarter_bounds sz (2 ^ (e + 2)) lo hi)

-- A size class stays as it is.
pub szfix_class : (n : ℕ) → n ≤ 2 ^ 15 → IsClass n → szfix n ≡ ok n
szfix_class n small k =
    let (n', is, up, _, _, first) = szfix_least n small in
    let same : n' ≡ n = omega (arith, first n k (le_refl n)) in rw is (ap ok same)
