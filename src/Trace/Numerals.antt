-- ===== src/Trace/Numerals.antt =====
-- Numerals in base 10 and 16: str.format, and `int` on texts that are numerals.
use native.Mathlib.Nat.{div-add-mod', mod-lt, div-lt_self}
use memory_alloc_analysis.Prelude.{
  ℕ, zero, suc, ◌+◌, ◌-◌, ◌*◌, ◌/◌, ◌%◌, ◌≤◌, ◌<◌, ◌≡◌, refl, ◌⊎◌, true, false, ◌&&◌, Option, none,
  some, [], ◌∷◌, leb, ltb, ◌==◌, if◌then◌else◌, Result, ok, err, value_error, arith, All,
  Bool-cases, inl, inr, ap, ◌∙◌, subst, lt→ltb,
}
use memory_alloc_analysis.Trace.Text.{Text, Lacks}

abbrev pub digit : ℕ → Option ℕ
digit c =
    if leb b'0' c && leb c b'9'
    then some (c - b'0')
    else if leb b'a' c && leb c b'f'
    then some (c - 87)
    else if leb b'A' c && leb c b'F'
    then some (c - 55)
    else none

unfoldable pub scan : ℕ → ℕ → Text → Option ℕ
scan base n [] = some n
scan base n (c ∷ s) = elim (digit c) [
  | none ↦ none
  | some d ↦ elim (ltb d base) [ true ↦ scan base (n * base + d) s | false ↦ none ]
]

-- the prefix that int(s, base=16) allows
abbrev pub without_prefix : Text → Text
without_prefix [] = []
without_prefix (c ∷ []) = c ∷ []
without_prefix (c ∷ d ∷ s) = if c == b'0' && (d == b'x') then s else c ∷ d ∷ s

abbrev pub numeral : ℕ → Text → Result ℕ
numeral base [] = err value_error
numeral base (c ∷ s) = elim (scan base 0 (c ∷ s)) [ none ↦ err value_error | some n ↦ ok n ]

-- int(s)
unfoldable pub int10 : Text → Result ℕ
int10 s = numeral 10 s

-- int(s, base=16)
unfoldable pub int16 : Text → Result ℕ
int16 s = numeral 16 (without_prefix s)

abbrev pub char_of : ℕ → ℕ
char_of d = if ltb d 10 then b'0' + d else 87 + d

-- The digits of n in front of `out`, on fuel; a number is fuel enough for itself.
unfoldable pub digits : ℕ → ℕ → ℕ → Text → Text
digits base zero n out = out
digits base (suc fuel) n out = elim (n == 0) [
  | true ↦ out
  | false ↦ digits base fuel (n / base) (char_of (n % base) ∷ out)
]

unfoldable pub format : ℕ → ℕ → Text
unfolding digits
format base n = if n == 0 then b'0' ∷ [] else digits base n n []

-- '{0:d}' and str
abbrev pub format10 : ℕ → Text
format10 n = format 10 n

-- '{0:x}'
abbrev pub format16 : ℕ → Text
format16 n = format 16 n

module _ (base : ℕ) (low : 2 ≤ base) (high : base ≤ 16) where
  scan_digit :
      (n d : ℕ) (out : Text)
      → d < base
      → scan base n (char_of d ∷ out) ≡ scan base (n * base + d) out
  unfolding scan
  scan_digit n d out lt =
      let is : digit (char_of d) ≡ some d = ground arith in rw (scan, is, lt→ltb d base lt) refl

  scan-digits :
      (fuel n : ℕ) (out : Text) → n ≤ fuel → scan base 0 (digits base fuel n out) ≡ scan base n out
  unfolding digits
  scan-digits zero n out le = ap (λ k. scan base k out) (omega arith)
  scan-digits (suc fuel) n out le = elim (Bool-cases (n == 0)) [
    | inl done ↦ rw (digits, done) (ap (λ k. scan base k out) (ground arith))
    | inr more ↦
        let pos : 0 < n = ground arith in
        let less : n / base < n = div-lt_self pos low in
        rw (digits, more)
          (scan-digits fuel (n / base) (char_of (n % base) ∷ out) (omega arith)
            ∙ scan_digit (n / base) (n % base) out (mod-lt n (omega arith))
            ∙ ap (λ k. scan base k out) (div-add-mod' n base))
  ]

-- printed digits are no space, tab, line end or `x`
abbrev pub Plain : Text → Type 0
Plain = All (λ c. b'0' ≤ c × (c ≤ b'9' ⊎ (b'a' ≤ c × c ≤ b'f')))

char_of-Plain : (d : ℕ) → d < 16 → Plain (char_of d ∷ [])
char_of-Plain d lt = (ground arith)

module _ (base : ℕ) (low : 2 ≤ base) (high : base ≤ 16) where
  digits-Plain : (fuel n : ℕ) (out : Text) → Plain out → Plain (digits base fuel n out)
  unfolding digits
  digits-Plain zero n out h = h
  digits-Plain (suc fuel) n out h = elim (Bool-cases (n == 0)) [
    | inl done ↦ rw (digits, done) h
    | inr more ↦
        let pos : 0 < base = omega arith in
        let lt : n % base < 16 = omega (arith, mod-lt n pos) in
        rw (digits, more)
          (digits-Plain fuel (n / base) (char_of (n % base) ∷ out)
            ((char_of-Plain (n % base) lt).0, h))
  ]

  -- a digit at least
  digits-starts :
      (fuel n c : ℕ) (out : Text) → (d : ℕ) × (s : Text) × (digits base fuel n (c ∷ out) ≡ d ∷ s)
  unfolding digits
  digits-starts zero n c out = (c, out, refl)
  digits-starts (suc fuel) n c out = elim (Bool-cases (n == 0)) [
    | inl done ↦ (c, out, rw (digits, done) refl)
    | inr more ↦
        let rest = digits-starts fuel (n / base) (char_of (n % base)) (c ∷ out) in
        (rest.0, rest.1, rw (digits, more) rest.2)
  ]

  positive-starts : (n : ℕ) → 0 < n → (d : ℕ) × (s : Text) × (digits base n n [] ≡ d ∷ s)
  unfolding digits
  positive-starts zero lt = absurd (omega (arith, lt))
  positive-starts (suc n) lt =
      let more : (suc n == 0) ≡ false = ground arith in
      rw (digits, more) (digits-starts n (suc n / base) (char_of (suc n % base)) [])

  pub format-Plain : (n : ℕ) → Plain (format base n)
  unfolding format
  format-Plain n = elim (Bool-cases (n == 0)) [
    | inl is ↦ rw (format, is) (ground arith)
    | inr more ↦ rw (format, more) (digits-Plain n n [] tt)
  ]

  format-starts : (n : ℕ) → (d : ℕ) × (s : Text) × (format base n ≡ d ∷ s)
  unfolding format digits
  format-starts n = elim (Bool-cases (n == 0)) [
    | inl is ↦ (b'0', [], rw (format, is) refl)
    | inr more ↦ rw (format, more) (positive-starts n (ground arith))
  ]

  scan-format : (n : ℕ) → scan base 0 (format base n) ≡ some n
  unfolding format scan
  scan-format n = elim (Bool-cases (n == 0)) [
    | inl is ↦ rw (format, is) (ground arith)
    | inr more ↦ rw (format, more) (scan-digits base low high n n [] (omega arith))
  ]

  numeral-scan :
      (d : ℕ) (s : Text) (n : ℕ) → scan base 0 (d ∷ s) ≡ some n → numeral base (d ∷ s) ≡ ok n
  numeral-scan d s n h = rw (numeral, h) refl

  numeral-format : (n : ℕ) → numeral base (format base n) ≡ ok n
  numeral-format n =
      let s = format-starts n in
      rw s.2 (numeral-scan s.0 s.1 n (subst (λ t. scan base 0 t ≡ some n) s.2 (scan-format n)))

without_prefix-Plain : (s : Text) → Plain s → without_prefix s ≡ s
without_prefix-Plain [] h = refl
without_prefix-Plain (c ∷ []) h = refl
without_prefix-Plain (c ∷ d ∷ s) h =
    let other : (d == b'x') ≡ false = ground (arith, h.1.0) in ground (arith, other)

pub int10-format : (n : ℕ) → int10 (format 10 n) ≡ ok n
unfolding int10
int10-format n = numeral-format 10 (omega arith) (omega arith) n

pub int16-format : (n : ℕ) → int16 (format 16 n) ≡ ok n
unfolding int16
int16-format n =
    rw (without_prefix-Plain (format 16 n) (format-Plain 16 (omega arith) (omega arith) n))
      (numeral-format 16 (omega arith) (omega arith) n)

pub Plain-Lacks : (sep : ℕ) (s : Text) → sep < b'0' → Plain s → Lacks sep s
Plain-Lacks sep [] lt h = tt
Plain-Lacks sep (c ∷ s) lt h = (ground arith, Plain-Lacks sep s lt h.1)
