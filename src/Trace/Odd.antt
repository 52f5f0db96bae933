-- ===== src/Trace/Odd.antt =====
-- The errors of `_parse_call_trace` on the arguments of revoke.
use memory_alloc_analysis.Prelude.{
  ℕ, zero, suc, ◌*◌, ◌≡◌, ◌≢◌, refl, ap, List, [], ◌∷◌, ok, err, value_error, length, Option-cases,
  inl, inr, arith, ◌⊎◌,
}
use memory_alloc_analysis.Trace.Text.{Text, codes}
use memory_alloc_analysis.Trace.Numerals.{int16, numeral, scan, without_prefix}
use memory_alloc_analysis.Trace.Calls.{Record, parse_call, addresses, evens, odds, pairs}

-- int raises ValueError alone
numeral-fails :
    (base : ℕ) (s : Text) → ((n : ℕ) × (numeral base s ≡ ok n)) ⊎ (numeral base s ≡ err value_error)
numeral-fails base [] = inr refl
numeral-fails base (c ∷ s) = elim (Option-cases (scan base 0 (c ∷ s))) [
  | inl bad ↦ inr (rw (numeral, bad) refl)
  | inr (n, good) ↦ inl (n, rw (numeral, good) refl)
]

int16-fails : (s : Text) → ((n : ℕ) × (int16 s ≡ ok n)) ⊎ (int16 s ≡ err value_error)
unfolding int16
int16-fails s = numeral-fails 16 (without_prefix s)

addresses-fails :
    (bs : List Text)
    → ((ns : List ℕ) × (addresses bs ≡ ok ns) × (length ns ≡ length bs))
      ⊎ (addresses bs ≡ err value_error)
unfolding addresses
addresses-fails [] = inl ([], refl, refl)
addresses-fails (b ∷ bs) = elim (int16-fails b) [
  | inr bad ↦ inr (rw (addresses, bad) refl)
  | inl (n, good) ↦ elim (addresses-fails bs) [
    | inr worse ↦ inr (rw (addresses, good, worse) refl)
    | inl (ns, fine, len) ↦ inl (n ∷ ns, rw (addresses, good, fine) refl, ap suc len)
  ]
]

pairs-length : (bs es : List ℕ) → length bs ≢ length es → pairs bs es ≡ err value_error
unfolding pairs
pairs-length [] [] ne = absurd (ne refl)
pairs-length [] (e ∷ es) ne = refl
pairs-length (b ∷ bs) [] ne = refl
pairs-length (b ∷ bs) (e ∷ es) ne = rw (pairs, pairs-length bs es (λ h. ne (ap suc h))) refl

evens-odds :
    (arg : List Text) (k : ℕ)
    → length arg ≡ suc (2 * k)
    → length (evens arg) ≡ suc (length (odds arg))
unfolding evens odds
evens-odds [] k h = absurd (omega (arith, h))
evens-odds (a ∷ []) k h = refl
evens-odds (a ∷ b ∷ arg) zero h = absurd (omega (arith, h))
evens-odds (a ∷ b ∷ arg) (suc k) h = ap suc (evens-odds arg k (omega (arith, h)))

-- A revoke with an odd number of arguments raises ValueError, whatever the arguments are.
pub parse_call-revoke_odd :
    (event : Record) (arg : List Text) (res : Text) (k : ℕ)
    → length arg ≡ suc (2 * k)
    → parse_call (codes "revoke") event arg res ≡ err value_error
unfolding parse_call
parse_call-revoke_odd event arg res k h = elim (addresses-fails (evens arg)) [
  | inr bad ↦ rw (parse_call, bad) refl
  | inl (bs, good, bl) ↦ elim (addresses-fails (odds arg)) [
    | inr bad ↦ rw (parse_call, good, bad) refl
    | inl (es, fine, el) ↦
        rw (parse_call, good, fine, pairs-length bs es (omega (arith, bl, el, evens-odds arg k h)))
          refl
  ]
]
