-- ===== src/IntervalMap/Pieces.antt =====
-- How many points of a slice pass a test, span by span.
use memory_alloc_analysis.Prelude.{
  ℕ, ◌+◌, ◌-◌, ◌≤◌, ◌<◌, ◌≡◌, ap, ap₂, ◌∙◌, min, Bool, Option, some, if◌then◌else◌, arith,
  Bool-cases, inl, inr,
}
use native.Mathlib.Decide.{dec_lt}
use memory_alloc_analysis.IntervalMap.Counts.{count, holds, count-add, count_all, count_none}

module _ {V : Type 0} (p : V → Bool) (f : ℕ → Option V) where
  -- the part of a span from lo on
  count_part :
      (lo n : ℕ) (v : V)
      → ((x : ℕ) → lo ≤ x → x < lo + n → f x ≡ some v)
      → count p f lo n ≡ (if p v then n else 0)
  count_part lo n v all = elim (Bool-cases (p v)) [
    | inl pass ↦ rw pass (count_all p f lo n (λ x a c. ap (holds p) (all x a c) ∙ pass))
    | inr fail ↦ rw fail (count_none p f lo n (λ x a c. ap (holds p) (all x a c) ∙ fail))
  ]

  pub count_piece :
      (k s lo hi : ℕ) (v : V)
      → k ≤ lo
      → lo < hi
      → lo < k + s
      → ((x : ℕ) → k ≤ x → x < k + s → f x ≡ some v)
      → count p f lo (hi - lo)
        ≡ (if p v then min (k + s) hi - lo else 0) + count p f (k + s) (hi - (k + s))
  count_piece k s lo hi v from some_there until all = elim (dec_lt (k + s) hi) [
    | yes more ↦
        ap (count p f lo) (omega arith)
        ∙ count-add p f lo (k + s - lo) (hi - (k + s))
        ∙ ap₂ ◌+◌
            (count_part lo (k + s - lo) v (λ x a c. all x (omega arith) (omega arith))
              ∙ ap (λ n. if p v then n else 0) (omega arith))
            (ap (λ n. count p f n (hi - (k + s))) (omega arith))
    | no last ↦
        let rest : hi - (k + s) ≡ 0 = omega arith in
        count_part lo (hi - lo) v (λ x a c. all x (omega arith) (omega arith))
        ∙ rw rest (elim (Bool-cases (p v)) [
          | inl pass ↦ rw pass (omega arith)
          | inr fail ↦ rw fail (omega arith)
        ])
  ]
