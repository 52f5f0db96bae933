-- ===== src/IntervalMap/Counts.antt =====
-- How many points of a range have a value that passes a test.
use memory_alloc_analysis.Prelude.{
  ℕ, zero, suc, ◌+◌, ◌-◌, ◌≤◌, ◌<◌, ◌≡◌, refl, Bool, true, false, ◌&&◌, Option, none, some,
  if◌then◌else◌, leb, ltb, arith, Bool-cases, inl, inr, ap, ap₂, ◌∙◌,
}

-- the test holds of the value, if there is one
abbrev pub holds : {V : Type 0} → (V → Bool) → Option V → Bool
holds p none = false
holds p (some v) = p v

-- the x in [lo, lo + n) whose value has p
abbrev pub count : {V : Type 0} → (V → Bool) → (ℕ → Option V) → ℕ → ℕ → ℕ
count p f lo zero = 0
count p f lo (suc n) = let rest = count p f (suc lo) n in if holds p (f lo) then suc rest else rest

module _ {V : Type 0} (p : V → Bool) where
  count_at :
      (f : ℕ → Option V) (lo lo' n n' : ℕ) → lo ≡ lo' → n ≡ n' → count p f lo n ≡ count p f lo' n'
  count_at f lo lo' n n' h k = ap₂ (count p f) h k

  pub count_step :
      (f : ℕ → Option V) (lo n : ℕ)
      → count p f lo (suc n) ≡ (if holds p (f lo) then 1 else 0) + count p f (suc lo) n
  count_step f lo n = elim (Bool-cases (holds p (f lo))) [
    | inl there ↦ rw there (omega arith)
    | inr not_there ↦ rw not_there (omega arith)
  ]

  pub count-add :
      (f : ℕ → Option V) (lo i j : ℕ) → count p f lo (i + j) ≡ count p f lo i + count p f (lo + i) j
  count-add f lo zero j =
      omega (arith, count_at f (lo) (lo + 0) (0 + j) (j) (omega arith) (omega arith))
  count-add f lo (suc i) j = omega (
    arith,
    count_at f (lo) (lo) (suc i + j) (suc (i + j)) refl (omega arith),
    count_step f lo (i + j),
    count_step f lo i,
    count-add f (suc lo) i j,
    count_at f (suc lo + i) (lo + suc i) (j) (j) (omega arith) refl,
  )

  pub count_same :
      (f g : ℕ → Option V) (lo n : ℕ)
      → ((x : ℕ) → lo ≤ x → x < lo + n → f x ≡ g x)
      → count p f lo n ≡ count p g lo n
  count_same f g lo zero h = refl
  count_same f g lo (suc n) h =
      let rest = count_same f g (suc lo) n (λ x a b. h x (omega arith) (omega arith)) in
      rw (h lo (omega arith) (omega arith), rest) refl

  pub count_all :
      (f : ℕ → Option V) (lo n : ℕ)
      → ((x : ℕ) → lo ≤ x → x < lo + n → holds p (f x) ≡ true)
      → count p f lo n ≡ n
  count_all f lo zero h = refl
  count_all f lo (suc n) h =
      rw (h lo (omega arith) (omega arith))
        (ap suc (count_all f (suc lo) n (λ x a b. h x (omega arith) (omega arith))))

  pub count_none :
      (f : ℕ → Option V) (lo n : ℕ)
      → ((x : ℕ) → lo ≤ x → x < lo + n → holds p (f x) ≡ false)
      → count p f lo n ≡ 0
  count_none f lo zero h = refl
  count_none f lo (suc n) h =
      rw (h lo (omega arith) (omega arith))
        (count_none f (suc lo) n (λ x a b. h x (omega arith) (omega arith)))

-- g is f with [lo, lo + k) changed to v; b is the start of the whole range and n its length
module _ {V : Type 0} (p : V → Bool) (f g : ℕ → Option V) (v : V) (b n lo k : ℕ) (from : b ≤ lo)
    (fits : lo + k ≤ b + n)
    (changed : (x : ℕ) → g x ≡ (if leb lo x && ltb x (lo + k) then some v else f x)) where
  outside_below : (x : ℕ) → x < lo → g x ≡ f x
  outside_below x lt = changed x ∙ (ground arith)

  outside_above : (x : ℕ) → lo + k ≤ x → g x ≡ f x
  outside_above x le = changed x ∙ (ground arith)

  inside : (x : ℕ) → lo ≤ x → x < lo + k → g x ≡ some v
  inside x le lt = changed x ∙ (ground arith)

  parts :
      (h : ℕ → Option V)
      → count p h b n
        ≡ count p h b (lo - b) + (count p h lo k + count p h (lo + k) (n - (lo - b) - k))
  parts h = omega (
    arith,
    count-add p h b (lo - b) (n - (lo - b)),
    count_at p h (b) (b) (n) ((lo - b) + (n - (lo - b))) refl (omega arith),
    count_at p h (b + (lo - b)) (lo) (n - (lo - b)) (k + (n - (lo - b) - k)) (omega arith)
        (omega arith),
    count-add p h lo k (n - (lo - b) - k),
  )

  pub count_changed : count p g b n + count p f lo k ≡ count p f b n + count p g lo k
  count_changed = omega (
    arith,
    parts f,
    parts g,
    count_same p g f b (lo - b) (λ x a c. outside_below x (omega arith)),
    count_same p g f (lo + k) (n - (lo - b) - k) (λ x a c. outside_above x (omega arith)),
  )

  pub count_in : p v ≡ true → count p g lo k ≡ k
  count_in h = count_all p g lo k (λ x a c. ap (holds p) (inside x a c) ∙ h)

  pub count_out : p v ≡ false → count p g lo k ≡ 0
  count_out h = count_none p g lo k (λ x a c. ap (holds p) (inside x a c) ∙ h)
