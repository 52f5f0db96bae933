-- ===== src/IntervalMap/Maximal.antt =====
-- The longest runs of one value, and what a mark with that value does to them.
use memory_alloc_analysis.Prelude.{
  ℕ, ◌+◌, ◌-◌, ◌≤◌, ◌<◌, ◌≡◌, ◌≢◌, ◌⊎◌, inl, inr, sym, ◌∙◌, Option, some, ◌&&◌, if◌then◌else◌, leb,
  ltb, arith, subst,
}
use native.Mathlib.Decide.{dec_lt, ℕ_discrete}

-- f has the value v on [k, k + n), and at neither end beyond it
pub record Maximal {V : Type 0} (f : ℕ → Option V) (v : V) (k n : ℕ) : Type 0 where
  pub some_there : 0 < n
  pub all : (x : ℕ) → k ≤ x → x < k + n → f x ≡ some v
  pub left : (y : ℕ) → y + 1 ≡ k → f y ≢ some v
  pub right : f (k + n) ≢ some v

module _ {V : Type 0} (f : ℕ → Option V) (v : V) where
  -- of two runs that share a point, neither starts or ends before the other
  not_before : (j m k n x : ℕ) → Maximal f v j m → Maximal f v k n → k ≤ x → x < j + m → k ≤ j
  not_before j m k n x a b le lt = elim (dec_lt j k) [
    | no ge ↦ omega (arith, ge)
    | yes less ↦ absurd (
        b.left (k - 1) (omega (arith, less))
          (a.all (k - 1) (omega (arith, less)) (omega (arith, le, lt))))
  ]

  not_beyond :
      (j m k n x : ℕ)
      → Maximal f v j m
      → Maximal f v k n
      → k ≤ x
      → x < j + m
      → j ≤ x
      → x < k + n
      → j + m ≤ k + n
  not_beyond j m k n x a b from until le lt = elim (dec_lt (k + n) (j + m)) [
    | no ge ↦ omega (arith, ge)
    | yes less ↦ absurd (b.right (a.all (k + n) (omega (arith, le, lt)) less))
  ]

  pub same_run :
      (j m k n x : ℕ)
      → Maximal f v j m
      → Maximal f v k n
      → j ≤ x
      → x < j + m
      → k ≤ x
      → x < k + n
      → (j ≡ k) × (m ≡ n)
  same_run j m k n x a b lo hi from to =
      let p = not_before j m k n x a b from hi in
      let q = not_before k n j m x b a lo to in
      let r = not_beyond j m k n x a b from hi lo to in
      let t = not_beyond k n j m x b a lo to from hi in
      (omega (arith, p, q), omega (arith, p, q, r, t))

-- g is f with [lo, lo + sz) changed to v, none of which had v; [k, k + n) is a longest run of g that
-- holds lo
module _ {V : Type 0} (f g : ℕ → Option V) (v : V) (lo sz : ℕ) (pos : 0 < sz)
    (changed : (x : ℕ) → g x ≡ (if leb lo x && ltb x (lo + sz) then some v else f x))
    (fresh : (x : ℕ) → lo ≤ x → x < lo + sz → f x ≢ some v) (k n : ℕ) (run : Maximal g v k n)
    (from : k ≤ lo) (until : lo < k + n) where
  before : (x : ℕ) → x < lo → g x ≡ f x
  before x lt = changed x ∙ (ground (arith, lt))

  after : (x : ℕ) → lo + sz ≤ x → g x ≡ f x
  after x le = changed x ∙ (ground (arith, le))

  marked : (x : ℕ) → lo ≤ x → x < lo + sz → g x ≡ some v
  marked x le lt = changed x ∙ (ground (arith, le, lt))

  pub run_reaches : lo + sz ≤ k + n
  run_reaches = elim (dec_lt (k + n) (lo + sz)) [
    | no ge ↦ omega (arith, ge)
    | yes short ↦ absurd (run.right (marked (k + n) (omega (arith, until)) short))
  ]

  -- the part of the run before the marked points was a longest run, and so was that after them
  pub left_part : k < lo → Maximal f v k (lo - k)
  left_part lt = record {
    some_there = omega (arith, lt);
    all = λ x a c. sym (before x (omega (arith, c, lt))) ∙ run.all x a (omega (arith, c, until));
    left = λ y e h. run.left y e (before y (omega (arith, e, lt)) ∙ h);
    right = λ h. fresh (k + (lo - k)) (omega (arith, lt)) (omega (arith, lt, pos)) h;
  }

  pub right_part : lo + sz < k + n → Maximal f v (lo + sz) (k + n - (lo + sz))
  right_part lt = record {
    some_there = omega (arith, lt);
    all = λ x a c. sym (after x a) ∙ run.all x (omega (arith, a, from)) (omega (arith, c, lt));
    left = λ y e h. fresh y (omega (arith, e, pos)) (omega (arith, e)) h;
    right = λ h. run.right (
        subst (λ y. g y ≡ some v) {x = lo + sz + (k + n - (lo + sz))} (omega (arith, lt))
          (after (lo + sz + (k + n - (lo + sz))) (omega arith) ∙ h));
  }

  -- outside of the run the longest runs are the same
  pub kept_run : (j m : ℕ) → Maximal f v j m → j + m < k ⊎ k + n < j → Maximal g v j m
  kept_run j m a (inl lt) = record {
    some_there = a.some_there;
    all = λ x p q. before x (omega (arith, q, lt, from)) ∙ a.all x p q;
    left = λ y e h. a.left y e (sym (before y (omega (arith, e, lt, from))) ∙ h);
    right = λ h. a.right (sym (before (j + m) (omega (arith, lt, from))) ∙ h);
  }
  kept_run j m a (inr lt) =
      let reach = run_reaches in
      record {
        some_there = a.some_there;
        all = λ x p q. after x (omega (arith, p, lt, reach)) ∙ a.all x p q;
        left = λ y e h. a.left y e (sym (after y (omega (arith, e, lt, reach))) ∙ h);
        right = λ h. a.right (sym (after (j + m) (omega (arith, lt, reach))) ∙ h);
      }

  pub old_run : (j m : ℕ) → Maximal g v j m → j + m < k ⊎ k + n < j → Maximal f v j m
  old_run j m a (inl lt) = record {
    some_there = a.some_there;
    all = λ x p q. sym (before x (omega (arith, q, lt, from))) ∙ a.all x p q;
    left = λ y e h. a.left y e (before y (omega (arith, e, lt, from)) ∙ h);
    right = λ h. a.right (before (j + m) (omega (arith, lt, from)) ∙ h);
  }
  old_run j m a (inr lt) =
      let reach = run_reaches in
      record {
        some_there = a.some_there;
        all = λ x p q. sym (after x (omega (arith, p, lt, reach))) ∙ a.all x p q;
        left = λ y e h. a.left y e (after y (omega (arith, e, lt, reach)) ∙ h);
        right = λ h. a.right (after (j + m) (omega (arith, lt, reach)) ∙ h);
      }

  pub data Old (j m : ℕ) : Type 0 where
    apart : j + m < k ⊎ k + n < j → Old j m
    was_left : j ≡ k → k < lo → Old j m
    was_right : j ≡ lo + sz → lo + sz < k + n → Old j m

  was_shared : (j m x : ℕ) → Maximal f v j m → j ≤ x → x < j + m → k ≤ x → x < k + n → Old j m
  was_shared j m x a p q r t = elim (dec_lt x lo) [
    | yes low ↦
        was_left
          (same_run f v j m k (lo - k) x a (left_part (omega (arith, low, r))) p q r
            (omega (arith, low, r))).0
          (omega (arith, low, r))
    | no ge ↦ elim (dec_lt x (lo + sz)) [
      | yes there ↦ absurd (fresh x (omega (arith, ge)) there (a.all x p q))
      | no high ↦
          was_right
            (same_run f v j m (lo + sz) (k + n - (lo + sz)) x a
              (right_part (omega (arith, high, t))) p q (omega (arith, high)) (omega (arith, t))).0
            (omega (arith, high, t))
    ]
  ]

  -- a longest run before the mark
  pub was_cases : (j m : ℕ) → Maximal f v j m → Old j m
  was_cases j m a = elim (dec_lt (j + m) k) [
    | yes before_it ↦ apart (inl before_it)
    | no p ↦ elim (dec_lt (k + n) j) [
      | yes after_it ↦ apart (inr after_it)
      | no q ↦ elim (ℕ_discrete (j + m) k) [
        | yes touch ↦ elim (dec_lt k lo) [
          | yes lt ↦ absurd (
              a.right (
                subst (λ y. f y ≡ some v) (sym touch)
                  (sym (before k lt) ∙ run.all k (omega arith) (omega (arith, until, lt)))))
          | no ge ↦ absurd (
              run.left (j + m - 1) (omega (arith, touch, a.some_there)) (
                before (j + m - 1) (omega (arith, touch, from, a.some_there))
                ∙ a.all (j + m - 1) (omega (arith, a.some_there)) (omega (arith, a.some_there))))
        ]
        | no ne ↦ elim (ℕ_discrete j (k + n)) [
          | yes touch ↦ absurd (
              run.right (
                after (k + n) run_reaches
                ∙ subst (λ y. f y ≡ some v) touch
                    (a.all j (omega arith) (omega (arith, a.some_there)))))
          | no ne' ↦ elim (dec_lt j k) [
            | yes lt ↦
                was_shared j m k a (omega (arith, lt)) (ground (arith, p, ne)) (omega arith)
                  (omega (arith, run.some_there))
            | no ge ↦
                was_shared j m j a (omega arith) (omega (arith, a.some_there)) (omega (arith, ge))
                  (ground (arith, q, ne'))
          ]
        ]
      ]
    ]
  ]

  -- a longest run after it
  pub now_cases : (j m : ℕ) → Maximal g v j m → (j + m < k ⊎ k + n < j) ⊎ ((j ≡ k) × (m ≡ n))
  now_cases j m a = elim (dec_lt (j + m) k) [
    | yes before_it ↦ inl (inl before_it)
    | no p ↦ elim (dec_lt (k + n) j) [
      | yes after_it ↦ inl (inr after_it)
      | no q ↦ elim (ℕ_discrete (j + m) k) [
        | yes touch ↦ absurd (
            a.right (
              subst (λ y. g y ≡ some v) (sym touch)
                (run.all k (omega arith) (omega (arith, run.some_there)))))
        | no ne ↦ elim (ℕ_discrete j (k + n)) [
          | yes touch ↦ absurd (
              run.right (
                subst (λ y. g y ≡ some v) touch
                  (a.all j (omega arith) (omega (arith, a.some_there)))))
          | no ne' ↦ elim (dec_lt j k) [
            | yes lt ↦ inr (
                same_run g v j m k n k a run (omega (arith, lt)) (ground (arith, p, ne))
                  (omega arith) (omega (arith, run.some_there)))
            | no ge ↦ inr (
                same_run g v j m k n j a run (omega arith) (omega (arith, a.some_there))
                  (omega (arith, ge)) (ground (arith, q, ne')))
          ]
        ]
      ]
    ]
  ]
