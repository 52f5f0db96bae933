-- ===== src/IntervalMap/Carved.antt =====
-- A table of the longest runs of one value, and a mark of the start of such a run with another.
use memory_alloc_analysis.Prelude.{
  ℕ, ◌+◌, ◌-◌, ◌≤◌, ◌<◌, ◌≡◌, ◌≢◌, ◌⊎◌, inl, inr, refl, sym, ◌∙◌, Option, some, none, ◌&&◌, ◌==◌,
  not, false, if◌then◌else◌, leb, ltb, arith, subst, subst₂, Bool-cases,
}
use native.Mathlib.Decide.{dec_lt, ℕ_discrete}
use memory_alloc_analysis.IntervalMap.Maximal.{Maximal, same_run}
use memory_alloc_analysis.IntervalMap.Listing.{Lists}

-- the table without the run (lo, n), and with what is left of it after its first sz points
abbrev pub carved : (lo sz n : ℕ) → (ℕ → Option ℕ) → ℕ → Option ℕ
carved lo sz n old j =
    if j == lo + sz && not (lo + n == lo + sz)
    then some (lo + n - lo - sz)
    else if j == lo
    then none
    else old j

module _ {V : Type 0} (f g : ℕ → Option V) (v u : V) (lo sz n : ℕ) (pos : 0 < sz) (enough : sz ≤ n)
    (differs : u ≢ v)
    (changed : (x : ℕ) → g x ≡ (if leb lo x && ltb x (lo + sz) then some u else f x))
    (run : Maximal f v lo n) where
  before : (x : ℕ) → x < lo → g x ≡ f x
  before x lt = changed x ∙ (ground (arith, lt))

  after : (x : ℕ) → lo + sz ≤ x → g x ≡ f x
  after x le = changed x ∙ (ground (arith, le))

  marked : (x : ℕ) → lo ≤ x → x < lo + sz → g x ≢ some v
  marked x le lt h =
      let now : g x ≡ some u = changed x ∙ (ground (arith, le, lt)) in
      let same : some u ≡ some v = sym now ∙ h in differs (cc same)

  left_over : sz < n → Maximal g v (lo + sz) (lo + n - lo - sz)
  left_over lt = record {
    some_there = omega (arith, lt);
    all = λ x p q. after x p ∙ run.all x (omega (arith, p)) (omega (arith, q, lt));
    left = λ y e h. marked y (omega (arith, e, pos)) (omega (arith, e)) h;
    right = λ h. run.right (
        subst (λ y. f y ≡ some v) {x = lo + sz + (lo + n - lo - sz)} (omega (arith, lt))
          (sym (after (lo + sz + (lo + n - lo - sz)) (omega arith)) ∙ h));
  }

  kept_run : (j m : ℕ) → Maximal f v j m → j + m < lo ⊎ lo + n < j → Maximal g v j m
  kept_run j m a (inl lt) = record {
    some_there = a.some_there;
    all = λ x p q. before x (omega (arith, q, lt)) ∙ a.all x p q;
    left = λ y e h. a.left y e (sym (before y (omega (arith, e, lt))) ∙ h);
    right = λ h. a.right (sym (before (j + m) lt) ∙ h);
  }
  kept_run j m a (inr lt) = record {
    some_there = a.some_there;
    all = λ x p q. after x (omega (arith, p, lt, enough)) ∙ a.all x p q;
    left = λ y e h. a.left y e (sym (after y (omega (arith, e, lt, enough))) ∙ h);
    right = λ h. a.right (sym (after (j + m) (omega (arith, lt, enough))) ∙ h);
  }

  old_run : (j m : ℕ) → Maximal g v j m → j + m < lo ⊎ lo + n < j → Maximal f v j m
  old_run j m a (inl lt) = record {
    some_there = a.some_there;
    all = λ x p q. sym (before x (omega (arith, q, lt))) ∙ a.all x p q;
    left = λ y e h. a.left y e (before y (omega (arith, e, lt)) ∙ h);
    right = λ h. a.right (before (j + m) lt ∙ h);
  }
  old_run j m a (inr lt) = record {
    some_there = a.some_there;
    all = λ x p q. sym (after x (omega (arith, p, lt, enough))) ∙ a.all x p q;
    left = λ y e h. a.left y e (after y (omega (arith, e, lt, enough)) ∙ h);
    right = λ h. a.right (after (j + m) (omega (arith, lt, enough)) ∙ h);
  }

  -- a longest run of f that does not start at lo
  other_run : (j m : ℕ) → Maximal f v j m → j ≢ lo → j + m < lo ⊎ lo + n < j
  other_run j m a ne = elim (dec_lt (j + m) lo) [
    | yes low ↦ inl low
    | no p ↦ elim (dec_lt (lo + n) j) [
      | yes high ↦ inr high
      | no q ↦ elim (dec_lt j lo) [
        | yes lt ↦ absurd (
            run.left (lo - 1) (omega (arith, lt))
              (a.all (lo - 1) (omega (arith, lt)) (omega (arith, lt, p))))
        | no ge ↦ elim (ℕ_discrete j (lo + n)) [
          | yes touch ↦ absurd (
              run.right (
                subst (λ y. f y ≡ some v) touch
                  (a.all j (omega arith) (omega (arith, a.some_there)))))
          | no within ↦ absurd (
              ne
                (same_run f v j m lo n j a run (omega arith) (omega (arith, a.some_there))
                  (omega (arith, ge)) (ground (arith, q, within))).0)
        ]
      ]
    ]
  ]

  data New (j m : ℕ) : Type 0 where
    apart : j + m < lo ⊎ lo + n < j → New j m
    rest : sz < n → j ≡ lo + sz → m ≡ lo + n - lo - sz → New j m

  now_cases : (j m : ℕ) → Maximal g v j m → New j m
  now_cases j m a = elim (dec_lt j lo) [
    | yes lt ↦ elim (dec_lt lo (j + m)) [
      | yes over ↦
          absurd (marked lo (omega arith) (omega (arith, pos)) (a.all lo (omega (arith, lt)) over))
      | no p ↦ elim (ℕ_discrete (j + m) lo) [
        | yes touch ↦ absurd (
            run.left (lo - 1) (omega (arith, lt)) (
              sym (before (lo - 1) (omega (arith, lt)))
              ∙ a.all (lo - 1) (omega (arith, lt)) (omega (arith, touch, lt))))
        | no ne ↦ apart (inl (ground (arith, p, ne)))
      ]
    ]
    | no ge ↦ elim (dec_lt j (lo + sz)) [
      | yes within ↦ absurd (
          marked j (omega (arith, ge)) within (a.all j (omega arith) (omega (arith, a.some_there))))
      | no past ↦ elim (dec_lt (lo + n) j) [
        | yes high ↦ apart (inr high)
        | no q ↦ elim (ℕ_discrete j (lo + n)) [
          | yes touch ↦ absurd (
              run.right (
                sym (after (lo + n) (omega (arith, enough)))
                ∙ subst (λ y. g y ≡ some v) touch
                    (a.all j (omega arith) (omega (arith, a.some_there)))))
          | no ne ↦
              let below : j < lo + n = ground (arith, q, ne) in
              let more : sz < n = omega (arith, past, below) in
              let (is, size) =
                same_run g v j m (lo + sz) (lo + n - lo - sz) j a (left_over more) (omega arith)
                  (omega (arith, a.some_there)) (omega (arith, past))
                  (omega (arith, below, more)) in
              rest more is size
        ]
      ]
    ]
  ]

  module _ (old new : ℕ → Option ℕ) (lists : Lists f v old)
      (sizes : (j : ℕ) → new j ≡ carved lo sz n old j) where
    listed-Maximal : (j m : ℕ) → new j ≡ some m → Maximal g v j m
    listed-Maximal j m h = elim (Bool-cases (j == lo + sz && not (lo + n == lo + sz))) [
      | inl at ↦
          let now : new j ≡ some (lo + n - lo - sz) = sizes j ∙ rw at refl in
          let size : some (lo + n - lo - sz) ≡ some m = sym now ∙ h in
          let is : j ≡ lo + sz = ground (arith, at) in
          subst₂ (Maximal g v) (sym is) (cc size) (left_over (ground (arith, at, enough)))
      | inr away ↦ elim (Bool-cases (j == lo)) [
        | inl gone ↦ let now : new j ≡ none = sizes j ∙ rw (away, gone) refl in cc (h, now)
        | inr kept ↦
            let now : new j ≡ old j = sizes j ∙ rw (away, kept) refl in
            let a = (lists j m).0 (sym now ∙ h) in
            kept_run j m a (other_run j m a (λ e. ground (arith, kept, e)))
      ]
    ]

    Maximal-listed : (j m : ℕ) → Maximal g v j m → new j ≡ some m
    Maximal-listed j m a = elim (now_cases j m a) [
      | rest more is size ↦ sizes j ∙ ground (arith, more, is, size)
      | apart away ↦
          let e = (lists j m).1 (old_run j m a away) in
          let not_at : (j == lo + sz && not (lo + n == lo + sz)) ≡ false =
            ground (arith, away, enough, pos, a.some_there) in
          let kept : (j == lo) ≡ false = ground (arith, away, a.some_there) in
          sizes j ∙ rw (not_at, kept) e
    ]

    pub Lists-carved : Lists g v new
    Lists-carved j m = (listed-Maximal j m, Maximal-listed j m)
