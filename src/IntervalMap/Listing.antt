-- ===== src/IntervalMap/Listing.antt =====
-- A table of the longest runs of one value, and a mark with that value.
use memory_alloc_analysis.Prelude.{
  ℕ, ◌+◌, ◌≤◌, ◌<◌, ◌≡◌, ◌≢◌, ◌↔◌, inl, inr, refl, sym, ◌∙◌, Option, some, none, ◌&&◌, ◌==◌, not,
  false, if◌then◌else◌, leb, ltb, arith, subst₂, Bool-cases,
}
use memory_alloc_analysis.IntervalMap.Maximal.{
  Maximal, kept_run, old_run, was_cases, now_cases, apart, was_left, was_right, run_reaches,
}

-- the table has the longest runs, by where they start
abbrev pub Lists : {V : Type 0} → (ℕ → Option V) → V → (ℕ → Option ℕ) → Type 0
Lists f v sizes = (j m : ℕ) → (sizes j ≡ some m) ↔ Maximal f v j m

-- the table with the run (k, n), without what it took in on either side of [lo, lo + sz)
abbrev pub resized : (lo sz k n : ℕ) → (ℕ → Option ℕ) → ℕ → Option ℕ
resized lo sz k n old j =
    if j == k then some n else if j == lo + sz && not (k + n == lo + sz) then none else old j

module _ {V : Type 0} (f g : ℕ → Option V) (v : V) (lo sz : ℕ) (pos : 0 < sz)
    (changed : (x : ℕ) → g x ≡ (if leb lo x && ltb x (lo + sz) then some v else f x))
    (fresh : (x : ℕ) → lo ≤ x → x < lo + sz → f x ≢ some v) (k n : ℕ) (run : Maximal g v k n)
    (from : k ≤ lo) (until : lo < k + n) (old new : ℕ → Option ℕ) (lists : Lists f v old)
    (sizes : (j : ℕ) → new j ≡ resized lo sz k n old j) where
  listed-Maximal : (j m : ℕ) → new j ≡ some m → Maximal g v j m
  listed-Maximal j m h = elim (Bool-cases (j == k)) [
    | inl same ↦
        let is : j ≡ k = ground arith in
        let now : new j ≡ some n = sizes j ∙ rw same refl in
        let size : some n ≡ some m = sym now ∙ h in subst₂ (Maximal g v) (sym is) (cc size) run
    | inr other ↦ elim (Bool-cases (j == lo + sz && not (k + n == lo + sz))) [
      | inl gone ↦ let now : new j ≡ none = sizes j ∙ rw (other, gone) refl in cc (h, now)
      | inr kept ↦
          let now : new j ≡ old j = sizes j ∙ rw (other, kept) refl in
          let e : old j ≡ some m = sym now ∙ h in
          let a = (lists j m).0 e in
          elim (was_cases f g v lo sz pos changed fresh k n run from until j m a) [
            | apart away ↦ kept_run f g v lo sz pos changed fresh k n run from until j m a away
            | was_left is lt ↦ absurd (ground (arith, other, is))
            | was_right is lt ↦ absurd (ground (arith, kept, is, lt))
          ]
    ]
  ]

  Maximal-listed : (j m : ℕ) → Maximal g v j m → new j ≡ some m
  Maximal-listed j m a = elim (now_cases f g v lo sz pos changed fresh k n run from until j m a) [
    | inr (is, size) ↦ sizes j ∙ ground (arith, is, size)
    | inl away ↦
        let reach = run_reaches f g v lo sz pos changed fresh k n run from until in
        let e =
          (lists j m).1 (old_run f g v lo sz pos changed fresh k n run from until j m a away) in
        let other : (j == k) ≡ false = ground (arith, away, a.some_there, until) in
        let kept : (j == lo + sz) ≡ false =
          ground (arith, away, a.some_there, until, reach, from) in
        sizes j ∙ rw (other, kept) e
  ]

  pub Lists-resized : Lists g v new
  Lists-resized j m = (listed-Maximal j m, Maximal-listed j m)

-- the longest runs of a value are the same where both functions have it at the same points
module _ {V : Type 0} (f g : ℕ → Option V) (v : V) (there : (x : ℕ) → f x ≡ some v → g x ≡ some v)
    (back : (x : ℕ) → g x ≡ some v → f x ≡ some v) where
  Maximal-same : (j m : ℕ) → Maximal f v j m → Maximal g v j m
  Maximal-same j m a = record {
    some_there = a.some_there;
    all = λ x p q. there x (a.all x p q);
    left = λ y e h. a.left y e (back y h);
    right = λ h. a.right (back (j + m) h);
  }

pub Lists-same :
    {V : Type 0} (f g : ℕ → Option V) (v : V) (sizes : ℕ → Option ℕ)
    → ((x : ℕ) → f x ≡ some v → g x ≡ some v)
    → ((x : ℕ) → g x ≡ some v → f x ≡ some v)
    → Lists f v sizes
    → Lists g v sizes
Lists-same f g v sizes there back lists j m = (
  λ h. Maximal-same f g v there back j m ((lists j m).0 h),
  λ a. (lists j m).1 (Maximal-same g f v back there j m a),
)
