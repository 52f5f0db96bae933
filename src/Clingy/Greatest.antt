-- ===== src/Clingy/Greatest.antt =====
-- The list of the best spans in `_find_largest_revokable_spans`.
use memory_alloc_analysis.Prelude.{
  ℕ, zero, suc, ◌-◌, ◌≤◌, ◌<◌, ◌≡◌, refl, ap, ◌∙◌, true, false, ◌||◌, ◌==◌, leb, List, [], ◌∷◌,
  length, All, arith, Bool-cases, inl, inr, ok, subst, ◌⊎◌,
}
use memory_alloc_analysis.Clingy.Defs.{Best, no_span, best, njunk}
use memory_alloc_analysis.Clingy.Revoke.{below, insort, drop, last_ones, last, keep_best}

-- the spans have more and more junk
abbrev pub Ascending : List Best → Type 0
Ascending [] = Unit
Ascending (x ∷ []) = Unit
Ascending (x ∷ y ∷ l) = (njunk x ≤ njunk y) × Ascending (y ∷ l)

below_le : (x y : Best) → below x y ≡ true → njunk x ≤ njunk y
below_le no_span no_span h = omega arith
below_le no_span (best nj bix sz) h = omega arith
below_le (best nj bix sz) no_span h = cc h
below_le (best nj bix sz) (best nk cix tz) h = ground (arith, h)

not_below_le : (x y : Best) → below x y ≡ false → njunk y ≤ njunk x
not_below_le no_span no_span h = omega arith
not_below_le no_span (best nj bix sz) h = cc h
not_below_le (best nj bix sz) no_span h = omega arith
not_below_le (best nj bix sz) (best nk cix tz) h = ground (arith, h)

insort_before : (x y : Best) (l : List Best) → below x y ≡ true → insort x (y ∷ l) ≡ x ∷ y ∷ l
unfolding insort
insort_before x y l h = rw h refl

insort_after : (x y : Best) (l : List Best) → below x y ≡ false → insort x (y ∷ l) ≡ y ∷ insort x l
unfolding insort
insort_after x y l h = rw h refl

insort-Ascending : (x : Best) (l : List Best) → Ascending l → Ascending (insort x l)
unfolding insort
insort-Ascending x [] h = tt
insort-Ascending x (y ∷ []) h = elim (Bool-cases (below x y)) [
  | inl lt ↦ rw (insort_before x y [] lt) (below_le x y lt, tt)
  | inr ge ↦ rw (insort_after x y [] ge) (not_below_le x y ge, tt)
]
insort-Ascending x (y ∷ z ∷ l) h = elim (Bool-cases (below x y)) [
  | inl lt ↦ rw (insort_before x y (z ∷ l) lt) (below_le x y lt, h)
  | inr ge ↦ rw (insort_after x y (z ∷ l) ge) (elim (Bool-cases (below x z)) [
    | inl lt ↦ rw (insort_before x z l lt) (not_below_le x y ge, (below_le x z lt, h.1))
    | inr more ↦
        rw (insort_after x z l more)
          (h.0, subst Ascending (insort_after x z l more) (insort-Ascending x (z ∷ l) h.1))
  ])
]

-- of an ascending list, the last has the most
pub record Top (l : List Best) (nj : ℕ) : Type 0 where
  pub top : Best
  pub is : last l ≡ ok top
  pub most : All (λ y. njunk y ≤ njunk top) l
  pub more : nj ≤ njunk top

last-Top : (x : Best) (l : List Best) → Ascending (x ∷ l) → Top (x ∷ l) (njunk x)
unfolding last
last-Top x [] h = record { top = x; is = refl; most = (omega arith, tt); more = omega arith }
last-Top x (y ∷ l) h =
    let r = last-Top y l h.1 in
    record {
      top = r.top;
      is = r.is;
      most = (omega (arith, r.more, h.0), r.most);
      more = omega (arith, r.more, h.0);
    }

-- what is in the list and x are in the list with x
All-insort : (x : Best) (l : List Best) (P : Best → Type 0) → All P (insort x l) → P x × All P l
unfolding insort
All-insort x [] P h = (h.0, tt)
All-insort x (y ∷ l) P h = elim (Bool-cases (below x y)) [
  | inl lt ↦ let h' = subst (All P) (insort_before x y l lt) h in (h'.0, h'.1)
  | inr ge ↦
      let h' = subst (All P) (insort_after x y l ge) h in
      let r = All-insort x l P h'.1 in (r.0, (h'.0, r.1))
]

last-drop : (k : ℕ) (l : List Best) → k < length l → last (drop k l) ≡ last l
unfolding last
last-drop zero l h = refl
last-drop (suc k) [] h = absurd (omega (arith, h))
last-drop (suc k) (x ∷ []) h = absurd (omega (arith, h))
last-drop (suc k) (x ∷ y ∷ l) h = last-drop k (y ∷ l) (omega arith)

drop-Ascending : (k : ℕ) (l : List Best) → Ascending l → Ascending (drop k l)
drop-Ascending zero l h = h
drop-Ascending (suc k) [] h = tt
drop-Ascending (suc k) (x ∷ []) h = drop-Ascending k [] tt
drop-Ascending (suc k) (x ∷ y ∷ l) h = drop-Ascending k (y ∷ l) h.1

length-insort : (x : Best) (l : List Best) → length (insort x l) ≡ suc (length l)
unfolding insort
length-insort x [] = refl
length-insort x (y ∷ l) = elim (Bool-cases (below x y)) [
  | inl lt ↦ rw (insort_before x y l lt) refl
  | inr ge ↦ rw (insort_after x y l ge) (ap suc (length-insort x l))
]

length-drop : (k : ℕ) (l : List Best) → length (drop k l) ≡ length l - k
length-drop zero l = omega arith
length-drop (suc k) [] = omega arith
length-drop (suc k) (x ∷ l) = omega (arith, length-drop k l)

any-Top : (l : List Best) → 0 < length l → Ascending l → Top l 0
any-Top [] h a = absurd (omega (arith, h))
any-Top (x ∷ l) h a =
    let r = last-Top x l a in record { top = r.top; is = r.is; most = r.most; more = omega arith }

-- The best spans with a new run of nj JUNK buckets.
pub record Keeps (n nj : ℕ) (old new : List Best) : Type 0 where
  pub ascending : Ascending new
  pub few : (length new ≤ n) ⊎ (length new ≤ length old)
  pub top : Best
  pub is : last new ≡ ok top
  pub not_less : nj ≤ njunk top
  pub most : All (λ y. njunk y ≤ njunk top) old

module _ (n nj qbase qsz : ℕ) (b : Best) (bs : List Best) (pos : 0 < n)
    (asc : Ascending (b ∷ bs)) where
  skipped : (nj == 0 || leb nj (njunk b)) ≡ true → Keeps n nj (b ∷ bs) (b ∷ bs)
  skipped h =
      let r = last-Top b bs asc in
      record {
        ascending = asc;
        few = inr (omega arith);
        top = r.top;
        is = r.is;
        not_less = ground (arith, h, r.more);
        most = r.most;
      }

  abbrev grown : List Best
  unfolding insort
  grown = insort (best nj qbase qsz) (b ∷ bs)

  added : Keeps n nj (b ∷ bs) (last_ones n grown)
  unfolding grown
  added =
      let len = length-insort (best nj qbase qsz) (b ∷ bs) in
      let r =
        any-Top grown (omega (arith, len)) (insort-Ascending (best nj qbase qsz) (b ∷ bs) asc) in
      let each = All-insort (best nj qbase qsz) (b ∷ bs) (λ y. njunk y ≤ njunk r.top) r.most in
      record {
        ascending =
            drop-Ascending (length grown - n) grown
              (insort-Ascending (best nj qbase qsz) (b ∷ bs) asc);
        few = inl (omega (arith, length-drop (length grown - n) grown));
        top = r.top;
        is = last-drop (length grown - n) grown (omega (arith, len)) ∙ r.is;
        not_less = each.0;
        most = each.1;
      }

  -- Where the best spans so far are in ascending order and n is positive, a new run leaves them in
  -- ascending order, no more than n or than they were, and the last of them has as much junk as the
  -- new run and as each that was there.
  pub keep_best-Keeps : Keeps n nj (b ∷ bs) (keep_best n (njunk b) nj qbase qsz (b ∷ bs))
  unfolding keep_best
  keep_best-Keeps = elim (Bool-cases (nj == 0 || leb nj (njunk b))) [
    | inl small ↦ rw (keep_best, small) (skipped small)
    | inr large ↦ rw (keep_best, large) added
  ]
