-- ===== src/Clingy/Fit.antt =====
-- The placement of sim/alloc/TypelessClingy.py.
use memory_alloc_analysis.Prelude.{
  ℕ, ◌≤◌, ◌<◌, ◌≡◌, refl, ◌⊎◌, inl, inr, Bool, true, false, Option, none, some, List, [], ◌∷◌,
  if◌then◌else◌, ltb, ◌==◌, arith, All, Bool-cases, Result, ok, err, stop_iteration, type_error,
}
use memory_alloc_analysis.Clingy.Alloc.{Policy}

-- next(loc for (loc, tsz) in tidys if tsz >= sz)
unfoldable pub first_fit : ℕ → List (ℕ × ℕ) → Result ℕ
first_fit sz [] = err stop_iteration
first_fit sz ((loc, tsz) ∷ l) = let rest = first_fit sz l in if ltb tsz sz then rest else ok loc

-- bestsz is not None and bestsz < tsz
abbrev pub has_smaller : Option (ℕ × ℕ) → ℕ → Bool
has_smaller none tsz = false
has_smaller (some b) tsz = ltb b.1 tsz

abbrev pub location : Option (ℕ × ℕ) → Option ℕ
location none = none
location (some b) = some b.0

-- the loop, with (bestloc, bestsz) so far
unfoldable pub best_from : ℕ → Option (ℕ × ℕ) → List (ℕ × ℕ) → Option ℕ
best_from sz found [] = location found
best_from sz found ((loc, tsz) ∷ l) =
    let same = best_from sz found l in
    let this = best_from sz (some (loc, tsz)) l in
    if ltb tsz sz
    then same
    else if tsz == sz
    then some loc
    else if has_smaller found tsz
    then same
    else this

unfoldable pub best_fit : ℕ → List (ℕ × ℕ) → Option ℕ
unfolding best_from
best_fit sz l = best_from sz none l

-- `None` for a bucket fails where it is compared with a number
abbrev pub or_type_error : Option ℕ → Result ℕ
or_type_error none = err type_error
or_type_error (some loc) = ok loc

unfoldable pub place_large : Bool → ℕ → List (ℕ × ℕ) → Result ℕ
unfolding first_fit best_fit
place_large bestfit sz l = if bestfit then or_type_error (best_fit sz l) else first_fit sz l

unfoldable pub place_small : Bool → List ℕ → List (ℕ × ℕ) → Result ℕ
unfolding place_large
place_small bestfit [] l = place_large bestfit 1 l
place_small bestfit (bbk ∷ bbks) l = ok bbk

unfoldable pub on_bucket_free : Bool → Option Bool
on_bucket_free unsafe_reuse = some (if unsafe_reuse then false else true)

-- sim/alloc/TypelessClingy.py with --best-fit and --unsafe-reuse
unfoldable pub typeless : (E : Type 0) → Bool → Bool → Policy E
unfolding place_small place_large on_bucket_free
typeless E bestfit unsafe_reuse = record {
  place_small = λ event sz bbks l. place_small bestfit bbks l;
  place_large = λ event sz l. place_large bestfit sz l;
  on_bucket_free = λ bix bsz. on_bucket_free unsafe_reuse;
}

abbrev pub Among : ℕ × ℕ → List (ℕ × ℕ) → Type 0
Among p [] = ⊥
Among p (q ∷ l) = (p ≡ q) ⊎ Among p l

-- a candidate that is large enough, and none that is large enough is smaller
pub record Fits (sz : ℕ) (l : List (ℕ × ℕ)) (loc : ℕ) : Type 0 where
  pub size : ℕ
  pub among : Among (loc, size) l
  pub enough : sz ≤ size
  pub least : All (λ p. sz ≤ p.1 → size ≤ p.1) l

abbrev pub Chosen : ℕ → List (ℕ × ℕ) → Option ℕ → Type 0
Chosen sz l none = All (λ p. p.1 < sz) l
Chosen sz l (some loc) = Fits sz l loc

-- the loop keeps the span found so far or takes a smaller one
pub record Improves (sz bl bs : ℕ) (l : List (ℕ × ℕ)) (o : Option ℕ) : Type 0 where
  pub loc : ℕ
  pub size : ℕ
  pub is : o ≡ some loc
  pub among : Among (loc, size) ((bl, bs) ∷ l)
  pub enough : sz ≤ size
  pub smaller : size ≤ bs
  pub least : All (λ p. sz ≤ p.1 → size ≤ p.1) l

All-enough : (sz size : ℕ) (l : List (ℕ × ℕ)) → size ≤ sz → All (λ p. sz ≤ p.1 → size ≤ p.1) l
All-enough sz size [] h = tt
All-enough sz size (p ∷ l) h = (λ e. omega arith, All-enough sz size l h)

deeper : (p q x : ℕ × ℕ) (l : List (ℕ × ℕ)) → Among p (q ∷ l) → Among p (q ∷ x ∷ l)
deeper p q x l (inl h) = inl h
deeper p q x l (inr h) = inr (inr h)

best_from-Improves :
    (sz bl bs : ℕ) (l : List (ℕ × ℕ))
    → sz ≤ bs
    → Improves sz bl bs l (best_from sz (some (bl, bs)) l)
unfolding best_from
best_from-Improves sz bl bs [] h = record {
  loc = bl;
  size = bs;
  is = refl;
  among = inl refl;
  enough = h;
  smaller = omega arith;
  least = tt;
}
best_from-Improves sz bl bs ((loc, tsz) ∷ l) h = elim (Bool-cases (ltb tsz sz)) [
  | inl small ↦
      let r = best_from-Improves sz bl bs l h in
      rw (best_from, small)
        (record {
          loc = r.loc;
          size = r.size;
          is = r.is;
          among = deeper (r.loc, r.size) (bl, bs) (loc, tsz) l r.among;
          enough = r.enough;
          smaller = r.smaller;
          least = ((λ e. absurd (ground (arith, small, e))), r.least);
        })
  | inr large ↦ elim (Bool-cases (tsz == sz)) [
    | inl exact ↦
        rw (best_from, large, exact)
          (record {
            loc = loc;
            size = tsz;
            is = refl;
            among = inr (inl refl);
            enough = ground (arith, large);
            smaller = ground (arith, exact, h);
            least = ((λ e. omega arith), All-enough sz tsz l (ground (arith, exact)));
          })
    | inr more ↦ elim (Bool-cases (ltb bs tsz)) [
      | inl worse ↦
          let r = best_from-Improves sz bl bs l h in
          rw (best_from, large, more, worse)
            (record {
              loc = r.loc;
              size = r.size;
              is = r.is;
              among = deeper (r.loc, r.size) (bl, bs) (loc, tsz) l r.among;
              enough = r.enough;
              smaller = r.smaller;
              least = ((λ e. ground (arith, worse, r.smaller)), r.least);
            })
      | inr better ↦
          let r = best_from-Improves sz loc tsz l (ground (arith, large)) in
          rw (best_from, large, more, better)
            (record {
              loc = r.loc;
              size = r.size;
              is = r.is;
              among = inr r.among;
              enough = r.enough;
              smaller = ground (arith, better, r.smaller);
              least = ((λ e. r.smaller), r.least);
            })
    ]
  ]
]

skip :
    (sz loc tsz : ℕ) (l : List (ℕ × ℕ)) (o : Option ℕ)
    → tsz < sz
    → Chosen sz l o
    → Chosen sz ((loc, tsz) ∷ l) o
skip sz loc tsz l none lt h = (lt, h)
skip sz loc tsz l (some x) lt h = record {
  size = h.size;
  among = inr h.among;
  enough = h.enough;
  least = ((λ e. absurd (omega (arith, e, lt))), h.least);
}

improved :
    (sz loc tsz : ℕ) (l : List (ℕ × ℕ)) (o : Option ℕ)
    → Improves sz loc tsz l o
    → Chosen sz ((loc, tsz) ∷ l) o
improved sz loc tsz l o r = rw r.is (record {
  size = r.size;
  among = r.among;
  enough = r.enough;
  least = ((λ e. r.smaller), r.least);
})

best_from-Chosen : (sz : ℕ) (l : List (ℕ × ℕ)) → Chosen sz l (best_from sz none l)
unfolding best_from
best_from-Chosen sz [] = tt
best_from-Chosen sz ((loc, tsz) ∷ l) = elim (Bool-cases (ltb tsz sz)) [
  | inl small ↦
      rw (best_from, small)
        (skip sz loc tsz l (best_from sz none l) (ground (arith, small)) (best_from-Chosen sz l))
  | inr large ↦ elim (Bool-cases (tsz == sz)) [
    | inl exact ↦
        rw (best_from, large, exact)
          (record {
            size = tsz;
            among = inl refl;
            enough = ground (arith, large);
            least = ((λ e. omega arith), All-enough sz tsz l (ground (arith, exact)));
          })
    | inr more ↦
        rw (best_from, large, more)
          (improved sz loc tsz l (best_from sz (some (loc, tsz)) l)
            (best_from-Improves sz loc tsz l (ground (arith, large))))
  ]
]

-- The best-fit placement takes a candidate that is large enough and no larger than any other
-- that is large enough, and finds none only where all are too small.
pub best_fit-Chosen : (sz : ℕ) (l : List (ℕ × ℕ)) → Chosen sz l (best_fit sz l)
unfolding best_fit
best_fit-Chosen sz l = best_from-Chosen sz l
