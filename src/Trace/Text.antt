-- ===== src/Trace/Text.antt =====
-- Python's str as a list of code points: comparison, `split` and `join` at one character.
use Prim.Native.Char.{code}
use Prim.Native.String.{String}
use memory_alloc_analysis.Prelude.{
  ℕ, ◌≡◌, ◌≢◌, refl, ap, Bool, true, false, ◌&&◌, List, [], ◌∷◌, ◌++◌, ◌==◌, if◌then◌else◌, arith,
  All, Bool-cases, inl, inr, ◌∙◌,
}

abbrev pub Text : Type 0
Text = List ℕ

abbrev pub codes : String → Text
codes String.[] = []
codes (String.◌∷◌ c s) = code c ∷ codes s

abbrev pub same : Text → Text → Bool
same [] [] = true
same [] (d ∷ t) = false
same (c ∷ s) [] = false
same (c ∷ s) (d ∷ t) = c == d && same s t

pub same_refl : (s : Text) → same s s ≡ true
same_refl [] = refl
same_refl (c ∷ s) = ground (arith, same_refl s)

pub same→≡ : (s t : Text) → same s t ≡ true → s ≡ t
same→≡ [] [] h = refl
same→≡ [] (d ∷ t) h = absurd (ground arith)
same→≡ (c ∷ s) [] h = absurd (ground arith)
same→≡ (c ∷ s) (d ∷ t) h = ground (arith, same→≡ s t)

abbrev put_first : ℕ → List Text → List Text
put_first c [] = (c ∷ []) ∷ []
put_first c (p ∷ ps) = (c ∷ p) ∷ ps

-- s.split(sep)
unfoldable pub split : ℕ → Text → List Text
split sep [] = [] ∷ []
split sep (c ∷ s) = let rest = split sep s in if c == sep then [] ∷ rest else put_first c rest

-- sep.join(ps)
unfoldable pub join : ℕ → List Text → Text
join sep [] = []
join sep (p ∷ []) = p
join sep (p ∷ q ∷ ps) = p ++ (sep ∷ join sep (q ∷ ps))

abbrev pub Lacks : ℕ → Text → Type 0
Lacks c = All (λ d. d ≢ c)

split-append : (sep : ℕ) (p s : Text) → Lacks sep p → split sep (p ++ (sep ∷ s)) ≡ p ∷ split sep s
unfolding split
split-append sep [] s h = ground arith
split-append sep (c ∷ p) s h =
    let other : (c == sep) ≡ false = ground (arith, h.0) in
    rw (other, split-append sep p s h.1) refl

split_one : (sep : ℕ) (p : Text) → Lacks sep p → split sep p ≡ p ∷ []
unfolding split
split_one sep [] h = refl
split_one sep (c ∷ p) h =
    let other : (c == sep) ≡ false = ground (arith, h.0) in rw (other, split_one sep p h.1) refl

pub split-join :
    (sep : ℕ) (p : Text) (ps : List Text)
    → All (Lacks sep) (p ∷ ps)
    → split sep (join sep (p ∷ ps)) ≡ p ∷ ps
unfolding join
split-join sep p [] h = split_one sep p h.0
split-join sep p (q ∷ ps) h =
    split-append sep p (join sep (q ∷ ps)) h.0 ∙ ap (◌∷◌ p) (split-join sep q ps h.1)

put_first-Lacks :
    (sep c : ℕ) (ps : List Text) → c ≢ sep → All (Lacks sep) ps → All (Lacks sep) (put_first c ps)
put_first-Lacks sep c [] ne h = ((ne, tt), tt)
put_first-Lacks sep c (p ∷ ps) ne h = ((ne, h.0), h.1)

-- no part has the separator
pub split-Lacks : (sep : ℕ) (s : Text) → All (Lacks sep) (split sep s)
unfolding split
split-Lacks sep [] = (tt, tt)
split-Lacks sep (c ∷ s) = elim (Bool-cases (c == sep)) [
  | inl is ↦ rw (split, is) (tt, split-Lacks sep s)
  | inr isnt ↦
      rw (split, isnt)
        (put_first-Lacks sep c (split sep s) (ground (arith, isnt)) (split-Lacks sep s))
]
