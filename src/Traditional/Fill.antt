-- ===== src/Traditional/Fill.antt =====
-- How many spans a revocation takes.
use memory_alloc_analysis.Prelude.{
  ℕ, suc, ◌+◌, ◌≤◌, ◌<◌, ◌≡◌, refl, ap, ◌∙◌, min, false, List, [], ◌∷◌, ◌++◌, length, leb, arith,
  Bool-cases, inl, inr,
}
use memory_alloc_analysis.Clingy.Defs.{Best}
use memory_alloc_analysis.Clingy.Revoke.{member, add}
use memory_alloc_analysis.Traditional.Revoke.{fill}

-- the spans are new to the set, one after another
abbrev pub Apart : List Best → List Best → Type 0
Apart rset [] = Unit
Apart rset (b ∷ bs) = (member b rset ≡ false) × Apart (rset ++ (b ∷ [])) bs

length_snoc : (l : List Best) (b : Best) → length (l ++ (b ∷ [])) ≡ suc (length l)
length_snoc [] b = refl
length_snoc (x ∷ l) b = ap suc (length_snoc l b)

length-fill :
    (n : ℕ) (bs rset : List Best)
    → Apart rset bs
    → length rset ≤ suc n
    → length (fill n bs rset).0 ≡ min (suc n) (length rset + length bs)
unfolding fill add
length-fill n [] rset apart few = omega arith
length-fill n (b ∷ bs) rset apart few = elim (Bool-cases (leb (length rset) n)) [
  | inl more ↦
      let one = length_snoc rset b in
      rw (more, apart.0)
        (length-fill n bs (rset ++ (b ∷ [])) apart.1 (ground (arith, one, more))
          ∙ omega (arith, one))
  | inr full ↦ rw full (ground (arith, full, few))
]

-- With no address to revoke, _do_revoke_best_and takes n + 1 of the spans that were found, where
-- there are so many and no two are equal, and not n.
pub length-fill_one_more :
    (n : ℕ) (bs : List Best) → Apart [] bs → n < length bs → length (fill n bs []).0 ≡ n + 1
length-fill_one_more n bs apart more = omega (arith, length-fill n bs [] apart (omega arith))
