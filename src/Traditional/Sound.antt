-- ===== src/Traditional/Sound.antt =====
-- The state of the allocator as a whole, and every sequence of its methods.
use memory_alloc_analysis.Prelude.{
  ℕ, ◌+◌, ◌≤◌, ◌<◌, ◌≡◌, ◌≢◌, refl, sym, ap, ◌∙◌, ◌&&◌, some, List, if◌then◌else◌, leb, ltb, arith,
  Bool-cases, inl, inr, outside_range,
}
use native.Mathlib.Decide.{dec_lt}
use memory_alloc_analysis.SortedDict.Items.{lookup}
use memory_alloc_analysis.IntervalMap.Counts.{holds}
use memory_alloc_analysis.IntervalMap.Interface.{ValueMap}
use memory_alloc_analysis.IntervalMap.Listing.{Lists, Lists-same}
use memory_alloc_analysis.SegFreeList.Dict.{delete, lookup-delete}
use memory_alloc_analysis.SegFreeList.Defs.{Dllist, FreeList}
use memory_alloc_analysis.SegFreeList.Spans.{size_at, found}
use memory_alloc_analysis.Traditional.States.{SegSt, tidy, is_wait, PageSt}
use memory_alloc_analysis.Traditional.Defs.{Traditional}
use memory_alloc_analysis.Traditional.Balanced.{Balanced}
use memory_alloc_analysis.Traditional.Freeing.{Held}

module _ (A : ValueMap SegSt) (P : ValueMap PageSt) (L : Dllist (ℕ × ℕ)) (G : Dllist ℕ) where
  -- Every object of _eva2sz is of WAIT bytes, no two overlap, and the index of the TIDY list has
  -- exactly the longest TIDY runs.
  pub record Owned (m : A.Map) (sizes : List (ℕ × ℕ)) (tidylst : FreeList L G) : Type 0 where
    pub held : (loc sz : ℕ) → lookup loc sizes ≡ some sz → Held A P L G m loc sz
    pub apart :
        (a sa b sb : ℕ) → lookup a sizes ≡ some sa → lookup b sizes ≡ some sb → a < b → a + sa ≤ b
    pub indexed : Lists (A.at m) tidy (size_at L G tidylst)

  -- The invariant of the allocator.
  pub record Sound (s : Traditional A P L G) : Type 0 where
    pub balanced : Balanced A P L G s
    pub owned : Owned s.eva2sst s.eva2sz s.tidylst

  -- an object has no TIDY byte
  pub not_tidy :
      (m : A.Map) (sizes : List (ℕ × ℕ)) (l : FreeList L G)
      → Owned m sizes l
      → (loc sz : ℕ) → lookup loc sizes ≡ some sz
      → (x : ℕ) → loc ≤ x
      → x < loc + sz
      → A.at m x ≢ some tidy
  not_tidy m sizes l o loc sz here x p q h =
      cc (sym ((o.held loc sz here).used x p q) ∙ ap (holds is_wait) h)

  module _ (m m' : A.Map) (sizes : List (ℕ × ℕ)) (l l' : FreeList L G) (o : Owned m sizes l)
      (loc sz : ℕ) (here : lookup loc sizes ≡ some sz) (v : SegSt)
      (changed : (x : ℕ)
        → A.at m' x ≡ (if leb loc x && ltb x (loc + sz) then some v else A.at m x)) where
    -- an entry other than the one that was deleted
    other_entry :
        (a sa : ℕ) → lookup a (delete loc sizes) ≡ some sa → (a ≢ loc) × (lookup a sizes ≡ some sa)
    other_entry a sa h =
        let (ne, e) = found a loc (lookup a sizes) sa (sym (lookup-delete a loc sizes) ∙ h) in
        (ne, e)

    still_held : (a sa : ℕ) → lookup a (delete loc sizes) ≡ some sa → Held A P L G m' a sa
    still_held a sa h =
        let (ne, e) = other_entry a sa h in
        let was = o.held a sa e in
        record {
          from = was.from;
          some_there = was.some_there;
          fits = was.fits;
          used = λ x p q. ap (holds is_wait) (changed x) ∙ elim (dec_lt a loc) [
            | yes lt ↦
                rw
                  (outside_range loc (loc + sz) x (some v) (A.at m x)
                    (inr (inr (omega (arith, q, o.apart a sa loc sz e here lt)))))
                  (was.used x p q)
            | no ge ↦
                rw
                  (outside_range loc (loc + sz) x (some v) (A.at m x)
                    (inl (omega (arith, p, o.apart loc sz a sa here e (ground (arith, ge, ne))))))
                  (was.used x p q)
          ];
        }

    pub Owned-freed : Lists (A.at m') tidy (size_at L G l') → Owned m' (delete loc sizes) l'
    Owned-freed lists = record {
      held = still_held;
      apart = λ a sa b sb h k. o.apart a sa b sb (other_entry a sa h).1 (other_entry b sb k).1;
      indexed = lists;
    }

    -- the TIDY runs, where the range gets another state than TIDY
    pub indexed-same : v ≢ tidy → Lists (A.at m') tidy (size_at L G l)
    indexed-same other =
        Lists-same (A.at m) (A.at m') tidy (size_at L G l)
          (λ x h. elim (Bool-cases (leb loc x && ltb x (loc + sz))) [
            | inl within ↦ absurd (
                not_tidy m sizes l o loc sz here x (ground (arith, within)) (ground (arith, within))
                  h)
            | inr out ↦ changed x ∙ rw out h
          ])
          (λ x h. elim (Bool-cases (leb loc x && ltb x (loc + sz))) [
            | inl within ↦
                let now : A.at m' x ≡ some v = changed x ∙ rw within refl in
                let same : some v ≡ some tidy = sym now ∙ h in absurd (other (cc same))
            | inr out ↦ let now : A.at m' x ≡ A.at m x = changed x ∙ rw out refl in sym now ∙ h
          ])
          o.indexed
