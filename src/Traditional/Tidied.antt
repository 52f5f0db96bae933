-- ===== src/Traditional/Tidied.antt =====
-- `_free_unsafe` of an object.
use memory_alloc_analysis.Prelude.{
  ℕ, ◌+◌, ◌-◌, ◌*◌, ◌^◌, ◌≤◌, ◌≡◌, refl, sym, ap, ◌∙◌, subst, true, some, List, ◌&&◌, if◌then◌else◌,
  leb, ltb, arith, done, object, Bool-cases, inl, inr,
}
use memory_alloc_analysis.SortedDict.Items.{lookup}
use memory_alloc_analysis.IntervalMap.Counts.{holds}
use memory_alloc_analysis.IntervalMap.Interface.{ValueMap, span_inside}
use memory_alloc_analysis.Renaming.Defs.{Space}
use memory_alloc_analysis.SegFreeList.Dict.{delete}
use memory_alloc_analysis.SegFreeList.Defs.{Dllist}
use memory_alloc_analysis.Traditional.States.{SegSt, tidy, is_wait, is_tidy, PageSt, pagelog}
use memory_alloc_analysis.Traditional.Defs.{Traditional, require}
use memory_alloc_analysis.Traditional.Free.{free_unsafe, free_tidied, unmap_large, unmap_tidy}
use memory_alloc_analysis.Traditional.Pages.{Paged, ensure_unmapped-Repaged}
use memory_alloc_analysis.Traditional.TidyList.{mark_tidy-Indexed}
use memory_alloc_analysis.Traditional.Sound.{Sound, not_tidy}
use memory_alloc_analysis.Traditional.Freed.{free_unsafe-Sound}

module _ (A : ValueMap SegSt) (P : ValueMap PageSt) (L : Dllist (ℕ × ℕ)) (G : Dllist ℕ)
    (start : A.base ≡ P.base * 2 ^ pagelog) (stop : A.limit ≡ P.limit * 2 ^ pagelog) where
  -- the state with other pages
  abbrev repaged_as : Traditional A P L G → P.Map → ℕ → List Space → Traditional A P L G
  repaged_as s m n es = record s { evp2pst = m; nmapped = n; published = es }

  unmap_large_returns :
      (k n : ℕ) (s : Traditional A P L G)
      → Paged A P L G s.evp2pst s.nmapped
      → A.base ≤ k
      → k + n ≤ A.limit
      → (m : P.Map) × (b : ℕ) × (es : List Space) × (unmap_large A P L G (k, n) s
          ≡ done (repaged_as s m b es))
  unfolding unmap_large
  unmap_large_returns k n s paged from fits = elim (Bool-cases (ltb (16 * 2 ^ pagelog) n)) [
    | inr small ↦ (s.evp2pst, s.nmapped, s.published, rw (unmap_large, small) refl)
    | inl large ↦
        let (s', did, r, _, _, _, _) =
          ensure_unmapped-Repaged A P L G s k n paged (omega (arith, start, from))
            (omega (arith, stop, fits)) (ground (arith, large)) in
        (r.pages, r.bytes, r.events, rw (unmap_large, large, did, r.is) refl)
  ]

  unmap_tidy_returns :
      (loc : ℕ) (s : Traditional A P L G)
      → A.IsValid s.eva2sst
      → Paged A P L G s.evp2pst s.nmapped
      → A.at s.eva2sst loc ≡ some tidy
      → (m : P.Map) × (b : ℕ) × (es : List Space) × (unmap_tidy A P L G loc s
          ≡ done (repaged_as s m b es))
  unfolding unmap_tidy
  unmap_tidy_returns loc s valid paged free =
      let (from, below) = A.at_inside s.eva2sst loc tidy valid free in
      let (k, n, w, is, le, past, all) = A.get_item-at s.eva2sst loc valid from below in
      let state : some w ≡ some tidy = sym (all loc le past) ∙ free in
      let tests : is_tidy w ≡ true = ap (holds is_tidy) state in
      let inside = span_inside A s.eva2sst k n loc w valid le past all in
      let (m, b, es, did) = unmap_large_returns k n s paged inside.0 inside.1 in
      (m, b, es, rw (unmap_tidy, A.get_with_none, is, tests, require) did)

  module _ (loc sz : ℕ) (s : Traditional A P L G) (sound : Sound A P L G s)
      (here : lookup loc s.eva2sz ≡ some sz) where
    free_tidied_returns :
        (s' : Traditional A P L G) × (free_tidied A P L G loc sz
            (record s { eva2sz = delete loc s.eva2sz })
          ≡ done s')
        × (s'.eva2sz ≡ delete loc s.eva2sz)
        × ((x : ℕ)
            → A.at s'.eva2sst x
              ≡ (if leb loc x && ltb x (loc + sz) then some tidy else A.at s.eva2sst x))
    unfolding free_tidied
    free_tidied_returns =
        let h = sound.owned.held loc sz here in
        let s0 = record s { eva2sz = delete loc s.eva2sz; nwait = s.nwait - sz } in
        let (m', l', did, valid', changed, _) =
          mark_tidy-Indexed A P L G loc sz s0 sound.balanced.segments.valid sound.owned.indexed
            h.from h.some_there h.fits
            (not_tidy A P L G s.eva2sst s.eva2sz s.tidylst sound.owned loc sz here) in
        let s1 = record s0 { eva2sst = m'; tidylst = l' } in
        let free : A.at m' loc ≡ some tidy = changed loc ∙ ground (arith, h.some_there) in
        let (m, b, es, unmapped) = unmap_tidy_returns loc s1 valid' sound.balanced.pages free in
        (repaged_as s1 m b es, rw (free_tidied, did) unmapped, refl, changed)

    -- Where the state is sound and loc is an object of size sz, _free_unsafe returns: the
    -- object is no longer entered, its bytes are TIDY, no other byte has changed, and the
    -- state is sound again, so that the index of the TIDY list has the range, joined with what
    -- was TIDY around it.
    pub free_unsafe_returns :
        (s' : Traditional A P L G) × (free_unsafe A P L G loc s ≡ done s')
        × (s'.eva2sz ≡ delete loc s.eva2sz)
        × ((x : ℕ)
            → A.at s'.eva2sst x
              ≡ (if leb loc x && ltb x (loc + sz) then some tidy else A.at s.eva2sst x))
        × Sound A P L G s'
    unfolding free_unsafe
    free_unsafe_returns =
        let h = sound.owned.held loc sz here in
        let (k, n, w, is, le, past, all) =
          A.get_item-at s.eva2sst loc sound.balanced.segments.valid h.from
            (omega (arith, h.fits, h.some_there)) in
        let held : is_wait w ≡ true =
          sym (ap (holds is_wait) (all loc le past))
          ∙ h.used loc (omega arith) (omega (arith, h.some_there)) in
        let (s', did, entries, states) = free_tidied_returns in
        let returned : free_unsafe A P L G loc s ≡ done s' =
          rw (free_unsafe, is, held, require, here) did in
        (
          s',
          returned,
          entries,
          states,
          subst (λ o. Sound A P L G (object o)) returned
              (free_unsafe-Sound A P L G start stop loc s sound),
        )
