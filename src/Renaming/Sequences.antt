-- ===== src/Renaming/Sequences.antt =====
-- A resize under a new name, and the call that frees the new name.
use memory_alloc_analysis.Prelude.{
  ℕ, ◌+◌, ◌-◌, ◌<◌, ◌≡◌, ◌≢◌, refl, true, none, some, ok, done, arith,
}
use memory_alloc_analysis.SortedDict.Items.{lookup}
use memory_alloc_analysis.Renaming.Defs.{
  Child, Renamer, free_event, realloc_event, publish, after, freed, reallocd, handle,
}
use memory_alloc_analysis.Renaming.Live.{live, live-space, held-lookup, Contract, Agrees}

module _ {E : Type 0} (C : Child E) (K : Contract C) where
  open K use {at}

  -- `reallocd` under a new name where the allocator resizes in place: the object stays under its
  -- old name, so that freeing the new name does nothing and the object stays live.
  pub reallocd_lost :
      (m : Renamer C)
      → Agrees K m
      → (event event' : E) (begin_old begin_new end_new eva : ℕ) → begin_old ≢ begin_new
      → lookup begin_old m.tva2eva ≡ some eva
      → lookup begin_new m.tva2eva ≡ none
      → (C.try_realloc event eva (end_new - begin_new) m.child).result ≡ ok true
      → (m' : Renamer C) × (handle C (realloc_event event begin_old begin_new end_new) m ≡ done m')
        × (handle C (free_event event' begin_new) m' ≡ done m')
        × (0 < live eva m'.published)
  unfolding handle reallocd freed
  reallocd_lost m A event event' begin_old begin_new end_new eva other there absent in_place =
      let r = C.try_realloc event eva (end_new - begin_new) m.child in
      let m' =
        publish C (realloc_event event eva eva (eva + (end_new - begin_new))) (after C event r m) in
      (
        m',
        rw (handle, reallocd, there, in_place) refl,
        rw (handle, freed, absent) refl,
        ground (
          arith,
          held-lookup begin_old eva m.tva2eva there,
          A.names eva,
          live-space eva event r.events m.published,
        ),
      )
