-- ===== src/Renaming/Tests.antt =====
-- A bump allocator under the renaming base, and the theorems at it.
use memory_alloc_analysis.Prelude.{
  ℕ, ◌+◌, ◌<◌, ◌≡◌, refl, true, List, [], ◌∷◌, ◌==◌, if◌then◌else◌, ok, done, arith, inl,
}
use memory_alloc_analysis.Renaming.Defs.{
  Child, Renamer, mapd, unmapd, alloc_event, free_event, realloc_event, handle,
}
use memory_alloc_analysis.Renaming.Live.{hit, live, Contract, Agrees}
use memory_alloc_analysis.Renaming.Named.{Names, Ends, handle-Names}
use memory_alloc_analysis.Renaming.Sequences.{reallocd_lost}

abbrev drop : ℕ → List ℕ → List ℕ
drop e [] = []
drop e (x ∷ l) = if x == e then l else x ∷ drop e l

abbrev count : ℕ → List ℕ → ℕ
count e [] = 0
count e (x ∷ l) = count e l + hit e x

count-drop : (e x : ℕ) (l : List ℕ) → 0 < count x l → count e (drop x l) + hit e x ≡ count e l
count-drop e x [] h = absurd (omega arith)
count-drop e x (y ∷ l) h = ground (arith, count-drop e x l)

-- the next address, and the live objects; a resize in place is always said to be possible
abbrev bump : Child ℕ
bump = record {
  State = ℕ × List ℕ;
  alloc = λ event sz s. record {
    state = (s.0 + sz, s.0 ∷ s.1);
    events = mapd s.0 (s.0 + sz) 3 ∷ [];
    result = ok (s.0, sz);
  };
  free = λ event eva s. record {
    state = (s.0, drop eva s.1);
    events = unmapd eva (eva + 1) ∷ [];
    result = ok tt;
  };
  try_realloc = λ event eva nsz s. record { state = s; events = []; result = ok true };
  maybe_revoke = λ event s. record { state = s; events = []; result = ok tt };
}

abbrev bump_contract : Contract bump
bump_contract = record {
  at = λ e s. count e s.1;
  alloc_at = λ event sz s. (s.0, sz, refl, omega arith, λ e. refl);
  free_at = λ event eva s pos. (refl, λ e. count-drop e eva s.1 pos);
  try_realloc_at = λ event eva sz s pos. (true, refl, λ e. refl);
  maybe_revoke_at = λ event s. (refl, λ e. refl);
}

-- one object of 16 bytes, named 1000 by the trace
abbrev one_object : Renamer bump
one_object = record {
  child = (4112, 4096 ∷ []);
  tva2eva = (1000, 4096) ∷ [];
  published = alloc_event 0 4096 4112 ∷ [];
}

one_object-Agrees : Agrees bump_contract one_object
one_object-Agrees = record { unique = (refl, tt); names = λ e. refl; objects = λ e. refl }

one_object-Names : Names bump one_object
one_object-Names = record { unique = (refl, tt); same = λ e. refl }

handle-Names_example : Ends bump (handle bump (realloc_event 1 1000 1000 1020) one_object)
handle-Names_example =
    handle-Names bump one_object one_object-Names (realloc_event 1 1000 1000 1020) (inl refl)

reallocd_lost_example :
    (m' : Renamer bump) × (handle bump (realloc_event 1 1000 2000 2008) one_object ≡ done m')
    × (handle bump (free_event 2 2000) m' ≡ done m')
    × (0 < live 4096 m'.published)
reallocd_lost_example =
    reallocd_lost bump bump_contract one_object one_object-Agrees 1 2 1000 2000 2008 4096
      (λ e. omega arith) refl refl refl
