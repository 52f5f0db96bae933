-- ===== src/RandomFilter/Tests.antt =====
-- A filter that hashes an object to its address.
use memory_alloc_analysis.Prelude.{ℕ, ◌≡◌, refl, List, [], ◌∷◌, inr, arith}
use memory_alloc_analysis.Renaming.Defs.{Event, alloc_event, realloc_event}
use memory_alloc_analysis.RandomFilter.Defs.{Filter, init, rejects, handle, allocd}
use memory_alloc_analysis.RandomFilter.Coherent.{Coherent, handle-Coherent, run}

abbrev address : ℕ → ℕ → ℕ → ℕ
address seed ix begin = begin

-- two objects, of which the one at 200 is left out
abbrev two_objects : List (Event ℕ)
two_objects = alloc_event 1 200 216 ∷ alloc_event 0 100 116 ∷ []

abbrev filtered : Filter ℕ ℕ
filtered = record {
  allocix = 0;
  screw = 128;
  seed = 7;
  shadows = 200 ∷ [];
  published = alloc_event 0 100 116 ∷ [];
}

run-filtered :
    run address (alloc_event 0 100 116 ∷ alloc_event 1 200 216 ∷ []) (init 128 7) ≡ filtered
unfolding handle allocd rejects init
run-filtered = refl

filtered-Coherent : Coherent address two_objects filtered
filtered-Coherent = record { counts = λ e. ground arith }

handle-Coherent_example :
    Coherent address
      (realloc_event 2 200 300 316 ∷ two_objects)
      (handle address (realloc_event 2 200 300 316) filtered)
handle-Coherent_example =
    handle-Coherent address two_objects filtered filtered-Coherent (realloc_event 2 200 300 316)
      (inr refl)
