-- ===== src/RandomFilter/Coherent.antt =====
-- The published events and the trace.
use memory_alloc_analysis.Prelude.{
  ℕ, ◌+◌, ◌≡◌, refl, false, ◌||◌, List, [], ◌∷◌, ◌==◌, if◌then◌else◌, ◌⊎◌, inl, inr, arith,
  Bool-cases, ◌∙◌,
}
use memory_alloc_analysis.Renaming.Defs.{
  Event, alloc_event, free_event, realloc_event, sample_event, space_event,
}
use memory_alloc_analysis.Renaming.Live.{live}
use memory_alloc_analysis.RandomFilter.Defs.{
  member, add, remove, Filter, rejects, allocd, freed, reallocd, handle,
}

member-remove :
    (x y : ℕ) (l : List ℕ) → member x (remove y l) ≡ (if x == y then false else member x l)
member-remove x y [] = ground arith
member-remove x y (z ∷ l) = ground (arith, member-remove x y l)

member-add : (x y : ℕ) (l : List ℕ) → member x (add y l) ≡ (x == y || member x l)
member-add x y l = elim (Bool-cases (member y l)) [
  | inl there ↦ rw there (ground (arith, there))
  | inr absent ↦ rw absent (ground arith)
]

abbrev shadow : ℕ → List ℕ → ℕ
shadow x l = if member x l then 1 else 0

module _ {E Seed : Type 0} (hash : Seed → ℕ → ℕ → ℕ) where
  -- Of the objects that the trace has live at an address, those that are not left out are live as
  -- published; `trace` has the latest event first.
  pub record Coherent (trace : List (Event E)) (m : Filter E Seed) : Type 0 where
    pub counts : (x : ℕ) → live x trace ≡ live x m.published + shadow x m.shadows

  -- The trace gives an address to one object at a time.
  abbrev pub Fits : Event E → List (Event E) → Type 0
  Fits (alloc_event _ begin _) trace = live begin trace ≡ 0
  Fits (realloc_event _ ova nva _) trace = (ova ≡ nva) ⊎ (live nva trace ≡ 0)
  Fits (free_event _ _) trace = Unit
  Fits (sample_event _ _ _) trace = Unit
  Fits (space_event _ _) trace = Unit

  handle-live :
      (trace : List (Event E)) (m : Filter E Seed)
      → Coherent trace m
      → (x : Event E) → Fits x trace
      → (e : ℕ)
      → live e (x ∷ trace) ≡ live e (handle hash x m).published + shadow e (handle hash x m).shadows
  unfolding handle allocd freed reallocd
  handle-live trace m c (alloc_event event begin end) h e =
      elim (Bool-cases (rejects hash m begin)) [
        | inl out ↦
            rw out (ground (arith, c.counts e, c.counts begin, member-add e begin m.shadows))
        | inr in_ ↦ rw in_ (ground (arith, c.counts e))
      ]
  handle-live trace m c (free_event event va) h e = elim (Bool-cases (member va m.shadows)) [
    | inl out ↦ rw out (ground (arith, c.counts e, c.counts va, member-remove e va m.shadows))
    | inr in_ ↦ rw in_ (ground (arith, c.counts e, c.counts va))
  ]
  handle-live trace m c (realloc_event event ova nva nend) h e =
      elim (Bool-cases (member ova m.shadows)) [
        | inl out ↦ rw out (
            ground (
              arith,
              c.counts e,
              c.counts ova,
              c.counts nva,
              h,
              member-add e nva (remove ova m.shadows),
              member-remove e ova m.shadows,
            ))
        | inr in_ ↦ rw in_ (ground (arith, c.counts e, c.counts ova, c.counts nva, h))
      ]
  handle-live trace m c (sample_event event size sweep_size) h e = c.counts e
  handle-live trace m c (space_event event s) h e = c.counts e

  -- Where an event gives an address only to an object when no other is live there by the
  -- trace, the handler of the event keeps the published events coherent with the trace: of the
  -- objects live at an address, those that are not left out are live as published.
  pub handle-Coherent :
      (trace : List (Event E)) (m : Filter E Seed)
      → Coherent trace m
      → (x : Event E) → Fits x trace
      → Coherent (x ∷ trace) (handle hash x m)
  handle-Coherent trace m c x h = record { counts = λ e. handle-live trace m c x h e }

  -- the handlers of a list of events, one after the other
  abbrev pub run : List (Event E) → Filter E Seed → Filter E Seed
  run [] m = m
  run (x ∷ l) m = run l (handle hash x m)

  handle-rejects :
      (x : Event E) (m : Filter E Seed) (begin : ℕ)
      → rejects hash (handle hash x m) begin ≡ rejects hash m begin
  unfolding handle rejects allocd freed reallocd
  handle-rejects (alloc_event event a end) m begin = elim (Bool-cases (rejects hash m a)) [
    | inl out ↦ rw out refl
    | inr in_ ↦ rw in_ refl
  ]
  handle-rejects (free_event event va) m begin = elim (Bool-cases (member va m.shadows)) [
    | inl out ↦ rw out refl
    | inr in_ ↦ rw in_ refl
  ]
  handle-rejects (realloc_event event ova nva nend) m begin =
      elim (Bool-cases (member ova m.shadows)) [ inl out ↦ rw out refl | inr in_ ↦ rw in_ refl ]
  handle-rejects (sample_event event size sweep_size) m begin = refl
  handle-rejects (space_event event s) m begin = refl

  -- Whether an object is left out depends on its address alone: no event changes it.
  pub run-rejects :
      (l : List (Event E)) (m : Filter E Seed) (begin : ℕ)
      → rejects hash (run l m) begin ≡ rejects hash m begin
  run-rejects [] m begin = refl
  run-rejects (x ∷ l) m begin = run-rejects l (handle hash x m) begin ∙ handle-rejects x m begin
