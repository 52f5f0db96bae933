-- ===== src/Renaming/Defs.antt =====
-- The state and the handlers of `RenamingAllocatorBase`, over an allocator as an interface.
use memory_alloc_analysis.Prelude.{
  ℕ, ◌+◌, ◌-◌, Bool, none, some, List, [], ◌∷◌, ◌++◌, map, leb, if◌then◌else◌, Result, ok, err,
  Outcome, done, raised, assertion_error,
}
use memory_alloc_analysis.SortedDict.Items.{lookup, erase}

-- an event of the address space
pub data Space : Type 0 where
  mapd : (begin end prot : ℕ) → Space
  unmapd : (begin end : ℕ) → Space
  revoked : (spans : List (ℕ × ℕ)) → Space

-- What publishers send and subscribers handle; `E` is the type of the trace records, the
-- argument `event` of every handler.
pub data Event (E : Type 0) : Type 0 where
  alloc_event : E → (begin end : ℕ) → Event E
  free_event : E → (begin : ℕ) → Event E
  realloc_event : E → (begin_old begin_new end_new : ℕ) → Event E
  sample_event : E → (size sweep_size : ℕ) → Event E
  space_event : E → Space → Event E

-- What a method of the allocator does: its next state, the events it published, the latest first,
-- and its result.
pub record Reply (S A : Type 0) : Type 0 where
  pub state : S
  pub events : List Space
  pub result : Result A

-- the methods that a child class implements
pub record Child (E : Type 0) : Type 1 where
  pub State : Type 0
  -- _alloc(event, size) -> (eva, nsz)
  pub alloc : E → ℕ → State → Reply State (ℕ × ℕ)
  -- _free(event, eva)
  pub free : E → ℕ → State → Reply State Unit
  -- _try_realloc(event, eva, nsz) -> Bool
  pub try_realloc : E → ℕ → ℕ → State → Reply State Bool
  -- _maybe_revoke(event)
  pub maybe_revoke : E → State → Reply State Unit

module _ {E : Type 0} (C : Child E) where
  open C use {State, alloc, free, try_realloc, maybe_revoke}

  -- `published` has the latest event first.
  pub record Renamer : Type 0 where
    pub child : State
    pub tva2eva : List (ℕ × ℕ)
    pub published : List (Event E)

  unfoldable pub init : State → Renamer
  init child = record { child = child; tva2eva = []; published = [] }

  abbrev pub publish : Event E → Renamer → Renamer
  publish e m = record m { published = e ∷ m.published }

  -- self._tva2eva[k] = eva
  abbrev pub assign : ℕ → ℕ → Renamer → Renamer
  assign k eva m = record m { tva2eva = (k, eva) ∷ erase k m.tva2eva }

  -- del self._tva2eva[k]
  abbrev pub forget : ℕ → Renamer → Renamer
  forget k m = record m { tva2eva = erase k m.tva2eva }

  -- the state after a call of a method of the child
  abbrev pub after : {A : Type 0} → E → Reply State A → Renamer → Renamer
  after event r m = record m {
    child = r.state;
    published = map (space_event event) r.events ++ m.published;
  }

  -- a call of a method of the child, and what follows it
  abbrev pub with_reply :
      {A : Type 0} → E → Reply State A → (A → Renamer → Outcome Renamer) → Renamer → Outcome Renamer
  with_reply event r k m = elim r.result [
    | ok a ↦ k a (after event r m)
    | err e ↦ raised e (after event r m)
  ]

  abbrev pub then_do : Outcome Renamer → (Renamer → Outcome Renamer) → Outcome Renamer
  then_do (done m) k = k m
  then_do (raised e m) k = raised e m

  -- self._maybe_revoke(event), as the last call of a handler
  unfoldable pub revoke : E → (Renamer → Renamer) → Renamer → Outcome Renamer
  revoke event last m = with_reply event (maybe_revoke event m.child) (λ _ m'. done (last m')) m

  unfoldable pub allocd : E → ℕ → ℕ → Renamer → Outcome Renamer
  unfolding revoke
  allocd event begin end m =
      let sz = end - begin in
      with_reply event (alloc event sz m.child)
        (λ r m1.
          if leb sz r.1
          then revoke event (λ m2. m2)
              (publish (alloc_event event r.0 (r.0 + r.1)) (assign begin r.0 m1))
          else raised assertion_error m1)
        m

  unfoldable pub freed : E → ℕ → Renamer → Outcome Renamer
  unfolding revoke
  freed event begin m = elim (lookup begin m.tva2eva) [
    | none ↦ done m
    | some eva ↦
        let m1 = publish (free_event event eva) m in
        with_reply event (free event eva m1.child) (λ _ m2. revoke event (forget begin) m2) m1
  ]

  -- the part of `reallocd` where the allocator could not resize the object in place
  unfoldable pub reallocd_moved : E → ℕ → ℕ → ℕ → ℕ → Renamer → Outcome Renamer
  unfolding revoke
  reallocd_moved event begin_old begin_new szn evao m =
      with_reply event (alloc event szn m.child)
        (λ r m1.
          with_reply event (free event evao m1.child)
            (λ _ m2.
              revoke event (λ m3. m3)
                (publish (realloc_event event evao r.0 (r.0 + r.1))
                  (assign begin_new r.0 (forget begin_old m2))))
            m1)
        m

  unfoldable pub reallocd : E → ℕ → ℕ → ℕ → Renamer → Outcome Renamer
  unfolding revoke allocd reallocd_moved
  reallocd event begin_old begin_new end_new m =
      let szn = end_new - begin_new in
      elim (lookup begin_old m.tva2eva) [
        | some evao ↦
            with_reply event (try_realloc event evao szn m.child)
              (λ in_place m1.
                if in_place
                then done (publish (realloc_event event evao evao (evao + szn)) m1)
                else reallocd_moved event begin_old begin_new szn evao m1)
              m
        | none ↦ then_do (allocd event begin_new end_new m) (revoke event (λ m'. m'))
      ]

  -- The handler of each event. Those of the address space are not passed on.
  unfoldable pub handle : Event E → Renamer → Outcome Renamer
  unfolding allocd freed reallocd
  handle (alloc_event event begin end) m = allocd event begin end m
  handle (free_event event begin) m = freed event begin m
  handle (realloc_event event begin_old begin_new end_new) m =
      reallocd event begin_old begin_new end_new m
  handle (sample_event record_ size sweep_size) m =
      done (publish (sample_event record_ size sweep_size) m)
  handle (space_event event s) m = done m
