-- ===== src/Renaming/Live.antt =====
-- How many objects are live at an address: as the published events say, as the table of names
-- says, and as the allocator says.
use memory_alloc_analysis.Prelude.{
  ℕ, ◌+◌, ◌-◌, ◌≤◌, ◌<◌, ◌≡◌, refl, Bool, none, some, List, [], ◌∷◌, ◌++◌, map, ◌==◌, if◌then◌else◌,
  ok, arith, Bool-cases, inl, inr,
}
use memory_alloc_analysis.SortedDict.Items.{lookup, erase}
use memory_alloc_analysis.Renaming.Defs.{
  Event, Space, Child, Renamer, alloc_event, free_event, realloc_event, sample_event, space_event,
}

abbrev pub hit : ℕ → ℕ → ℕ
hit e x = if x == e then 1 else 0

-- the live objects at `e` after a list of published events, the latest first
abbrev pub live : {E : Type 0} → ℕ → List (Event E) → ℕ
live e [] = 0
live e (alloc_event _ begin _ ∷ l) = live e l + hit e begin
live e (free_event _ begin ∷ l) = live e l - hit e begin
live e (realloc_event _ begin_old begin_new _ ∷ l) = (live e l - hit e begin_old) + hit e begin_new
live e (sample_event _ _ _ ∷ l) = live e l
live e (space_event _ _ ∷ l) = live e l

-- the names of `e` in the table
abbrev pub held : ℕ → List (ℕ × ℕ) → ℕ
held e [] = 0
held e ((k, x) ∷ l) = held e l + hit e x

pub live-space :
    {E : Type 0} (e : ℕ) (event : E) (s : List Space) (l : List (Event E))
    → live e (map (space_event event) s ++ l) ≡ live e l
live-space e event [] l = refl
live-space e event (x ∷ s) l = live-space e event s l

pub held-lookup : (k x : ℕ) (l : List (ℕ × ℕ)) → lookup k l ≡ some x → 0 < held x l
held-lookup k x [] h = absurd (ground arith)
held-lookup k x ((j, y) ∷ l) h = ground (arith, held-lookup k x l)

pub held-erase :
    (e k x : ℕ) (l : List (ℕ × ℕ)) → lookup k l ≡ some x → held e (erase k l) + hit e x ≡ held e l
held-erase e k x [] h = absurd (ground arith)
held-erase e k x ((j, y) ∷ l) h = ground (arith, held-erase e k x l)

pub erase-absent : (k : ℕ) (l : List (ℕ × ℕ)) → lookup k l ≡ none → erase k l ≡ l
erase-absent k [] h = refl
erase-absent k ((j, y) ∷ l) h = ground (arith, erase-absent k l)

-- every key stands once
abbrev pub Once : List (ℕ × ℕ) → Type 0
Once [] = Unit
Once ((k, x) ∷ l) = (lookup k l ≡ none) × Once l

pub lookup-erase-none :
    (j k : ℕ) (l : List (ℕ × ℕ)) → lookup j l ≡ none → lookup j (erase k l) ≡ none
lookup-erase-none j k [] h = refl
lookup-erase-none j k ((i, y) ∷ l) h = ground (arith, lookup-erase-none j k l)

pub lookup-erase : (k : ℕ) (l : List (ℕ × ℕ)) → Once l → lookup k (erase k l) ≡ none
lookup-erase k [] h = refl
lookup-erase k ((i, y) ∷ l) h = elim (Bool-cases (i == k)) [
  | inl same ↦ rw same (ground (arith, h.0))
  | inr other ↦ rw other (rw other (lookup-erase k l h.1))
]

pub erase-Once : (k : ℕ) (l : List (ℕ × ℕ)) → Once l → Once (erase k l)
erase-Once k [] h = tt
erase-Once k ((i, y) ∷ l) h = elim (Bool-cases (i == k)) [
  | inl same ↦ rw same h.1
  | inr other ↦ rw other (lookup-erase-none i k l h.0, erase-Once k l h.1)
]

-- What the base class relies on: the allocator's methods return, give objects that are large
-- enough, and free the one object they are told to, which is live.
pub record Contract {E : Type 0} (C : Child E) : Type 0 where
  pub at : ℕ → C.State → ℕ
  pub alloc_at :
      (event : E) (sz : ℕ) (s : C.State)
      → (eva nsz : ℕ) × ((C.alloc event sz s).result ≡ ok (eva, nsz))
        × (sz ≤ nsz)
        × ((e : ℕ) → at e (C.alloc event sz s).state ≡ at e s + hit e eva)
  pub free_at :
      (event : E) (eva : ℕ) (s : C.State)
      → 0 < at eva s
      → ((C.free event eva s).result ≡ ok tt)
        × ((e : ℕ) → at e (C.free event eva s).state + hit e eva ≡ at e s)
  pub try_realloc_at :
      (event : E) (eva sz : ℕ) (s : C.State)
      → 0 < at eva s
      → (in_place : Bool) × ((C.try_realloc event eva sz s).result ≡ ok in_place)
        × ((e : ℕ) → at e (C.try_realloc event eva sz s).state ≡ at e s)
  pub maybe_revoke_at :
      (event : E) (s : C.State)
      → ((C.maybe_revoke event s).result ≡ ok tt)
        × ((e : ℕ) → at e (C.maybe_revoke event s).state ≡ at e s)

module _ {E : Type 0} {C : Child E} (K : Contract C) where
  open K use {at}

  -- The three views are the same, and the table has each name once.
  pub record Agrees (m : Renamer C) : Type 0 where
    pub unique : Once m.tva2eva
    pub names : (e : ℕ) → held e m.tva2eva ≡ live e m.published
    pub objects : (e : ℕ) → held e m.tva2eva ≡ at e m.child
