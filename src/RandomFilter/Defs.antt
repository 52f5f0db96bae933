-- ===== src/RandomFilter/Defs.antt =====
-- The state and the handlers of the filter.
use memory_alloc_analysis.Prelude.{
  ℕ, ◌%◌, Bool, false, ◌||◌, List, [], ◌∷◌, leb, ◌==◌, if◌then◌else◌,
}
use memory_alloc_analysis.Renaming.Defs.{
  Event, alloc_event, free_event, realloc_event, sample_event, space_event,
}

-- Python's set of addresses
abbrev pub member : ℕ → List ℕ → Bool
member x [] = false
member x (y ∷ l) = y == x || member x l

abbrev pub add : ℕ → List ℕ → List ℕ
add x l = if member x l then l else x ∷ l

abbrev pub remove : ℕ → List ℕ → List ℕ
remove x [] = []
remove x (y ∷ l) = if y == x then remove x l else y ∷ remove x l

-- `published` has the latest event first.
pub record Filter (E Seed : Type 0) : Type 0 where
  pub allocix : ℕ
  pub screw : ℕ
  pub seed : Seed
  pub shadows : List ℕ
  pub published : List (Event E)

unfoldable pub init : {E Seed : Type 0} → ℕ → Seed → Filter E Seed
init screw seed = record { allocix = 0; screw = screw; seed = seed; shadows = []; published = [] }

abbrev pub publish : {E Seed : Type 0} → Event E → Filter E Seed → Filter E Seed
publish x m = record m { published = x ∷ m.published }

-- `hash` is hash(marshal.dumps([seed, allocix, begin])).
module _ {E Seed : Type 0} (hash : Seed → ℕ → ℕ → ℕ) where
  -- whether the object allocated at `begin` is left out
  unfoldable pub rejects : Filter E Seed → ℕ → Bool
  rejects m begin = leb m.screw (hash m.seed m.allocix begin % 256)

  unfoldable pub allocd : E → ℕ → ℕ → Filter E Seed → Filter E Seed
  unfolding rejects
  allocd event begin end m =
      if rejects m begin
      then record m { shadows = add begin m.shadows }
      else publish (alloc_event event begin end) m

  unfoldable pub freed : E → ℕ → Filter E Seed → Filter E Seed
  freed event va m =
      if member va m.shadows
      then record m { shadows = remove va m.shadows }
      else publish (free_event event va) m

  unfoldable pub reallocd : E → ℕ → ℕ → ℕ → Filter E Seed → Filter E Seed
  reallocd event ova nva nend m =
      if member ova m.shadows
      then record m { shadows = add nva (remove ova m.shadows) }
      else publish (realloc_event event ova nva nend) m

  -- The handler of each event; the other events are passed through.
  unfoldable pub handle : Event E → Filter E Seed → Filter E Seed
  unfolding allocd freed reallocd
  handle (alloc_event event begin end) m = allocd event begin end m
  handle (free_event event va) m = freed event va m
  handle (realloc_event event ova nva nend) m = reallocd event ova nva nend m
  handle (sample_event event size sweep_size) m = publish (sample_event event size sweep_size) m
  handle (space_event event s) m = publish (space_event event s) m
