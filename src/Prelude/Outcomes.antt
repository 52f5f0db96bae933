-- ===== src/Prelude/Outcomes.antt =====
-- Methods that may raise. A reader returns a `Result`; a method that changes its object returns
-- an `Outcome`, which has the object also where the method raised, as what was written before the
-- raise stays written.
use memory_alloc_analysis.Prelude.Tests.{if◌then◌else◌}
use mathlib.Core.Bool.{Bool, true, false}
use mathlib.Core.Logic.{◌⊎◌, inl, inr}
use mathlib.Core.Path.{◌≡◌, refl}

pub data Error : Type 0 where
  value_error key_error index_error assertion_error stop_iteration name_error type_error
        zero_division_error out_of_fuel :
      Error

pub data Result {ℓ} (A : Type ℓ) : Type ℓ where
  ok : A → Result A
  err : Error → Result A

pub data Outcome {ℓ} (S : Type ℓ) : Type ℓ where
  done : S → Outcome S
  raised : Error → S → Outcome S

-- A method that changes its object and returns a value.
pub data Answer {ℓ} (S A : Type ℓ) : Type ℓ where
  answer : A → S → Answer S A
  failure : Error → S → Answer S A

abbrev pub and_then {ℓ} : {S A B : Type ℓ} → Answer S A → (A → S → Answer S B) → Answer S B
and_then (answer a s) k = k a s
and_then (failure e s) k = failure e s

-- One reader after another: the first that raises is the last to be called.
module _ {ℓ κ} {S : Type ℓ} {T : Type κ} where
  infixl 5 ◌>>=◌
  abbrev pub ◌>>=◌ : Result S → (S → Result T) → Result T
  err problem >>= next = err problem
  ok value >>= next = next value

  -- what a chain of readers that returned went through
  pub bind-ok :
      (first : Result S) (next : S → Result T) {t : T}
      → (first >>= next) ≡ ok t
      → (value : S) × (first ≡ ok value) × (next value ≡ ok t)
  bind-ok (err problem) next returned = cc returned
  bind-ok (ok value) next returned = (value, refl, returned)

module _ {ℓ} {S : Type ℓ} where
  pub ok-eq : {v w : S} → ok v ≡ ok w → v ≡ w
  ok-eq returned = cc returned

  pub unless-ok : (e : Error) {v w : S} (b : Bool) → (if b then err e else ok v) ≡ ok w → v ≡ w
  unless-ok e true returned = cc returned
  unless-ok e false returned = ok-eq returned

  pub Result-cases : (m : Result S) → ((v : S) × (m ≡ ok v)) ⊎ ((e : Error) × (m ≡ err e))
  Result-cases (err problem) = inr (problem, refl)
  Result-cases (ok value) = inl (value, refl)

  -- one method after another
  abbrev pub and_run : Outcome S → (S → Outcome S) → Outcome S
  and_run (done s) next = next s
  and_run (raised e s) next = raised e s

  -- the object as a method leaves it, also where it raised
  abbrev pub object : Outcome S → S
  object (done s) = s
  object (raised e s) = s

module _ {ℓ} {S A : Type ℓ} where
  -- a reader, or a method without a result, at the start of a method that has one
  abbrev pub from_result : Result A → S → Answer S A
  from_result (ok a) s = answer a s
  from_result (err e) s = failure e s

  abbrev pub from_outcome : Outcome S → (S → Answer S A) → Answer S A
  from_outcome (done s) next = next s
  from_outcome (raised e s) next = failure e s

  pub Answer-cases :
      (m : Answer S A)
      → ((a : A) × (s : S) × (m ≡ answer a s)) ⊎ ((e : Error) × (s : S) × (m ≡ failure e s))
  Answer-cases (answer a s) = inl (a, s, refl)
  Answer-cases (failure e s) = inr (e, s, refl)
