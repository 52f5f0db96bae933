-- ===== src/Trace/Comments.antt =====
-- Lines that `Run.replay` skips.
use memory_alloc_analysis.Prelude.{
  ◌≡◌, refl, sym, ◌∙◌, ap, Bool, true, false, List, [], ◌∷◌, if◌then◌else◌, Outcome, done, raised,
  Bool-cases, inl, inr,
}
use memory_alloc_analysis.Trace.Text.{Text, codes}
use memory_alloc_analysis.Trace.Run.{
  Run, replay_line, parse_record_type, with_line, then_run, replay_rest, first_line, replay,
  starts_with, strip,
}

-- the lines that are no comments
unfoldable pub without_comments : List Text → List Text
without_comments [] = []
without_comments (line ∷ file) =
    let rest = without_comments file in if starts_with (codes "#") line then rest else line ∷ rest

if_same :
    {A : Type 0} (b : Bool) {x y v w : A}
    → x ≡ v
    → y ≡ w
    → (if b then x else y) ≡ (if b then v else w)
if_same true h k = h
if_same false h k = k

then_same :
    (m : Outcome Run) (j k : Run → Outcome Run)
    → ((r : Run) → j r ≡ k r)
    → then_run m j ≡ then_run m k
then_same (done r) j k h = h r
then_same (raised e r) j k h = refl

module _ (line : Text) (file : List Text) (comment : starts_with (codes "#") line ≡ true) where
  drop_comment : without_comments (line ∷ file) ≡ without_comments file
  unfolding without_comments
  drop_comment = rw (without_comments, comment) refl

  replay_rest_comment : (r : Run) → replay_rest (line ∷ file) r ≡ replay_rest file r
  unfolding replay_rest
  replay_rest_comment r = rw (replay_rest, comment) refl

  replay_comment : (r : Run) → replay (line ∷ file) r ≡ replay file r
  unfolding replay
  replay_comment r = rw (replay, comment) refl

keep_line :
    (line : Text) (file : List Text)
    → starts_with (codes "#") line ≡ false
    → without_comments (line ∷ file) ≡ line ∷ without_comments file
unfolding without_comments
keep_line line file trace = rw (without_comments, trace) refl

replay_rest-without_comments :
    (file : List Text) (r : Run) → replay_rest (without_comments file) r ≡ replay_rest file r
unfolding replay_rest without_comments
replay_rest-without_comments [] r = refl
replay_rest-without_comments (line ∷ file) r = elim (Bool-cases (starts_with (codes "#") line)) [
  | inl comment ↦
      ap (λ f. replay_rest f r) (drop_comment line file comment)
      ∙ replay_rest-without_comments file r
      ∙ sym (replay_rest_comment line file comment r)
  | inr trace ↦
      ap (λ f. replay_rest f r) (keep_line line file trace)
      ∙ then_same (with_line replay_line line r) (replay_rest (without_comments file))
          (replay_rest file) (replay_rest-without_comments file)
]

-- The replay of a file and that of the file without its comment lines end alike, with the same
-- object or the same error.
pub replay-without_comments :
    (file : List Text) (r : Run) → replay (without_comments file) r ≡ replay file r
unfolding replay without_comments
replay-without_comments [] r = refl
replay-without_comments (line ∷ file) r = elim (Bool-cases (starts_with (codes "#") line)) [
  | inl comment ↦
      ap (λ f. replay f r) (drop_comment line file comment)
      ∙ replay-without_comments file r
      ∙ sym (replay_comment line file comment r)
  | inr trace ↦
      ap (λ f. replay f r) (keep_line line file trace)
      ∙ if_same (starts_with (codes "#") line) (replay-without_comments file r) (
          if_same (starts_with (codes "@record-type:") (strip line))
            (then_same (parse_record_type (strip line) r) (replay (without_comments file))
              (replay file) (replay-without_comments file))
            (then_same (first_line (strip line) r) (replay_rest (without_comments file))
              (replay_rest file) (replay_rest-without_comments file)))
]
