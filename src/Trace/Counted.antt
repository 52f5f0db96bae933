-- ===== src/Trace/Counted.antt =====
-- The counter `alloc_api_calls` of `Run` along a replay, errors included.
use memory_alloc_analysis.Prelude.{
  ℕ, suc, ◌≡◌, ap, Bool, true, false, List, [], ◌∷◌, if◌then◌else◌, Result, ok, err, Outcome, done,
  raised, Bool-cases, inl, inr, Option-cases, bind-ok, ok-eq, Result-cases, object, subst,
}
use memory_alloc_analysis.Renaming.Defs.{
  Event, alloc_event, free_event, realloc_event, sample_event, space_event,
}
use memory_alloc_analysis.Trace.Text.{Text, codes, same, split}
use memory_alloc_analysis.Trace.Numerals.{int10}
use memory_alloc_analysis.Trace.Dict.{get, zip_onto, item}
use memory_alloc_analysis.Trace.Calls.{Record, parse_call_trace, parse_addr_space_sample}
use memory_alloc_analysis.Trace.Kinds.{is_api_call, count, send_call-count}
use memory_alloc_analysis.Trace.Run.{
  Run, send, send_call, send_sample, dispatch, replay_record, replay_fields, replay_line,
  parse_record_type, split_once, drop, with_line, then_run, replay_rest, initial_clock, start_clock,
  second_of_three, first_line, replay, starts_with, strip,
}

-- how many of the events are of objects
abbrev pub api_calls : List (Event Record) → ℕ
api_calls [] = 0
api_calls (e ∷ es) = if is_api_call e then suc (api_calls es) else api_calls es

-- the counter is the number of events of objects that were sent
abbrev pub Counted : Run → Type 0
Counted r = r.alloc_api_calls ≡ api_calls r.sent

event-Counted : (e : Event Record) (r : Run) → Counted r → Counted (send e (count e r))
event-Counted (alloc_event event begin end) r h = ap suc h
event-Counted (free_event event begin) r h = ap suc h
event-Counted (realloc_event event begin_old begin_new end_new) r h = ap suc h
event-Counted (sample_event event size sweep_size) r h = h
event-Counted (space_event event s) r h = h

send_call-Counted :
    (fields : Record) (r : Run)
    → Counted r
    → Counted (object (send_call fields (parse_call_trace fields) r))
send_call-Counted fields r h = elim (Result-cases (parse_call_trace fields)) [
  | inl (e, is) ↦ rw (send_call-count fields e r is) (event-Counted e r h)
  | inr (x, failed) ↦ rw failed h
]

send_sample-Counted :
    (fields : Record) (r : Run)
    → Counted r
    → Counted (object (send_sample (parse_addr_space_sample fields) r))
unfolding parse_addr_space_sample
send_sample-Counted fields r h = elim (Result-cases (parse_addr_space_sample fields)) [
  | inl (e, sent) ↦
      let (total, _, h1) = bind-ok (item (codes "addr-space-size-b") fields) _ sent in
      let (total_size, _, h2) = bind-ok (int10 total) _ h1 in
      let (swept, _, h3) = bind-ok (item (codes "sweep-amount-b") fields) _ h2 in
      let (sweep_size, _, h4) = bind-ok (int10 swept) _ h3 in
      rw (sent) (subst (λ e. Counted (object (send_sample (ok e) r))) (ok-eq h4) h)
  | inr (x, failed) ↦ rw failed h
]

dispatch-Counted :
    (rtype : Text) (fields : Record) (r : Run)
    → Counted r
    → Counted (object (dispatch rtype fields r))
unfolding dispatch
dispatch-Counted rtype fields r h = elim (Bool-cases (same rtype (codes "aspace-sample"))) [
  | inl is ↦ rw (dispatch, is) (send_sample-Counted fields r h)
  | inr isnt ↦ elim (Bool-cases (same rtype (codes "call-trace"))) [
    | inl call ↦ rw (dispatch, isnt, call) (send_call-Counted fields r h)
    | inr other ↦ rw (dispatch, isnt, other) h
  ]
]

replay_record-Counted :
    (rtype : Text) (spec fields : List Text) (ts : Result ℕ) (r : Run)
    → Counted r
    → Counted (object (replay_record rtype spec fields ts r))
unfolding replay_record
replay_record-Counted rtype spec fields (ok ts) r h =
    dispatch-Counted rtype (zip_onto spec fields []) (record r { timestamp = ts }) h
replay_record-Counted rtype spec fields (err e) r h = h

replay_fields-Counted :
    (fields : List Text) (r : Run) → Counted r → Counted (object (replay_fields fields r))
unfolding replay_fields
replay_fields-Counted [] r h = h
replay_fields-Counted (rtype ∷ []) r h = h
replay_fields-Counted (rtype ∷ ts ∷ fields) r h = elim (Option-cases (get rtype r.record_types)) [
  | inl none_known ↦ rw (replay_fields, none_known) h
  | inr ([], known) ↦ rw (replay_fields, known) h
  | inr (name ∷ names, known) ↦
      rw (replay_fields, known)
        (replay_record-Counted rtype (name ∷ names) (rtype ∷ ts ∷ fields) (int10 ts) r h)
]

parse_record_type-Counted :
    (line : Text) (r : Run) → Counted r → Counted (object (parse_record_type line r))
unfolding parse_record_type
parse_record_type-Counted line r h = elim (Option-cases (split_once b'\t' (drop 13 line))) [
  | inl whole ↦ rw (parse_record_type, whole) h
  | inr (p, cut) ↦ rw (parse_record_type, cut) h
]

then_run-Counted :
    (m : Outcome Run) (k : Run → Outcome Run)
    → Counted (object m)
    → ((r : Run) → Counted r → Counted (object (k r)))
    → Counted (object (then_run m k))
then_run-Counted (done r) k h next = next r h
then_run-Counted (raised e r) k h next = h

if-Counted :
    (b : Bool) (x y : Outcome Run)
    → Counted (object x)
    → Counted (object y)
    → Counted (object (if b then x else y))
if-Counted true x y h k = h
if-Counted false x y h k = k

replay_line-Counted : (line : Text) (r : Run) → Counted r → Counted (object (replay_line line r))
unfolding replay_line
replay_line-Counted line r h = replay_fields-Counted (split b'\t' line) r h

with_line-Counted :
    (line : Text) (r : Run) → Counted r → Counted (object (with_line replay_line line r))
with_line-Counted line r h = if-Counted (starts_with (codes "#") line) (done r) _ h (
    if-Counted (starts_with (codes "@record-type:") (strip line)) _ _
      (parse_record_type-Counted (strip line) r h) (replay_line-Counted (strip line) r h))

replay_rest-Counted :
    (file : List Text) (r : Run) → Counted r → Counted (object (replay_rest file r))
unfolding replay_rest
replay_rest-Counted [] r h = h
replay_rest-Counted (line ∷ file) r h =
    then_run-Counted (with_line replay_line line r) (replay_rest file) (with_line-Counted line r h)
      (replay_rest-Counted file)

start_clock-Counted : (ts : Result ℕ) (r : Run) → Counted r → Counted (object (start_clock ts r))
start_clock-Counted (ok ts) r h = h
start_clock-Counted (err e) r h = h

initial_clock-Counted :
    (ts : Result Text) (r : Run) → Counted r → Counted (object (initial_clock ts r))
initial_clock-Counted (ok ts) r h = start_clock-Counted (int10 ts) r h
initial_clock-Counted (err e) r h = h

first_line-Counted : (line : Text) (r : Run) → Counted r → Counted (object (first_line line r))
unfolding first_line
first_line-Counted line r h =
    then_run-Counted (initial_clock (second_of_three line) r) (replay_line line)
      (initial_clock-Counted (second_of_three line) r h) (replay_line-Counted line)

-- replay, which adds one to alloc_api_calls in the branches for the calls malloc, calloc,
-- aligned_alloc, posix_memalign, realloc and free, keeps that counter equal to the number of
-- allocd, freed and reallocd events sent where it was so before, for every file, also where it
-- raises.
pub replay-Counted : (file : List Text) (r : Run) → Counted r → Counted (object (replay file r))
unfolding replay
replay-Counted [] r h = h
replay-Counted (line ∷ file) r h =
    if-Counted (starts_with (codes "#") line) _ _ (replay-Counted file r h) (
      if-Counted (starts_with (codes "@record-type:") (strip line)) _ _
        (then_run-Counted (parse_record_type (strip line) r) (replay file)
          (parse_record_type-Counted (strip line) r h) (replay-Counted file))
        (then_run-Counted (first_line (strip line) r) (replay_rest file)
          (first_line-Counted (strip line) r h) (replay_rest-Counted file)))
