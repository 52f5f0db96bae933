-- ===== src/Trace/Run.antt =====
-- The object `Run`: its clock, the declared record types and the events sent to the listeners.
use memory_alloc_analysis.Prelude.{
  ℕ, zero, suc, ◌-◌, ◌/◌, Bool, true, false, ◌&&◌, ◌||◌, Option, none, some, List, [], ◌∷◌, ◌++◌,
  if◌then◌else◌, ◌==◌, Result, ok, err, Outcome, done, raised, value_error, index_error,
}
use memory_alloc_analysis.Renaming.Defs.{Event}
use memory_alloc_analysis.Trace.Text.{Text, codes, same, split}
use memory_alloc_analysis.Trace.Numerals.{int10}
use memory_alloc_analysis.Trace.Dict.{Dict, get, put, zip_onto}
use memory_alloc_analysis.Trace.Calls.{Record, parse_call_trace, parse_addr_space_sample}

-- Every listener is sent the same events: `sent` has them, the latest first.
pub record Run : Type 0 where
  pub record_types : Dict (List Text)
  pub timestamp : ℕ
  pub alloc_api_calls : ℕ
  pub ts_initial : ℕ
  pub sent : List (Event Record)

abbrev pub new_run : Run
new_run = record {
  record_types = [];
  timestamp = 0;
  alloc_api_calls = 0;
  ts_initial = 0;
  sent = [];
}

unfoldable pub timestamp_ns : Run → ℕ
timestamp_ns r = r.timestamp

unfoldable pub timestamp_us : Run → ℕ
timestamp_us r = r.timestamp / 1000

unfoldable pub timestamp_ms : Run → ℕ
timestamp_ms r = r.timestamp / 1000000

unfoldable pub duration : Run → ℕ
duration r = if r.ts_initial == 0 then 0 else r.timestamp - r.ts_initial

unfoldable pub duration_us : Run → ℕ
unfolding duration
duration_us r = duration r / 1000

unfoldable pub duration_ms : Run → ℕ
duration_ms r = r.timestamp / 1000000

unfoldable pub timestamp_initial_ns : Run → ℕ
timestamp_initial_ns r = r.ts_initial

abbrev pub send : Event Record → Run → Run
send e r = record r { sent = e ∷ r.sent }

abbrev pub one_more_call : Run → Run
one_more_call r = record r { alloc_api_calls = suc r.alloc_api_calls }

-- what the branch for `call` does to `alloc_api_calls`; the six calls of objects are counted in
-- three branches
unfoldable pub count_call : Text → Run → Run
count_call call r =
    if same call (codes "malloc")
      || (same call (codes "calloc")
          || (same call (codes "aligned_alloc") || same call (codes "posix_memalign")))
    then one_more_call r
    else if same call (codes "realloc")
    then one_more_call r
    else if same call (codes "free")
    then one_more_call r
    else r

-- event['name'], which a call that was parsed has
abbrev pub count_named : Option Text → Run → Run
count_named none r = r
count_named (some call) r = count_call call r

abbrev pub send_call : Record → Result (Event Record) → Run → Outcome Run
send_call fields (ok e) r = done (send e (count_named (get (codes "name") fields) r))
send_call fields (err x) r = raised x r

abbrev pub send_sample : Result (Event Record) → Run → Outcome Run
send_sample (ok e) r = done (send e r)
send_sample (err x) r = raised x r

-- the record of a line, once the clock is set
unfoldable pub dispatch : Text → Record → Run → Outcome Run
unfolding count_call
dispatch rtype fields r =
    if same rtype (codes "aspace-sample")
    then send_sample (parse_addr_space_sample fields) r
    else if same rtype (codes "call-trace")
    then send_call fields (parse_call_trace fields) r
    else done r

unfoldable pub replay_record : Text → List Text → List Text → Result ℕ → Run → Outcome Run
unfolding dispatch zip_onto
replay_record rtype rtype_spec fields (ok ts) r =
    dispatch rtype (zip_onto rtype_spec fields []) (record r { timestamp = ts })
replay_record rtype rtype_spec fields (err x) r = raised x r

-- An entry with no field counts as undeclared.
unfoldable pub replay_fields : List Text → Run → Outcome Run
unfolding replay_record get
replay_fields (rtype ∷ ts ∷ fields) r = elim (get rtype r.record_types) [
  | none ↦ raised value_error r
  | some [] ↦ raised value_error r
  | some (name ∷ names) ↦ replay_record rtype (name ∷ names) (rtype ∷ ts ∷ fields) (int10 ts) r
]
replay_fields fields r = raised index_error r

unfoldable pub replay_line : Text → Run → Outcome Run
unfolding replay_fields
replay_line line r = replay_fields (split b'\t' line) r

-- s.split(sep, maxsplit=1), which has one part or two
unfoldable pub split_once : ℕ → Text → Option (Text × Text)
split_once sep [] = none
split_once sep (c ∷ s) =
    let rest = split_once sep s in
    if c == sep then some ([], s) else elim rest [ none ↦ none | some p ↦ some (c ∷ p.0, p.1) ]

abbrev pub drop : ℕ → Text → Text
drop zero s = s
drop (suc n) [] = []
drop (suc n) (c ∷ s) = drop n s

unfoldable pub parse_record_type : Text → Run → Outcome Run
unfolding split_once split put
parse_record_type line r = elim (split_once b'\t' (drop 13 line)) [
  | none ↦ raised value_error r
  | some p ↦ done (record r {
    record_types = put p.0 (split b'\t' (codes "record-type\t" ++ p.1)) r.record_types;
  })
]

abbrev pub starts_with : Text → Text → Bool
starts_with [] s = true
starts_with (c ∷ p) [] = false
starts_with (c ∷ p) (d ∷ s) = c == d && starts_with p s

abbrev strip_left : Text → Text
strip_left [] = []
strip_left (c ∷ s) = let rest = strip_left s in if c == b'\n' then rest else c ∷ s

abbrev strip_right : Text → Text
strip_right [] = []
strip_right (c ∷ s) =
    let rest = strip_right s in
    elim rest [ [] ↦ if c == b'\n' then [] else c ∷ [] | d ∷ t ↦ c ∷ d ∷ t ]

-- line.strip('\n')
unfoldable pub strip : Text → Text
strip s = strip_right (strip_left s)

abbrev pub then_run : Outcome Run → (Run → Outcome Run) → Outcome Run
then_run (done r) k = k r
then_run (raised e r) k = raised e r

-- one pass of a loop of `replay`, where `last` is what it does with a line of the trace
abbrev pub with_line : (Text → Run → Outcome Run) → Text → Run → Outcome Run
with_line last line r =
    if starts_with (codes "#") line
    then done r
    else if starts_with (codes "@record-type:") (strip line)
    then parse_record_type (strip line) r
    else last (strip line) r

-- the second loop
unfoldable pub replay_rest : List Text → Run → Outcome Run
unfolding replay_line parse_record_type strip
replay_rest [] r = done r
replay_rest (line ∷ file) r = then_run (with_line replay_line line r) (replay_rest file)

-- _, ts, _ = line.split('\t', maxsplit=2)
unfoldable pub second_of_three : Text → Result Text
unfolding split_once
second_of_three line = elim (split_once b'\t' line) [
  | none ↦ err value_error
  | some p ↦ elim (split_once b'\t' p.1) [ none ↦ err value_error | some q ↦ ok q.0 ]
]

abbrev pub start_clock : Result ℕ → Run → Outcome Run
start_clock (ok ts) r = done (record r { ts_initial = ts })
start_clock (err x) r = raised x r

abbrev pub initial_clock : Result Text → Run → Outcome Run
initial_clock (ok ts) r = start_clock (int10 ts) r
initial_clock (err x) r = raised x r

unfoldable pub first_line : Text → Run → Outcome Run
unfolding second_of_three replay_line
first_line line r = then_run (initial_clock (second_of_three line) r) (replay_line line)

-- `replay`: the first loop goes on to the second at the first line that is no comment and declares
-- no record type.
unfoldable pub replay : List Text → Run → Outcome Run
unfolding first_line parse_record_type strip replay_rest
replay [] r = done r
replay (line ∷ file) r =
    let rest = replay file in
    if starts_with (codes "#") line
    then rest r
    else if starts_with (codes "@record-type:") (strip line)
    then then_run (parse_record_type (strip line) r) rest
    else then_run (first_line (strip line) r) (replay_rest file)
