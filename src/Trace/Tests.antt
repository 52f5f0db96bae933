-- ===== src/Trace/Tests.antt =====
-- Examples of the trace's reader and writer.
use memory_alloc_analysis.Prelude.{◌≡◌, refl, List, [], ◌∷◌, ok, done, object, arith}
use memory_alloc_analysis.Renaming.Defs.{Event, realloc_event, sample_event}
use memory_alloc_analysis.Trace.Text.{Text, codes}
use memory_alloc_analysis.Trace.Numerals.{int10, int16, format, digits, scan}
use memory_alloc_analysis.Trace.Dict.{get, put, among, zip_onto}
use memory_alloc_analysis.Trace.Calls.{Record, parse_call, parse_call_trace, argument10}
use memory_alloc_analysis.Trace.Run.{Run, new_run, replay, replay_line, send}
use memory_alloc_analysis.Trace.Kinds.{count}
use memory_alloc_analysis.Trace.Unrun.{Unrun, record_of, handle, write}
use memory_alloc_analysis.Trace.RoundTrip.{with_record}
use memory_alloc_analysis.Trace.Lines.{reread, replay_line-handle}
use memory_alloc_analysis.Trace.Counted.{Counted, replay-Counted}
use memory_alloc_analysis.Trace.Comments.{without_comments, replay-without_comments}

abbrev call_names : List Text
call_names = codes "name" ∷ codes "args" ∷ codes "result" ∷ []

-- a record of realloc
abbrev resize : Record
resize =
    (codes "record-type", codes "call-trace")
    ∷ (codes "timestamp", codes "17")
    ∷ (codes "name", codes "realloc")
    ∷ (codes "args", codes "40 8")
    ∷ (codes "result", codes "50")
    ∷ []

-- the same, as an allocator that moved the object publishes it
abbrev moved : Event Record
moved = realloc_event resize 64 128 160

abbrev moved_record : Record
moved_record =
    (codes "record-type", codes "call-trace")
    ∷ (codes "timestamp", codes "17")
    ∷ (codes "name", codes "realloc")
    ∷ (codes "args", codes "40 32")
    ∷ (codes "result", codes "80")
    ∷ []

moved_written : record_of moved ≡ ok moved_record
unfolding record_of digits format put
moved_written = refl

abbrev same_order : List Text → List Text
same_order ks = ks

abbrev call_fields : List Text
call_fields = codes "record-type" ∷ codes "timestamp" ∷ call_names

abbrev writer : Unrun
writer = record { record_types = (codes "call-trace", call_fields) ∷ []; out = [] }

abbrev reader : Run
reader = record new_run { record_types = (codes "call-trace", call_fields) ∷ [] }

replay_line-handle_example :
    (l : Text) × (handle same_order moved writer ≡ done (write same_order l writer))
    × (replay_line l reader ≡ (
        let again = with_record (reread moved_record call_fields) moved in
        done (send again (count again (record reader { timestamp = 17 })))))
unfolding get among scan int10
replay_line-handle_example =
    replay_line-handle same_order moved moved_record (codes "timestamp") call_names moved_written
      (ground arith, omega arith) (refl, (refl, (refl, (refl, (refl, tt))))) writer reader 17 refl
      (ground arith) refl tt refl refl refl refl refl

abbrev sample_names : List Text
sample_names = codes "addr-space-size-b" ∷ codes "sweep-amount-b" ∷ []

abbrev sample_fields : List Text
sample_fields = codes "record-type" ∷ codes "timestamp" ∷ sample_names

abbrev sample : Record
sample =
    (codes "record-type", codes "aspace-sample")
    ∷ (codes "timestamp", codes "20")
    ∷ (codes "addr-space-size-b", codes "0")
    ∷ []

abbrev sample_record : Record
sample_record =
    (codes "record-type", codes "aspace-sample")
    ∷ (codes "timestamp", codes "20")
    ∷ (codes "addr-space-size-b", codes "4096")
    ∷ (codes "sweep-amount-b", codes "100")
    ∷ []

sample_written : record_of (sample_event sample 4096 100) ≡ ok sample_record
unfolding record_of digits format put
sample_written = refl

abbrev sample_writer : Unrun
sample_writer = record { record_types = (codes "aspace-sample", sample_fields) ∷ []; out = [] }

abbrev sample_reader : Run
sample_reader = record new_run { record_types = (codes "aspace-sample", sample_fields) ∷ [] }

-- a comment, a declaration and a record
abbrev file : List Text
file =
    codes "#\n"
    ∷ codes "@record-type:call-trace\ttimestamp\tname\targs\tresult\n"
    ∷ codes "#\n"
    ∷ codes "call-trace\t17\tmalloc\t16\t1000\n"
    ∷ []

file_calls : (object (replay file new_run)).alloc_api_calls ≡ 1
unfolding replay scan parse_call zip_onto int10 parse_call_trace int16 argument10
file_calls = refl

replay-Counted_example : Counted (object (replay file new_run))
replay-Counted_example = replay-Counted file new_run refl

replay-without_comments_example : replay (without_comments file) new_run ≡ replay file new_run
replay-without_comments_example = replay-without_comments file new_run
