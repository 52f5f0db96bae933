-- ===== src/Trace/Lines.antt =====
-- `Run.replay_line` on a line that `Unrun` printed.
use memory_alloc_analysis.Prelude.{
  ℕ, ◌≡◌, refl, sym, ap, subst, none, some, true, List, [], ◌∷◌, map, ok, All, ◌∙◌, ok-eq, done,
  Option, Bool-cases, inl, inr,
}
use memory_alloc_analysis.Renaming.Defs.{Event, sample_event}
use memory_alloc_analysis.Trace.Text.{Text, codes, join, same, same→≡, Lacks, split-join}
use memory_alloc_analysis.Trace.Numerals.{int10}
use memory_alloc_analysis.Trace.Dict.{get, item-some, zip_onto, among, get-zip_onto}
use memory_alloc_analysis.Trace.Calls.{Record, parse_addr_space_sample}
use memory_alloc_analysis.Trace.Kinds.{count, send_call-count}
use memory_alloc_analysis.Trace.Run.{
  Run, replay_line, replay_fields, replay_record, dispatch, send, send_sample,
}
use memory_alloc_analysis.Trace.Unrun.{
  Unrun, record_of, aspace_sampled, values, print_record, synthesize_record, handle, write,
}
use memory_alloc_analysis.Trace.Fields.{Agree}
use memory_alloc_analysis.Trace.RoundTrip.{
  Proper, IsCall, with_record, parse-record_of, parse_aspace_sampled,
}

abbrev pub from_option : Option Text → Text
from_option none = []
from_option (some v) = v

-- the text of a field, the empty one where it is missing
abbrev pub field : Record → Text → Text
field w k = from_option (get k w)

-- w has the field
abbrev pub Has : Record → Text → Type 0
Has w k = get k w ≡ some (field w k)

-- the record that `Run` makes of the fields named in spec
unfoldable pub reread : Record → List Text → Record
unfolding zip_onto
reread w spec = zip_onto spec (map (field w) spec) []

values-All :
    (w : Record) (spec : List Text) → All (Has w) spec → values w spec ≡ ok (map (field w) spec)
unfolding values
values-All w [] h = refl
values-All w (k ∷ spec) h = rw (values, item-some k (field w k) w h.0, values-All w spec h.1) refl

All-among :
    (w : Record) (k : Text) (spec : List Text) → All (Has w) spec → among k spec ≡ true → Has w k
unfolding among
All-among w k [] h is = cc is
All-among w k (l ∷ spec) h is = elim (Bool-cases (same k l)) [
  | inl this ↦ subst (Has w) (sym (same→≡ k l this)) h.0
  | inr next ↦ All-among w k spec h.1 (rw (among, next) at is)
]

-- a field that was written is read back
pub get-reread :
    (w : Record) (k : Text) (spec : List Text)
    → All (Has w) spec
    → among k spec ≡ true
    → get k (reread w spec) ≡ get k w
unfolding reread get
get-reread w k spec h is = get-zip_onto (field w) k spec [] ∙ rw is (sym (All-among w k spec h is))

-- A record w whose type is declared with the fields named in `spec`, each of which it has.
module _ (order : List Text → List Text) (w : Record) (rtype ts_name : Text) (names : List Text)
    (typed : get (codes "record-type") w ≡ some rtype)
    (filled : All (Has w) (codes "record-type" ∷ ts_name ∷ names)) where
  abbrev pub spec : List Text
  spec = codes "record-type" ∷ ts_name ∷ names

  -- the line of w
  unfoldable pub line : Text
  unfolding join
  line = join b'\t' (map (field w) spec)

  print_filled : (u : Unrun) → print_record order w spec u ≡ done (write order line u)
  unfolding print_record line
  print_filled u = rw (print_record, values-All w spec filled) refl

  pub print_line :
      (u : Unrun)
      → get rtype u.record_types ≡ some spec
      → synthesize_record order w u ≡ done (write order line u)
  unfolding synthesize_record
  print_line u declared =
      rw (synthesize_record, item-some (codes "record-type") rtype w typed, declared)
        (print_filled u)

  replay_parts :
      (r : Run) (ts : ℕ)
      → get rtype r.record_types ≡ some spec
      → int10 (field w ts_name) ≡ ok ts
      → replay_fields (rtype ∷ field w ts_name ∷ map (field w) names) r
        ≡ dispatch rtype
            (zip_onto spec (rtype ∷ field w ts_name ∷ map (field w) names) [])
            (record r { timestamp = ts })
  unfolding replay_fields replay_record
  replay_parts r ts declared timed = rw (replay_fields, declared, timed) refl

  typed_field : field w (codes "record-type") ≡ rtype
  typed_field = ap from_option typed

  pub replay_printed :
      (r : Run) (ts : ℕ)
      → get rtype r.record_types ≡ some spec
      → int10 (field w ts_name) ≡ ok ts
      → All (Lacks b'\t') (map (field w) spec)
      → replay_line line r ≡ dispatch rtype (reread w spec) (record r { timestamp = ts })
  unfolding replay_line reread line
  replay_printed r ts declared timed no_tab =
      ap (λ fields. replay_fields fields r)
        (split-join b'\t' (field w (codes "record-type")) (map (field w) (ts_name ∷ names)) no_tab)
      ∙ subst
          (λ v.
            replay_fields (v ∷ field w ts_name ∷ map (field w) names) r
            ≡ dispatch rtype (zip_onto spec (v ∷ field w ts_name ∷ map (field w) names) [])
                (record r { timestamp = ts }))
          (sym typed_field) (replay_parts r ts declared timed)

-- The record w that `Unrun` writes for an event, and a declaration with the fields that `Run` reads.
module _ (order : List Text → List Text) (e : Event Record) (w : Record) (ts_name : Text)
    (names : List Text) (written : record_of e ≡ ok w) (proper : Proper e)
    (filled : All (Has w) (codes "record-type" ∷ ts_name ∷ names)) (u : Unrun) (r : Run) (ts : ℕ)
    (timed : int10 (field w ts_name) ≡ ok ts)
    (no_tab : All (Lacks b'\t') (map (field w) (codes "record-type" ∷ ts_name ∷ names))) where
  abbrev fields : List Text
  fields = codes "record-type" ∷ ts_name ∷ names

  -- For every event but a sample: where both sides know a record type with the timestamp and
  -- the fields name, args and result, and w has all its fields, none with a tab in it, the
  -- handler of a proper event writes one line, and the replay of that line sends the same
  -- event, with the record as it is read back, counts it and sets the clock.
  pub replay_line-handle :
      (typed : get (codes "record-type") w ≡ some (codes "call-trace"))
      → IsCall e
      → get (codes "call-trace") u.record_types ≡ some (codes "record-type" ∷ ts_name ∷ names)
      → get (codes "call-trace") r.record_types ≡ some (codes "record-type" ∷ ts_name ∷ names)
      → among (codes "name") fields ≡ true
      → among (codes "args") fields ≡ true
      → among (codes "result") fields ≡ true
      → (l : Text) × (handle order e u ≡ done (write order l u))
        × (replay_line l r ≡ (
            let again = with_record (reread w fields) e in
            done (send again (count again (record r { timestamp = ts })))))
  unfolding handle dispatch
  replay_line-handle typed call declared known name arguments outcome =
      let back =
        replay_printed order w (codes "call-trace") ts_name names typed filled r ts known timed
          no_tab in
      let agree : Agree (reread w fields) w = record {
        name = get-reread w (codes "name") fields filled name;
        arguments = get-reread w (codes "args") fields filled arguments;
        outcome = get-reread w (codes "result") fields filled outcome;
      } in
      (
        line order w (codes "call-trace") ts_name names typed filled,
        rw (handle, written)
            (print_line order w (codes "call-trace") ts_name names typed filled u declared),
        back
            ∙ send_call-count (reread w fields) (with_record (reread w fields) e)
                (record r { timestamp = ts })
                (parse-record_of (reread w fields) w agree e call proper written),
      )

  sample_back :
      (event : Record) (size sweep_size : ℕ)
      → e ≡ sample_event event size sweep_size
      → among (codes "addr-space-size-b") fields ≡ true
      → among (codes "sweep-amount-b") fields ≡ true
      → parse_addr_space_sample (reread w fields)
        ≡ ok (sample_event (reread w fields) size sweep_size)
  unfolding record_of
  sample_back event size sweep_size is_sample sized swept =
      let eq : ok (aspace_sampled event size sweep_size) ≡ ok w =
        sym (ap record_of is_sample) ∙ written in
      parse_aspace_sampled (reread w fields) w event size sweep_size (ok-eq eq)
        (get-reread w (codes "addr-space-size-b") fields filled sized)
        (get-reread w (codes "sweep-amount-b") fields filled swept)

  -- For a sample of the address space: where both sides know its record type, with the two
  -- amounts, and w has all its fields, none with a tab in it, the handler writes one line, and
  -- the replay of that line sends the sample with both amounts and sets the clock.
  pub replay_line-handle_sample :
      (event : Record) (size sweep_size : ℕ)
      → e ≡ sample_event event size sweep_size
      → (typed : get (codes "record-type") w ≡ some (codes "aspace-sample"))
      → get (codes "aspace-sample") u.record_types ≡ some (codes "record-type" ∷ ts_name ∷ names)
      → get (codes "aspace-sample") r.record_types ≡ some (codes "record-type" ∷ ts_name ∷ names)
      → among (codes "addr-space-size-b") fields ≡ true
      → among (codes "sweep-amount-b") fields ≡ true
      → (l : Text) × (handle order e u ≡ done (write order l u))
        × (replay_line l r
            ≡ done (
                send
                  (sample_event (reread w fields) size sweep_size)
                  (record r { timestamp = ts })))
  unfolding handle dispatch
  replay_line-handle_sample event size sweep_size is_sample typed declared known sized swept = (
    line order w (codes "aspace-sample") ts_name names typed filled,
    rw (handle, written)
        (print_line order w (codes "aspace-sample") ts_name names typed filled u declared),
    replay_printed order w (codes "aspace-sample") ts_name names typed filled r ts known timed
          no_tab
        ∙ ap (λ p. send_sample p (record r { timestamp = ts }))
            (sample_back event size sweep_size is_sample sized swept),
  )
