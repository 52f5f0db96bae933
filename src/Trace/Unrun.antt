-- ===== src/Trace/Unrun.antt =====
-- The object `Unrun`: the handlers that turn each event back to a record, and the lines it writes.
use memory_alloc_analysis.Prelude.{
  ℕ, zero, suc, ◌-◌, ◌*◌, ◌/◌, ◌%◌, Bool, false, ◌&&◌, ◌||◌, Option, none, some, List, [], ◌∷◌,
  ◌++◌, if◌then◌else◌, ◌==◌, ltb, leb, Result, ok, err, ◌>>=◌, Outcome, done, raised, value_error,
  index_error,
}
use memory_alloc_analysis.Renaming.Defs.{
  Event, alloc_event, free_event, realloc_event, sample_event, space_event, mapd, unmapd, revoked,
}
use memory_alloc_analysis.Trace.Text.{Text, codes, same, split, join}
use memory_alloc_analysis.Trace.Numerals.{format10, format16}
use memory_alloc_analysis.Trace.Dict.{Dict, get, put, item, keys}
use memory_alloc_analysis.Trace.Calls.{Record, argument10}
use memory_alloc_analysis.Trace.Run.{starts_with}

-- `out` has the lines that are written, the latest first.
pub record Unrun : Type 0 where
  pub record_types : Dict (List Text)
  pub out : List Text

abbrev pub new_unrun : Unrun
new_unrun = record { record_types = []; out = [] }

-- str(end - begin), which may be negative
unfoldable pub difference : ℕ → ℕ → Text
difference end begin =
    if ltb end begin then b'-' ∷ format10 (begin - end) else format10 (end - begin)

-- '{0:d} {1:d}' and the like
abbrev pub two : Text → Text → Text
two s t = s ++ (b' ' ∷ t)

-- begin & (~begin + 1), the greatest power of two that divides begin, on fuel; half the bits are
-- left after every step, so that the number itself is fuel enough.
unfoldable pub low_bit_on : ℕ → ℕ → ℕ
low_bit_on zero n = 0
low_bit_on (suc fuel) n =
    let rest = low_bit_on fuel (n / 2) in if n == 0 then 0 else if n % 2 == 1 then 1 else 2 * rest

unfoldable pub low_bit : ℕ → ℕ
unfolding low_bit_on
low_bit n = low_bit_on n n

abbrev pub misaligned : ℕ → Option ℕ → Bool
misaligned begin none = false
misaligned begin (some align) = ltb (low_bit begin) align

-- the alignment that is sent, or else that of the record
unfoldable pub alignment : Option ℕ → Record → Result ℕ
unfolding item argument10
alignment (some align) event = ok align
alignment none event = do args ← item (codes "args") event; argument10 (split b' ' args) 0

-- the fields of the record and the alignment that the branches on `call` leave
unfoldable pub alloc_fields : Text → Record → ℕ → ℕ → Option ℕ → Result (Record × Option ℕ)
unfolding put item difference argument10 alignment
alloc_fields call event begin end align =
    let size = difference end begin in
    if same call (codes "malloc")
    then ok (put (codes "args") size event, align)
    else if same call (codes "calloc")
    then (do
      args ← item (codes "args") event
      n ← argument10 (split b' ' args) 0
      m ← argument10 (split b' ' args) 1
      ok (
        if leb begin end && (n * m == end - begin)
            then event
            else put (codes "args") (two (format10 1) size) event,
        align,
      ))
    else if same call (codes "aligned_alloc") || same call (codes "posix_memalign")
    then (do
      a ← alignment align event
      ok (put (codes "args") (two (format10 a) size) event, some a))
    else ok (put (codes "args") size (put (codes "name") (codes "malloc") event), align)

unfoldable pub allocd : Record → ℕ → ℕ → Option ℕ → Result Record
unfolding put item alloc_fields
allocd event begin end align = do
  call ← item (codes "name") event
  r ← alloc_fields call event begin end align
  if misaligned begin r.1 then err value_error else ok (put (codes "result") (format16 begin) r.0)

-- the three fields that most handlers write
unfoldable pub with_call : Text → Text → Text → Record → Record
unfolding put
with_call name args result event =
    put (codes "result") result (put (codes "args") args (put (codes "name") name event))

unfoldable pub freed : Record → ℕ → Record
unfolding with_call
freed event begin = with_call (codes "free") (format16 begin) [] event

unfoldable pub reallocd : Record → ℕ → ℕ → ℕ → Record
unfolding with_call difference
reallocd event begin_old begin_new end_new =
    with_call (codes "realloc") (two (format16 begin_old) (difference end_new begin_new))
      (format16 begin_new) event

-- arg[1] = size; arg[2] = prot
unfoldable pub map_arguments : List Text → Text → Text → Result (List Text)
map_arguments (a ∷ b ∷ c ∷ arg) size prot = ok (a ∷ size ∷ prot ∷ arg)
map_arguments arg size prot = err index_error

unfoldable pub space_mapd : Record → ℕ → ℕ → ℕ → Result Record
unfolding put item difference map_arguments
space_mapd event begin end prot = do
  let size = difference end begin
  call ← item (codes "name") event
  if same call (codes "mmap")
      then (do
        args ← item (codes "args") event
        arg ← map_arguments (split b' ' args) size (format10 prot)
        ok (put (codes "result") (format16 begin) (put (codes "args") (join b' ' arg) event)))
      else ok (
          with_call (codes "mmap")
            (join b' '
              (codes "0" ∷ size ∷ format10 prot ∷ codes "1000" ∷ codes "-1" ∷ codes "0" ∷ []))
            (format16 begin) event)

unfoldable pub space_unmapd : Record → ℕ → ℕ → Record
unfolding with_call difference
space_unmapd event begin end =
    with_call (codes "munmap") (two (format16 begin) (difference end begin)) [] event

-- the texts that `revoked` joins
unfoldable pub span_texts : List (ℕ × ℕ) → List Text
span_texts [] = []
span_texts ((b, e) ∷ spans) = two (format16 b) (format16 e) ∷ span_texts spans

unfoldable pub space_revoked : Record → List (ℕ × ℕ) → Record
unfolding with_call span_texts
space_revoked event spans = with_call (codes "revoke") (join b' ' (span_texts spans)) [] event

unfoldable pub aspace_sampled : Record → ℕ → ℕ → Record
unfolding put
aspace_sampled event size sweep_size =
    put (codes "sweep-amount-b") (format10 sweep_size)
      (put (codes "addr-space-size-b") (format10 size) event)

-- the record that the handler of an event writes; publishers send no alignment
unfoldable pub record_of : Event Record → Result Record
unfolding allocd freed reallocd space_mapd space_unmapd space_revoked aspace_sampled
record_of (alloc_event event begin end) = allocd event begin end none
record_of (free_event event begin) = ok (freed event begin)
record_of (realloc_event event begin_old begin_new end_new) =
    ok (reallocd event begin_old begin_new end_new)
record_of (sample_event event size sweep_size) = ok (aspace_sampled event size sweep_size)
record_of (space_event event (mapd begin end prot)) = space_mapd event begin end prot
record_of (space_event event (unmapd begin end)) = ok (space_unmapd event begin end)
record_of (space_event event (revoked spans)) = ok (space_revoked event spans)

-- record_fnames.remove(name), of a set
unfoldable pub without : Text → List Text → List Text
without name [] = []
without name (k ∷ ks) = let rest = without name ks in if same name k then rest else k ∷ rest

-- [fn for fn in record_fnames if fn.startswith('timestamp')][0]
unfoldable pub first_timestamp : List Text → Result Text
first_timestamp [] = err index_error
first_timestamp (k ∷ ks) =
    let rest = first_timestamp ks in if starts_with (codes "timestamp") k then ok k else rest

-- [record[fn] for fn in names]
unfoldable pub values : Record → List Text → Result (List Text)
unfolding item
values event [] = ok []
values event (k ∷ ks) =
    let rest = values event ks in item k event >>= λ v. rest >>= λ vs. ok (v ∷ vs)

-- The order in which Python iterates over a set of names is a parameter.
module _ (order : List Text → List Text) where
  unfoldable pub synthesize_record_type : Text → Record → Result (List Text)
  unfolding first_timestamp without keys
  synthesize_record_type rtype event = do
    let names = order (without (codes "record-type") (keys event))
    ts ← first_timestamp names
    ok (codes "record-type" ∷ ts ∷ without ts names)

  abbrev pub write : Text → Unrun → Unrun
  write line u = record u { out = line ∷ u.out }

  unfoldable pub print_record : Record → List Text → Unrun → Outcome Unrun
  unfolding values join
  print_record event spec u = elim (values event spec) [
    | err x ↦ raised x u
    | ok vs ↦ done (write (join b'\t' vs) u)
  ]

  -- the declaration of a record type
  unfoldable pub declaration : Text → List Text → Text
  unfolding join
  declaration rtype names = codes "@record-type:" ++ rtype ++ (b'\t' ∷ join b'\t' names)

  abbrev tail : List Text → List Text
  tail [] = []
  tail (k ∷ ks) = ks

  unfoldable pub declare : Text → List Text → Unrun → Unrun
  unfolding declaration put
  declare rtype spec u =
      write (declaration rtype (tail spec))
        (record u { record_types = put rtype spec u.record_types })

  unfoldable pub print_undeclared : Text → Record → Unrun → Outcome Unrun
  unfolding synthesize_record_type declare print_record
  print_undeclared rtype event u = elim (synthesize_record_type rtype event) [
    | err x ↦ raised x u
    | ok spec ↦ print_record event spec (declare rtype spec u)
  ]

  unfoldable pub synthesize_record : Record → Unrun → Outcome Unrun
  unfolding item get print_record print_undeclared
  synthesize_record event u = elim (item (codes "record-type") event) [
    | err x ↦ raised x u
    | ok rtype ↦ elim (get rtype u.record_types) [
      | none ↦ print_undeclared rtype event u
      | some [] ↦ print_undeclared rtype event u
      | some (name ∷ names) ↦ print_record event (name ∷ names) u
    ]
  ]

  -- the handler of an event
  unfoldable pub handle : Event Record → Unrun → Outcome Unrun
  unfolding record_of synthesize_record
  handle e u = elim (record_of e) [ err x ↦ raised x u | ok event ↦ synthesize_record event u ]
