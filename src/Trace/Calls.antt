-- ===== src/Trace/Calls.antt =====
-- How `Run` reads one record: `_parse_call_trace` and `_parse_addr_space_sample`, down to the event
-- that they send to the listeners.
use memory_alloc_analysis.Prelude.{
  ℕ, ◌+◌, ◌-◌, ◌*◌, none, some, List, [], ◌∷◌, if◌then◌else◌, ◌==◌, get_elem?, Result, ok, err,
  ◌>>=◌, value_error, index_error,
}
use memory_alloc_analysis.Renaming.Defs.{
  Event, alloc_event, free_event, realloc_event, sample_event, space_event, mapd, unmapd, revoked,
}
use memory_alloc_analysis.Trace.Text.{Text, codes, same, split}
use memory_alloc_analysis.Trace.Numerals.{int10, int16}
use memory_alloc_analysis.Trace.Dict.{Dict, item}

-- a record of the trace, by the names of its fields
abbrev pub Record : Type 0
Record = Dict Text

-- arg[i]
unfoldable pub argument : List Text → ℕ → Result Text
argument arg i = elim (get_elem? arg i) [ none ↦ err index_error | some s ↦ ok s ]

-- int(arg[i]) and int(arg[i], base=16)
unfoldable pub argument10 : List Text → ℕ → Result ℕ
unfolding argument
argument10 arg i = argument arg i >>= int10

unfoldable pub argument16 : List Text → ℕ → Result ℕ
unfolding argument
argument16 arg i = argument arg i >>= int16

-- arg[0::2] and arg[1::2]
unfoldable pub evens : List Text → List Text
evens [] = []
evens (a ∷ []) = a ∷ []
evens (a ∷ b ∷ arg) = a ∷ evens arg

unfoldable pub odds : List Text → List Text
odds [] = []
odds (a ∷ []) = []
odds (a ∷ b ∷ arg) = b ∷ odds arg

-- [int(b, base=16) for b in bs]
unfoldable pub addresses : List Text → Result (List ℕ)
addresses [] = ok []
addresses (b ∷ bs) = let rest = addresses bs in int16 b >>= λ n. rest >>= λ ns. ok (n ∷ ns)

-- tuple(zip(begin, end)), where the lists are of one length
unfoldable pub pairs : List ℕ → List ℕ → Result (List (ℕ × ℕ))
pairs [] [] = ok []
pairs [] (e ∷ es) = err value_error
pairs (b ∷ bs) [] = err value_error
pairs (b ∷ bs) (e ∷ es) = let rest = pairs bs es in rest >>= λ spans. ok ((b, e) ∷ spans)

-- a new object at res, of the size that `size` reads
abbrev pub allocation : Record → Text → Result ℕ → Result (Event Record)
allocation event res size = do begin ← int16 res; n ← size; ok (alloc_event event begin (begin + n))

abbrev pub parse_calloc : Record → List Text → Text → Result (Event Record)
parse_calloc event arg res =
    allocation event res (do n ← argument10 arg 0; m ← argument10 arg 1; ok (n * m))

abbrev pub parse_realloc : Record → List Text → Text → Result (Event Record)
parse_realloc event arg res = do
  begin_old ← argument16 arg 0
  begin_new ← int16 res
  n ← argument10 arg 1
  let end_new = begin_new + n
  ok (
      if begin_old == 0
      then alloc_event event begin_new end_new
      else if end_new - begin_new == 0
      then free_event event begin_old
      else realloc_event event begin_old begin_new end_new)

abbrev pub parse_mmap : Record → List Text → Text → Result (Event Record)
parse_mmap event arg res = do
  begin ← int16 res
  n ← argument10 arg 1
  prot ← argument10 arg 2
  ok (space_event event (mapd begin (begin + n) prot))

abbrev pub parse_munmap : Record → List Text → Result (Event Record)
parse_munmap event arg = do
  begin ← argument16 arg 0
  n ← argument10 arg 1
  ok (space_event event (unmapd begin (begin + n)))

abbrev pub parse_revoke : Record → List Text → Result (Event Record)
parse_revoke event arg = do
  begin ← addresses (evens arg)
  end ← addresses (odds arg)
  spans ← pairs begin end
  ok (space_event event (revoked spans))

-- the branch for `call`
unfoldable pub parse_call : Text → Record → List Text → Text → Result (Event Record)
parse_call call event arg res =
    if same call (codes "malloc")
    then allocation event res (argument10 arg 0)
    else if same call (codes "calloc")
    then parse_calloc event arg res
    else if same call (codes "aligned_alloc")
    then allocation event res (argument10 arg 1)
    else if same call (codes "posix_memalign")
    then allocation event res (argument10 arg 1)
    else if same call (codes "realloc")
    then parse_realloc event arg res
    else if same call (codes "free")
    then (do begin ← argument16 arg 0; ok (free_event event begin))
    else if same call (codes "mmap")
    then parse_mmap event arg res
    else if same call (codes "munmap")
    then parse_munmap event arg
    else if same call (codes "revoke")
    then parse_revoke event arg
    else err value_error

unfoldable pub parse_call_trace : Record → Result (Event Record)
unfolding item parse_call
parse_call_trace event = do
  call ← item (codes "name") event
  args ← item (codes "args") event
  res ← item (codes "result") event
  parse_call call event (split b' ' args) res

unfoldable pub parse_addr_space_sample : Record → Result (Event Record)
unfolding item
parse_addr_space_sample event = do
  total ← item (codes "addr-space-size-b") event
  total_size ← int10 total
  swept ← item (codes "sweep-amount-b") event
  sweep_size ← int10 swept
  ok (sample_event event total_size sweep_size)
