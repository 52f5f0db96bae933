-- ===== src/Trace/Kinds.antt =====
-- The counter of the calls, and the kinds of the events that the calls send.
use memory_alloc_analysis.Prelude.{
  ℕ, suc, ◌+◌, ◌-◌, ◌*◌, ◌≡◌, refl, ap, ◌∙◌, subst, Bool, true, false, List, if◌then◌else◌, ◌||◌,
  done, ◌==◌, Result, ok, err, ◌>>=◌, value_error, bind-ok, ok-eq,
}
use memory_alloc_analysis.Renaming.Defs.{
  Event, alloc_event, free_event, realloc_event, sample_event, space_event, mapd, unmapd, revoked,
}
use memory_alloc_analysis.Trace.Text.{Text, codes, same, split}
use memory_alloc_analysis.Trace.Numerals.{int16}
use memory_alloc_analysis.Trace.Dict.{item, item-get}
use memory_alloc_analysis.Trace.Calls.{
  Record, parse_call, parse_call_trace, allocation, parse_calloc, parse_realloc, parse_mmap,
  parse_munmap, parse_revoke, argument10, argument16, addresses, evens, odds, pairs,
}
use memory_alloc_analysis.Trace.Run.{Run, one_more_call, count_call, count_named, send, send_call}

-- the event is of an object
abbrev pub is_api_call : Event Record → Bool
is_api_call (alloc_event event begin end) = true
is_api_call (free_event event begin) = true
is_api_call (realloc_event event begin_old begin_new end_new) = true
is_api_call (sample_event event size sweep_size) = false
is_api_call (space_event event s) = false

-- the run with the event counted, by its kind
abbrev pub count : Event Record → Run → Run
count e r = record r {
  alloc_api_calls = if is_api_call e then suc r.alloc_api_calls else r.alloc_api_calls;
}

-- every event that a parser gives is of an object, or none is
abbrev Gives : Bool → Result (Event Record) → Type 0
Gives b p = (e : Event Record) → p ≡ ok e → is_api_call e ≡ b

of_kind : (b : Bool) (d e : Event Record) → is_api_call d ≡ b → ok d ≡ ok e → is_api_call e ≡ b
of_kind b d e h is = subst (λ x. is_api_call x ≡ b) (ok-eq is) h

allocation-Gives :
    (event : Record) (res : Text) (size : Result ℕ) → Gives true (allocation event res size)
allocation-Gives event res size e is =
    let (begin, _, h1) = bind-ok (int16 res) _ is in
    let (n, _, h2) = bind-ok size _ h1 in
    of_kind true (alloc_event event begin (begin + n)) e refl h2

resized :
    (event : Record) (begin_old begin_new end_new : ℕ) (fresh empty : Bool)
    → is_api_call (
        if fresh
        then alloc_event event begin_new end_new
        else if empty
        then free_event event begin_old
        else realloc_event event begin_old begin_new end_new)
      ≡ true
resized event begin_old begin_new end_new true empty = refl
resized event begin_old begin_new end_new false true = refl
resized event begin_old begin_new end_new false false = refl

realloc-Gives :
    (event : Record) (arg : List Text) (res : Text) → Gives true (parse_realloc event arg res)
realloc-Gives event arg res e is =
    let (begin_old, _, h1) = bind-ok (argument16 arg 0) _ is in
    let (begin_new, _, h2) = bind-ok (int16 res) _ h1 in
    let (n, _, h3) = bind-ok (argument10 arg 1) _ h2 in
    let end_new = begin_new + n in
    of_kind true _ e
      (resized event begin_old begin_new end_new (begin_old == 0) (end_new - begin_new == 0)) h3

free-Gives :
    (event : Record) (arg : List Text)
    → Gives true (do begin ← argument16 arg 0; ok (free_event event begin))
free-Gives event arg e is =
    let (begin, _, h) = bind-ok (argument16 arg 0) _ is in
    of_kind true (free_event event begin) e refl h

mmap-Gives :
    (event : Record) (arg : List Text) (res : Text) → Gives false (parse_mmap event arg res)
mmap-Gives event arg res e is =
    let (begin, _, h1) = bind-ok (int16 res) _ is in
    let (n, _, h2) = bind-ok (argument10 arg 1) _ h1 in
    let (prot, _, h3) = bind-ok (argument10 arg 2) _ h2 in
    of_kind false (space_event event (mapd begin (begin + n) prot)) e refl h3

munmap-Gives : (event : Record) (arg : List Text) → Gives false (parse_munmap event arg)
munmap-Gives event arg e is =
    let (begin, _, h1) = bind-ok (argument16 arg 0) _ is in
    let (n, _, h2) = bind-ok (argument10 arg 1) _ h1 in
    of_kind false (space_event event (unmapd begin (begin + n))) e refl h2

revoke-Gives : (event : Record) (arg : List Text) → Gives false (parse_revoke event arg)
revoke-Gives event arg e is =
    let (begin, _, h1) = bind-ok (addresses (evens arg)) _ is in
    let (end, _, h2) = bind-ok (addresses (odds arg)) _ h1 in
    let (spans, _, h3) = bind-ok (pairs begin end) _ h2 in
    of_kind false (space_event event (revoked spans)) e refl h3

-- the branches that count nothing
others-Gives :
    (maps unmaps revokes : Bool) (x y z : Result (Event Record))
    → Gives false x
    → Gives false y
    → Gives false z
    → Gives false (if maps then x else if unmaps then y else if revokes then z else err value_error)
others-Gives true unmaps revokes x y z gx gy gz e is = gx e is
others-Gives false true revokes x y z gx gy gz e is = gy e is
others-Gives false false true x y z gx gy gz e is = gz e is
others-Gives false false false x y z gx gy gz e is = cc is

counted : (e : Event Record) (r : Run) → is_api_call e ≡ true → one_more_call r ≡ count e r
counted e r h = rw h refl

not_counted : (e : Event Record) (r : Run) → is_api_call e ≡ false → r ≡ count e r
not_counted e r h = rw h refl

module _ (x1 x2 x3 x4 x5 x6 rest : Result (Event Record)) (g1 : Gives true x1) (g2 : Gives true x2)
    (g3 : Gives true x3) (g4 : Gives true x4) (g5 : Gives true x5) (g6 : Gives true x6)
    (none_else : Gives false rest) (e : Event Record) (r : Run) where
  by_branch :
      (b1 b2 b3 b4 b5 b6 : Bool)
      → (if b1
          then x1
          else if b2
          then x2
          else if b3
          then x3
          else if b4
          then x4
          else if b5
          then x5
          else if b6
          then x6
          else rest)
        ≡ ok e
      → (if b1 || (b2 || (b3 || b4))
          then one_more_call r
          else if b5
          then one_more_call r
          else if b6
          then one_more_call r
          else r)
        ≡ count e r
  by_branch true b2 b3 b4 b5 b6 is = counted e r (g1 e is)
  by_branch false true b3 b4 b5 b6 is = counted e r (g2 e is)
  by_branch false false true b4 b5 b6 is = counted e r (g3 e is)
  by_branch false false false true b5 b6 is = counted e r (g4 e is)
  by_branch false false false false true b6 is = counted e r (g5 e is)
  by_branch false false false false false true is = counted e r (g6 e is)
  by_branch false false false false false false is = not_counted e r (none_else e is)

-- the branches that count a call are those that send an event of an object
parse_call-count :
    (call : Text) (event : Record) (arg : List Text) (res : Text) (e : Event Record) (r : Run)
    → parse_call call event arg res ≡ ok e
    → count_call call r ≡ count e r
unfolding parse_call count_call
parse_call-count call event arg res e r is =
    by_branch (allocation event res (argument10 arg 0)) (parse_calloc event arg res)
      (allocation event res (argument10 arg 1)) (allocation event res (argument10 arg 1))
      (parse_realloc event arg res) _ _ (allocation-Gives event res (argument10 arg 0))
      (allocation-Gives event res (do n ← argument10 arg 0; m ← argument10 arg 1; ok (n * m)))
      (allocation-Gives event res (argument10 arg 1))
      (allocation-Gives event res (argument10 arg 1)) (realloc-Gives event arg res)
      (free-Gives event arg)
      (others-Gives (same call (codes "mmap")) (same call (codes "munmap"))
        (same call (codes "revoke")) (parse_mmap event arg res) (parse_munmap event arg)
        (parse_revoke event arg) (mmap-Gives event arg res) (munmap-Gives event arg)
        (revoke-Gives event arg))
      e r (same call (codes "malloc")) (same call (codes "calloc"))
      (same call (codes "aligned_alloc")) (same call (codes "posix_memalign"))
      (same call (codes "realloc")) (same call (codes "free")) is

-- What is counted for a record is what its event says.
pub send_call-count :
    (fields : Record) (e : Event Record) (r : Run)
    → parse_call_trace fields ≡ ok e
    → send_call fields (parse_call_trace fields) r ≡ done (send e (count e r))
unfolding parse_call_trace
send_call-count fields e r is =
    let (call, named, h1) = bind-ok (item (codes "name") fields) _ is in
    let (args, _, h2) = bind-ok (item (codes "args") fields) _ h1 in
    let (res, _, h3) = bind-ok (item (codes "result") fields) _ h2 in
    ap (λ p. send_call fields p r) is
    ∙ ap (λ n. done (send e (count_named n r))) (item-get (codes "name") call fields named)
    ∙ ap (λ r1. done (send e r1)) (parse_call-count call fields (split b' ' args) res e r h3)
