-- ===== src/Trace/RoundTrip.antt =====
-- `Run` after `Unrun`, event by event: the records that the handlers of `Unrun` write.
use memory_alloc_analysis.Prelude.{
  ℕ, ◌+◌, ◌-◌, ◌≤◌, ◌<◌, ◌≡◌, ◌≢◌, refl, sym, ap, subst, none, some, [], ◌∷◌, ok, ◌∙◌, arith, ok-eq,
}
use memory_alloc_analysis.Renaming.Defs.{
  Event, alloc_event, free_event, realloc_event, sample_event, space_event, mapd, unmapd, revoked,
}
use memory_alloc_analysis.Trace.Text.{Text, codes}
use memory_alloc_analysis.Trace.Numerals.{format10, format16, int10-format, int16-format}
use memory_alloc_analysis.Trace.Dict.{get, put, item-some, get-put, get-put_other}
use memory_alloc_analysis.Trace.Calls.{Record, parse_call_trace, parse_addr_space_sample}
use memory_alloc_analysis.Trace.Unrun.{
  record_of, freed, reallocd, space_mapd, space_unmapd, space_revoked, aspace_sampled,
}
use memory_alloc_analysis.Trace.Fields.{
  Fields, parse-Fields, Agree, Agree-Fields, put-Fields, result-Fields,
}
use memory_alloc_analysis.Trace.Allocs.{allocd-Requests}
use memory_alloc_analysis.Trace.Maps.{mapd-Mapped, parse_mapd}
use memory_alloc_analysis.Trace.Reread.{parse_freed, parse_reallocd, parse_unmapd, parse_revoked}

-- Events as `Run` itself sends them: no span ends before it begins, realloc has an object to resize
-- and a size to give it, and some span is revoked.
abbrev pub Proper : Event Record → Type 0
Proper (alloc_event event begin end) = begin ≤ end
Proper (free_event event begin) = Unit
Proper (realloc_event event begin_old begin_new end_new) = (begin_old ≢ 0) × begin_new < end_new
Proper (sample_event event size sweep_size) = Unit
Proper (space_event event (mapd begin end prot)) = begin ≤ end
Proper (space_event event (unmapd begin end)) = begin ≤ end
Proper (space_event event (revoked spans)) = spans ≢ []

-- the event with another record
abbrev pub with_record : Record → Event Record → Event Record
with_record r (alloc_event event begin end) = alloc_event r begin end
with_record r (free_event event begin) = free_event r begin
with_record r (realloc_event event begin_old begin_new end_new) =
    realloc_event r begin_old begin_new end_new
with_record r (sample_event event size sweep_size) = sample_event r size sweep_size
with_record r (space_event event s) = space_event r s

-- a call of an allocator or of the system, not a sample of the address space
abbrev pub IsCall : Event Record → Type 0
IsCall (alloc_event event begin end) = Unit
IsCall (free_event event begin) = Unit
IsCall (realloc_event event begin_old begin_new end_new) = Unit
IsCall (sample_event event size sweep_size) = ⊥
IsCall (space_event event s) = Unit

module _ (r w : Record) (same_fields : Agree r w) where
  parse_allocd :
      (event : Record) (begin end : ℕ)
      → begin ≤ end
      → record_of (alloc_event event begin end) ≡ ok w
      → parse_call_trace r ≡ ok (alloc_event r begin end)
  unfolding record_of
  parse_allocd event begin end le h =
      let (e, asks, eq) = allocd-Requests event begin end le none w h in
      let fields : Fields w asks.call asks.args (format16 begin) =
        subst (λ v. Fields v asks.call asks.args (format16 begin)) eq
          (result-Fields e asks.call asks.args (format16 begin) asks.name asks.arguments) in
      let back : begin + (end - begin) ≡ end = omega arith in
      parse-Fields r asks.call asks.args (format16 begin) (Agree-Fields same_fields fields)
      ∙ asks.parsed r (format16 begin)
      ∙ rw (int16-format begin, back) refl

  parse_space_mapd :
      (event : Record) (begin end prot : ℕ)
      → begin ≤ end
      → space_mapd event begin end prot ≡ ok w
      → parse_call_trace r ≡ ok (space_event r (mapd begin end prot))
  parse_space_mapd event begin end prot le h =
      let m = mapd-Mapped event begin end prot le w h in
      parse_mapd begin end prot le r m.hint m.others m.hint-Lacks m.others-Lacks
        (Agree-Fields same_fields m.fields)

  -- the fields of a record that `with_call` wrote
  called :
      {name args res : Text} (event : Record)
      → ok (put (codes "result") res (put (codes "args") args (put (codes "name") name event)))
        ≡ ok w
      → Fields r name args res
  called {name = name} {args = args} {res = res} event h = Agree-Fields same_fields (
      subst (λ v. Fields v name args res) (ok-eq h)
        (put-Fields (put (codes "name") name event) name args res
          (get-put (codes "name") name event)))

  pub parse-record_of :
      (e : Event Record)
      → IsCall e
      → Proper e
      → record_of e ≡ ok w
      → parse_call_trace r ≡ ok (with_record r e)
  unfolding record_of freed reallocd space_unmapd space_revoked
  parse-record_of (alloc_event event begin end) c p h = parse_allocd event begin end p h
  parse-record_of (free_event event begin) c p h = parse_freed r begin (called event h)
  parse-record_of (realloc_event event begin_old begin_new end_new) c p h =
      parse_reallocd r begin_old begin_new end_new p.0 p.1 (called event h)
  parse-record_of (sample_event event size sweep_size) c p h = absurd c
  parse-record_of (space_event event (mapd begin end prot)) c p h =
      parse_space_mapd event begin end prot p h
  parse-record_of (space_event event (unmapd begin end)) c p h =
      parse_unmapd r begin end p (called event h)
  parse-record_of (space_event event (revoked [])) c p h = absurd (p refl)
  parse-record_of (space_event event (revoked ((b, e) ∷ spans))) c p h =
      parse_revoked r b e spans (called event h)

pub parse_aspace_sampled :
    (r w event : Record) (size sweep_size : ℕ)
    → aspace_sampled event size sweep_size ≡ w
    → get (codes "addr-space-size-b") r ≡ get (codes "addr-space-size-b") w
    → get (codes "sweep-amount-b") r ≡ get (codes "sweep-amount-b") w
    → parse_addr_space_sample r ≡ ok (sample_event r size sweep_size)
unfolding parse_addr_space_sample aspace_sampled
parse_aspace_sampled r w event size sweep_size is sized swept =
    let has_size : get (codes "addr-space-size-b") r ≡ some (format10 size) =
      sized
      ∙ ap (get (codes "addr-space-size-b")) (sym is)
      ∙ get-put_other (codes "sweep-amount-b") (codes "addr-space-size-b") (format10 sweep_size)
          (put (codes "addr-space-size-b") (format10 size) event) refl
      ∙ get-put (codes "addr-space-size-b") (format10 size) event in
    let has_sweep : get (codes "sweep-amount-b") r ≡ some (format10 sweep_size) =
      swept
      ∙ ap (get (codes "sweep-amount-b")) (sym is)
      ∙ get-put (codes "sweep-amount-b") (format10 sweep_size)
          (put (codes "addr-space-size-b") (format10 size) event) in
    rw
      (
        parse_addr_space_sample,
        item-some (codes "addr-space-size-b") (format10 size) r has_size,
        item-some (codes "sweep-amount-b") (format10 sweep_size) r has_sweep,
        int10-format size,
        int10-format sweep_size,
      )
      refl
