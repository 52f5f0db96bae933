-- ===== src/Trace/Reread.antt =====
-- `Run` on the fields that `Unrun` writes for each event but those of new objects.
use mathlib.Core.List.{append_assoc}
use memory_alloc_analysis.Prelude.{
  ℕ, ◌+◌, ◌-◌, ◌≤◌, ◌<◌, ◌≡◌, ◌≢◌, refl, false, List, [], ◌∷◌, ok, All, ◌∙◌, arith, ◌==◌,
}
use memory_alloc_analysis.Renaming.Defs.{free_event, realloc_event, space_event, unmapd, revoked}
use memory_alloc_analysis.Trace.Text.{Text, codes, Lacks, join, split-join}
use memory_alloc_analysis.Trace.Numerals.{format10, format16, int10-format, int16-format}
use memory_alloc_analysis.Trace.Calls.{
  Record, parse_call_trace, parse_call, argument10, argument16, argument, addresses, evens, odds,
  pairs,
}
use memory_alloc_analysis.Trace.Unrun.{two, difference, span_texts}
use memory_alloc_analysis.Trace.Fields.{
  Fields, parse-Fields, format10-Lacks, format16-Lacks, split-single, split-two, difference_le,
}

pub parse_freed :
    (r : Record) (begin : ℕ)
    → Fields r (codes "free") (format16 begin) []
    → parse_call_trace r ≡ ok (free_event r begin)
unfolding parse_call argument16
parse_freed r begin f =
    parse-Fields r (codes "free") (format16 begin) [] f
    ∙ rw (split-single (format16 begin) (format16-Lacks begin))
        (rw (parse_call, argument16, argument, int16-format begin) refl)

pub parse_reallocd :
    (r : Record) (begin_old begin_new end_new : ℕ)
    → begin_old ≢ 0
    → begin_new < end_new
    → Fields r
        (codes "realloc")
        (two (format16 begin_old) (difference end_new begin_new))
        (format16 begin_new)
    → parse_call_trace r ≡ ok (realloc_event r begin_old begin_new end_new)
unfolding parse_call argument16 argument10
parse_reallocd r begin_old begin_new end_new real more f =
    let sized = difference_le begin_new end_new (omega arith) in
    let old : (begin_old == 0) ≡ false = ground (arith, real) in
    let end : begin_new + (end_new - begin_new) ≡ end_new = omega arith in
    let size : (end_new - begin_new == 0) ≡ false = ground arith in
    parse-Fields r (codes "realloc") (two (format16 begin_old) (difference end_new begin_new))
      (format16 begin_new) f
    ∙ rw sized (
        rw
          (split-two (format16 begin_old) (format10 (end_new - begin_new))
            (format16-Lacks begin_old) (format10-Lacks (end_new - begin_new)))
          (rw
            (
              parse_call,
              argument16,
              argument10,
              argument,
              int16-format begin_old,
              int16-format begin_new,
              int10-format (end_new - begin_new),
              old,
              end,
              size,
            )
            refl))

pub parse_unmapd :
    (r : Record) (begin end : ℕ)
    → begin ≤ end
    → Fields r (codes "munmap") (two (format16 begin) (difference end begin)) []
    → parse_call_trace r ≡ ok (space_event r (unmapd begin end))
unfolding parse_call argument16 argument10
parse_unmapd r begin end le f =
    let back : begin + (end - begin) ≡ end = omega arith in
    parse-Fields r (codes "munmap") (two (format16 begin) (difference end begin)) [] f
    ∙ rw (difference_le begin end le) (
        rw
          (split-two (format16 begin) (format10 (end - begin)) (format16-Lacks begin)
            (format10-Lacks (end - begin)))
          (rw
            (
              parse_call,
              argument16,
              argument10,
              argument,
              int16-format begin,
              int10-format (end - begin),
              back,
            )
            refl))

-- the texts that `revoked` joins, one by one
number_texts : List (ℕ × ℕ) → List Text
number_texts [] = []
number_texts ((b, e) ∷ spans) = format16 b ∷ format16 e ∷ number_texts spans

join-span_texts :
    (spans : List (ℕ × ℕ)) → join b' ' (span_texts spans) ≡ join b' ' (number_texts spans)
unfolding number_texts span_texts join
join-span_texts [] = refl
join-span_texts ((b, e) ∷ []) = refl
join-span_texts ((b, e) ∷ (c, f) ∷ spans) = rw (join-span_texts ((c, f) ∷ spans)) (
    append_assoc (format16 b) (b' ' ∷ format16 e)
      (b' ' ∷ join b' ' (number_texts ((c, f) ∷ spans))))

number_texts-Lacks : (spans : List (ℕ × ℕ)) → All (Lacks b' ') (number_texts spans)
unfolding number_texts
number_texts-Lacks [] = tt
number_texts-Lacks ((b, e) ∷ spans) =
    (format16-Lacks b, (format16-Lacks e, number_texts-Lacks spans))

first : List (ℕ × ℕ) → List ℕ
first [] = []
first ((b, e) ∷ spans) = b ∷ first spans

second : List (ℕ × ℕ) → List ℕ
second [] = []
second ((b, e) ∷ spans) = e ∷ second spans

addresses-evens : (spans : List (ℕ × ℕ)) → addresses (evens (number_texts spans)) ≡ ok (first spans)
unfolding number_texts evens addresses first
addresses-evens [] = refl
addresses-evens ((b, e) ∷ spans) = rw (addresses, int16-format b, addresses-evens spans) refl

addresses-odds : (spans : List (ℕ × ℕ)) → addresses (odds (number_texts spans)) ≡ ok (second spans)
unfolding number_texts odds addresses second
addresses-odds [] = refl
addresses-odds ((b, e) ∷ spans) = rw (addresses, int16-format e, addresses-odds spans) refl

pairs_back : (spans : List (ℕ × ℕ)) → pairs (first spans) (second spans) ≡ ok spans
unfolding first second pairs
pairs_back [] = refl
pairs_back ((b, e) ∷ spans) = rw (pairs, pairs_back spans) refl

pub parse_revoked :
    (r : Record) (b e : ℕ) (spans : List (ℕ × ℕ))
    → Fields r (codes "revoke") (join b' ' (span_texts ((b, e) ∷ spans))) []
    → parse_call_trace r ≡ ok (space_event r (revoked ((b, e) ∷ spans)))
unfolding parse_call number_texts
parse_revoked r b e spans f =
    parse-Fields r (codes "revoke") (join b' ' (span_texts ((b, e) ∷ spans))) [] f
    ∙ rw (join-span_texts ((b, e) ∷ spans)) (
        rw
          (split-join b' ' (format16 b) (format16 e ∷ number_texts spans)
            (number_texts-Lacks ((b, e) ∷ spans)))
          (rw
            (
              parse_call,
              addresses-evens ((b, e) ∷ spans),
              addresses-odds ((b, e) ∷ spans),
              pairs_back ((b, e) ∷ spans),
            )
            refl))
