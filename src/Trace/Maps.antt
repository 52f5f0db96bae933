-- ===== src/Trace/Maps.antt =====
-- `Run` on the record that `Unrun.mapd` writes.
use memory_alloc_analysis.Prelude.{
  ℕ, ◌+◌, ◌-◌, ◌≤◌, ◌≡◌, refl, sym, ap, subst, List, [], ◌∷◌, ok, All, ◌∙◌, arith, inl, inr,
  bind-ok, ok-eq, some, if_cases,
}
use memory_alloc_analysis.Renaming.Defs.{space_event, mapd}
use memory_alloc_analysis.Trace.Text.{
  Text, codes, same, same→≡, Lacks, split, join, split-join, split-Lacks,
}
use memory_alloc_analysis.Trace.Numerals.{format10, format16, int10-format, int16-format}
use memory_alloc_analysis.Trace.Dict.{get, put, item, item-get}
use memory_alloc_analysis.Trace.Calls.{Record, parse_call_trace, parse_call, argument10, argument}
use memory_alloc_analysis.Trace.Unrun.{space_mapd, difference, map_arguments, with_call}
use memory_alloc_analysis.Trace.Fields.{
  Fields, parse-Fields, format10-Lacks, difference_le, with_call-Fields, put-Fields,
}

-- the arguments that `mapd` writes, read back
module _ (begin end prot : ℕ) (le : begin ≤ end) (r : Record) where
  pub parse_mapd :
      (a : Text) (arg : List Text)
      → Lacks b' ' a
      → All (Lacks b' ') arg
      → Fields r
          (codes "mmap")
          (join b' ' (a ∷ format10 (end - begin) ∷ format10 prot ∷ arg))
          (format16 begin)
      → parse_call_trace r ≡ ok (space_event r (mapd begin end prot))
  unfolding parse_call argument10
  parse_mapd a arg la larg f =
      let back : begin + (end - begin) ≡ end = omega arith in
      parse-Fields r (codes "mmap") (join b' ' (a ∷ format10 (end - begin) ∷ format10 prot ∷ arg))
        (format16 begin) f
      ∙ rw
          (split-join b' ' a (format10 (end - begin) ∷ format10 prot ∷ arg)
            (la, (format10-Lacks (end - begin), (format10-Lacks prot, larg))))
          (rw
            (
              parse_call,
              argument10,
              argument,
              int16-format begin,
              int10-format (end - begin),
              int10-format prot,
              back,
            )
            refl)

-- what `map_arguments` returned: the second and the third argument are replaced
map_arguments-parts :
    (arg out : List Text) (size prot : Text)
    → All (Lacks b' ') arg
    → map_arguments arg size prot ≡ ok out
    → (a : Text) × (rest : List Text) × Lacks b' ' a
      × All (Lacks b' ') rest
      × (a ∷ size ∷ prot ∷ rest ≡ out)
unfolding map_arguments
map_arguments-parts [] out size prot h is = cc is
map_arguments-parts (a ∷ []) out size prot h is = cc is
map_arguments-parts (a ∷ b ∷ []) out size prot h is = cc is
map_arguments-parts (a ∷ b ∷ c ∷ arg) out size prot h is = (a, arg, h.0, h.1.1.1, ok-eq is)

pub record Mapped (w : Record) (begin end prot : ℕ) : Type 0 where
  pub hint : Text
  pub others : List Text
  pub hint-Lacks : Lacks b' ' hint
  pub others-Lacks : All (Lacks b' ') others
  pub fields :
      Fields w
        (codes "mmap")
        (join b' ' (hint ∷ format10 (end - begin) ∷ format10 prot ∷ others))
        (format16 begin)

module _ (event : Record) (begin end prot : ℕ) (le : begin ≤ end) where
  -- of a record of mmap, the first argument and those after the third are kept
  kept_fields :
      (args : Text) (arg : List Text)
      → get (codes "name") event ≡ some (codes "mmap")
      → map_arguments (split b' ' args) (format10 (end - begin)) (format10 prot) ≡ ok arg
      → Mapped
          (put (codes "result") (format16 begin) (put (codes "args") (join b' ' arg) event))
          begin
          end
          prot
  kept_fields args arg is h =
      let (a, rest, la, lrest, eq) =
        map_arguments-parts (split b' ' args) arg (format10 (end - begin)) (format10 prot)
          (split-Lacks b' ' args) h in
      record {
        hint = a;
        others = rest;
        hint-Lacks = la;
        others-Lacks = lrest;
        fields =
            subst
              (λ v.
                Fields
                  (put (codes "result") (format16 begin) (put (codes "args") (join b' ' arg) event))
                  (codes "mmap") (join b' ' v) (format16 begin))
              (sym eq) (put-Fields event (codes "mmap") (join b' ' arg) (format16 begin) is);
      }

  fresh_fields :
      Mapped
        (with_call
          (codes "mmap")
          (join b' ' (
            codes "0"
            ∷ format10 (end - begin)
            ∷ format10 prot
            ∷ codes "1000"
            ∷ codes "-1"
            ∷ codes "0"
            ∷ []))
          (format16 begin)
          event)
        begin
        end
        prot
  fresh_fields = record {
    hint = codes "0";
    others = codes "1000" ∷ codes "-1" ∷ codes "0" ∷ [];
    hint-Lacks = ground arith;
    others-Lacks = ground arith;
    fields =
        with_call-Fields (codes "mmap")
          (join b' ' (
            codes "0"
            ∷ format10 (end - begin)
            ∷ format10 prot
            ∷ codes "1000"
            ∷ codes "-1"
            ∷ codes "0"
            ∷ []))
          (format16 begin) event;
  }

  pub mapd-Mapped : (w : Record) → space_mapd event begin end prot ≡ ok w → Mapped w begin end prot
  unfolding space_mapd
  mapd-Mapped w h =
      let (call, named, h1) = bind-ok (item (codes "name") event) _ h in
      elim (if_cases (same call (codes "mmap")) h1) [
        | inl same_call ↦
            let (args, has, h2) = bind-ok (item (codes "args") event) _ same_call.1 in
            let (arg, parts, h3) =
              bind-ok (map_arguments (split b' ' args) (difference end begin) (format10 prot)) _
                h2 in
            subst (λ v. Mapped v begin end prot) (ok-eq h3)
              (kept_fields args arg
                (item-get (codes "name") call event named
                  ∙ ap (λ t. some t) (same→≡ call (codes "mmap") same_call.0))
                (rw (difference_le begin end le) at parts))
        | inr other ↦
            subst (λ v. Mapped v begin end prot)
              (ok-eq (rw (difference_le begin end le) at other.1)) fresh_fields
      ]
