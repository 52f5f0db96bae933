-- ===== src/Trace/Fields.antt =====
-- The three fields that `_parse_call_trace` reads, and the texts that `Unrun` writes there.
use memory_alloc_analysis.Prelude.{ℕ, ◌-◌, ◌≤◌, ◌≡◌, refl, some, [], ◌∷◌, le→ltb, ◌∙◌, arith}
use memory_alloc_analysis.Trace.Text.{Text, codes, Lacks, split, join, split-join}
use memory_alloc_analysis.Trace.Numerals.{format, format10, format16, format-Plain, Plain-Lacks}
use memory_alloc_analysis.Trace.Dict.{get, put, item, get-put, get-put_other}
use memory_alloc_analysis.Trace.Calls.{Record, parse_call_trace, parse_call}
use memory_alloc_analysis.Trace.Unrun.{two, difference, with_call}

pub record Fields (r : Record) (call args res : Text) : Type 0 where
  pub name : get (codes "name") r ≡ some call
  pub arguments : get (codes "args") r ≡ some args
  pub outcome : get (codes "result") r ≡ some res

pub parse-Fields :
    (r : Record) (call args res : Text)
    → Fields r call args res
    → parse_call_trace r ≡ parse_call call r (split b' ' args) res
unfolding parse_call_trace
parse-Fields r call args res f = rw (parse_call_trace, item, f.name, f.arguments, f.outcome) refl

-- the result written over that of a record
pub result-Fields :
    (event : Record) (name args res : Text)
    → get (codes "name") event ≡ some name
    → get (codes "args") event ≡ some args
    → Fields (put (codes "result") res event) name args res
result-Fields event name args res is has = record {
  name = get-put_other (codes "result") (codes "name") res event refl ∙ is;
  arguments = get-put_other (codes "result") (codes "args") res event refl ∙ has;
  outcome = get-put (codes "result") res event;
}

-- the arguments and the result written over those of a record
pub put-Fields :
    (event : Record) (name args res : Text)
    → get (codes "name") event ≡ some name
    → Fields (put (codes "result") res (put (codes "args") args event)) name args res
put-Fields event name args res is =
    result-Fields (put (codes "args") args event) name args res
      (get-put_other (codes "args") (codes "name") args event refl ∙ is)
      (get-put (codes "args") args event)

pub with_call-Fields :
    (name args res : Text) (event : Record) → Fields (with_call name args res event) name args res
unfolding with_call
with_call-Fields name args res event =
    put-Fields (put (codes "name") name event) name args res (get-put (codes "name") name event)

-- no printed number has a blank in it
pub format10-Lacks : (n : ℕ) → Lacks b' ' (format10 n)
format10-Lacks n =
    Plain-Lacks b' ' (format 10 n) (omega arith) (format-Plain 10 (omega arith) (omega arith) n)

pub format16-Lacks : (n : ℕ) → Lacks b' ' (format16 n)
format16-Lacks n =
    Plain-Lacks b' ' (format 16 n) (omega arith) (format-Plain 16 (omega arith) (omega arith) n)

pub split-single : (s : Text) → Lacks b' ' s → split b' ' s ≡ s ∷ []
unfolding join
split-single s h = split-join b' ' s [] (h, tt)

pub split-two : (s t : Text) → Lacks b' ' s → Lacks b' ' t → split b' ' (two s t) ≡ s ∷ t ∷ []
unfolding join
split-two s t h k = split-join b' ' s (t ∷ []) (h, (k, tt))

pub difference_le : (begin end : ℕ) → begin ≤ end → difference end begin ≡ format10 (end - begin)
unfolding difference
difference_le begin end le = rw (difference, le→ltb end begin le) refl

-- r has the three fields of w
pub record Agree (r w : Record) : Type 0 where
  pub name : get (codes "name") r ≡ get (codes "name") w
  pub arguments : get (codes "args") r ≡ get (codes "args") w
  pub outcome : get (codes "result") r ≡ get (codes "result") w

pub Agree-Fields :
    {r w : Record} {call args res : Text}
    → Agree r w
    → Fields w call args res
    → Fields r call args res
Agree-Fields a f = record {
  name = a.name ∙ f.name;
  arguments = a.arguments ∙ f.arguments;
  outcome = a.outcome ∙ f.outcome;
}
