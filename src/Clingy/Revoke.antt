-- ===== src/Clingy/Revoke.antt =====
-- Revocation: `_find_largest_revokable_spans`, `_do_revoke` and `_predicated_revoke_best`.
use memory_alloc_analysis.Prelude.{
  ℕ, zero, suc, ◌+◌, ◌-◌, Bool, true, false, ◌&&◌, ◌||◌, Option, none, some, List, [], ◌∷◌, ◌++◌,
  if◌then◌else◌, leb, ltb, ◌==◌, length, Result, ok, err, ◌>>=◌, Outcome, done, raised, and_run,
  index_error, type_error, assertion_error, zero_division_error,
}
use memory_alloc_analysis.IntervalMap.Defs.{negsuc, Span}
use memory_alloc_analysis.Renaming.Defs.{revoked}
use memory_alloc_analysis.Clingy.Sizes.{bix2va}
use memory_alloc_analysis.Clingy.States.{BuckSt, is_junk, BucketMap}
use memory_alloc_analysis.Clingy.Defs.{
  Clingy, Best, no_span, best, njunk, publish, reading, require, mark_tidy,
}

-- The order of the tuples; (0, -1, -1) is below all spans, which hold some junk.
abbrev pub below : Best → Best → Bool
below no_span no_span = false
below no_span (best nj bix sz) = true
below (best nj bix sz) no_span = false
below (best nj bix sz) (best nk cix tz) =
    ltb nj nk || (nj == nk && (ltb bix cix || (bix == cix && ltb sz tz)))

abbrev pub same_best : Best → Best → Bool
same_best no_span no_span = true
same_best no_span (best nj bix sz) = false
same_best (best nj bix sz) no_span = false
same_best (best nj bix sz) (best nk cix tz) = nj == nk && (bix == cix && sz == tz)

-- bisect.insort(bests, x)
unfoldable pub insort : Best → List Best → List Best
insort x [] = x ∷ []
insort x (y ∷ l) = let rest = insort x l in if below x y then x ∷ y ∷ l else y ∷ rest

abbrev pub drop : ℕ → List Best → List Best
drop zero l = l
drop (suc n) [] = []
drop (suc n) (x ∷ l) = drop n l

-- bests[(-n):], for n > 0
abbrev pub last_ones : ℕ → List Best → List Best
last_ones n l = drop (length l - n) l

-- sum(sz for (_, sz, v) in spans if v == BuckSt.JUNK)
unfoldable pub junk_in : List (Span BuckSt) → ℕ
junk_in [] = 0
junk_in ((base, sz, v) ∷ l) = let rest = junk_in l in if is_junk v then sz + rest else rest

-- l[-1], and l without it
unfoldable pub last : List Best → Result Best
last [] = err index_error
last (x ∷ []) = ok x
last (x ∷ y ∷ l) = last (y ∷ l)

unfoldable pub but_last : List Best → List Best
but_last [] = []
but_last (x ∷ []) = []
but_last (x ∷ y ∷ l) = x ∷ but_last (y ∷ l)

unfoldable pub member : Best → List Best → Bool
member x [] = false
member x (y ∷ l) = let rest = member x l in if same_best x y then true else rest

-- rset.add(x)
unfoldable pub add : Best → List Best → List Best
unfolding member
add x l = if member x l then l else l ++ (x ∷ [])

-- a run of nj JUNK buckets among the n best so far; one without any is not among them
unfoldable pub keep_best : ℕ → ℕ → ℕ → ℕ → ℕ → List Best → List Best
unfolding insort
keep_best n least nj qbase qsz bests =
    if nj == 0 || leb nj least then bests else last_ones n (insort (best nj qbase qsz) bests)

-- the first of the best spans that holds mustbix
unfoldable pub container : ℕ → List Best → Option Best
container mustbix [] = none
container mustbix (no_span ∷ bs) = container mustbix bs
container mustbix (best nj bix sz ∷ bs) =
    let rest = container mustbix bs in
    if leb bix mustbix && ltb mustbix (bix + sz) then some (best nj bix sz) else rest

-- the largest span that was not used
unfoldable pub unused_best : List Best → List Best → Best
unfolding member
unused_best rset [] = no_span
unused_best rset (b ∷ bs) = let rest = unused_best rset bs in if member b rset then rest else b

unfoldable pub reverse_onto : List Best → List Best → List Best
reverse_onto [] acc = acc
reverse_onto (b ∷ bs) acc = reverse_onto bs (b ∷ acc)

module _ (B : BucketMap) where
  open B use {Map, get_slice, get_tj, runs_tj, test_location}

  -- the loop over the runs that are TIDY or JUNK
  unfoldable pub best_runs : ℕ → Map → List (Span BuckSt) → List Best → Result (List Best)
  unfolding keep_best junk_in
  best_runs n m [] bests = ok bests
  best_runs n m (q ∷ qs) [] = err index_error
  best_runs n m ((qbase, qsz, qv) ∷ qs) (b ∷ bests) = elim (leb qsz (njunk b)) [
    | true ↦ best_runs n m qs (b ∷ bests)
    | false ↦ get_slice qbase (qbase + qsz) m >>= λ spans.
        best_runs n m qs (keep_best n (njunk b) (junk_in spans) qbase qsz (b ∷ bests))
  ]

  -- `none` is Python's None
  unfoldable pub find_largest_revokable_spans : ℕ → Clingy B → Result (Option (List Best))
  unfolding best_runs
  find_largest_revokable_spans zero s = ok none
  find_largest_revokable_spans (suc n) s = elim (if n == 0 then s.brscache else none) [
    | some b ↦ ok (some (b ∷ []))
    | none ↦ do
      qs ← runs_tj s.maxbix s.bix2state
      bests ← best_runs (suc n) s.bix2state qs (no_span ∷ [])
      ok (some bests)
  ]

  -- For (0, -1, -1) the slice [-1:-2] is empty, and 0 is taken off _njunkb; then mark(-1, -1) tests
  -- whether -1 is on the map, and goes no further.
  unfoldable pub tidy_best : Best → Clingy B → Outcome (Clingy B)
  unfolding mark_tidy
  tidy_best no_span s = elim (test_location (negsuc 0) s.bix2state) [
    | done m ↦ done (record s { bix2state = m })
    | raised e m ↦ raised e (record s { bix2state = m })
  ]
  tidy_best (best nj bix sz) s = mark_tidy B bix sz nj s

  unfoldable pub tidy_all : List Best → Clingy B → Outcome (Clingy B)
  unfolding tidy_best
  tidy_all [] s = done s
  tidy_all (b ∷ bs) s = and_run (tidy_best b s) (tidy_all bs)

  unfoldable pub ranges : List Best → List (ℕ × ℕ)
  ranges [] = []
  ranges (no_span ∷ bs) = ranges bs
  ranges (best nj bix sz ∷ bs) = (bix2va bix, bix2va (bix + sz)) ∷ ranges bs

  -- The line that is printed divides by the number of JUNK buckets.
  unfoldable pub do_revoke : List Best → Clingy B → Outcome (Clingy B)
  unfolding tidy_all ranges
  do_revoke ss s =
      if s.njunkb == 0
      then raised zero_division_error s
      else and_run (tidy_all ss s) (λ s1. done (publish B (revoked (ranges ss)) s1))

  unfoldable pub run_of : ℕ → Map → Result Best
  unfolding junk_in
  run_of mustbix m = do
    q ← get_tj mustbix m
    spans ← get_slice q.0 (q.0 + q.1) m
    ok (best (junk_in spans) q.0 q.1)

  unfoldable pub mandatory : List ℕ → List Best → Map → List Best → Result (List Best)
  unfolding container run_of add
  mandatory [] brss m rset = ok rset
  mandatory (mustbix ∷ revoke) brss m rset = elim (container mustbix brss) [
    | some b ↦ mandatory revoke brss m (add b rset)
    | none ↦ run_of mustbix m >>= λ b. mandatory revoke brss m (add b rset)
  ]

  -- The loop that fills rset, with the best spans in descending order; what is left of them comes
  -- second.
  unfoldable pub fill : ℕ → List Best → List Best → List Best × List Best
  unfolding add
  fill k [] rset = (rset, [])
  fill k (b ∷ bs) rset =
      let rest = fill k bs (add b rset) in if ltb (length rset) k then rest else (rset, b ∷ bs)

  abbrev pub some_spans : Option (List Best) → Result (List Best)
  some_spans none = err type_error
  some_spans (some bs) = ok bs

  abbrev pub search : ℕ → Clingy B → Result (List Best)
  unfolding find_largest_revokable_spans
  search n s = find_largest_revokable_spans n s >>= some_spans

  -- Python goes through a set in an order of its own.
  module _ (order : List Best → List Best) (revoke_k : ℕ) where
    -- the part under `if fn(nrev)`, from the assertion
    unfoldable pub revoke_spans : ℕ → List ℕ → List Best → Clingy B → Outcome (Clingy B)
    unfolding last mandatory fill do_revoke unused_best reverse_onto
    revoke_spans nrev revoke brss s =
        reading B (last brss)
          (λ top. require B (njunk top == nrev) (λ s1.
            reading B (mandatory revoke brss s1.bix2state [])
              (λ rset s2.
                let filled = fill revoke_k (reverse_onto brss []) rset in
                and_run (do_revoke (order filled.0) s2)
                  (λ s3. done (record s3 { brscache = some (unused_best filled.0 filled.1) })))
              s1))
          s

    unfoldable pub predicated_revoke_best : (ℕ → Bool) → ℕ → List ℕ → Clingy B → Outcome (Clingy B)
    unfolding find_largest_revokable_spans last revoke_spans
    predicated_revoke_best fn n revoke s =
        if leb (length revoke) revoke_k
        then elim s.brscache [
          | some b ↦
              if fn (njunk b)
              then reading B (search (n + 1) s) (λ brss. revoke_spans (njunk b) revoke brss) s
              else done s
          | none ↦
              reading B (search (n + 1) s)
                (λ brss. reading B (last brss) (λ top s1.
                  let s2 = record s1 { brscache = some top } in
                  if fn (njunk top) then revoke_spans (njunk top) revoke brss s2 else done s2))
                s
        ]
        else raised assertion_error s
