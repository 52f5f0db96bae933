-- ===== src/Traditional/Revoke.antt =====
-- Revocation.
use memory_alloc_analysis.Prelude.{
  ℕ, zero, suc, ◌+◌, ◌-◌, true, false, Option, none, some, List, [], ◌∷◌, if◌then◌else◌, leb, ◌==◌,
  length, Result, ok, err, ◌>>=◌, Outcome, done, raised, and_run, Answer, answer, failure,
  index_error, type_error, assertion_error,
}
use memory_alloc_analysis.IntervalMap.Defs.{Span}
use memory_alloc_analysis.IntervalMap.Interface.{ValueMap}
use memory_alloc_analysis.Renaming.Defs.{Space}
use memory_alloc_analysis.SegFreeList.Defs.{Dllist}
use memory_alloc_analysis.Clingy.Defs.{Best, no_span, best, njunk}
use memory_alloc_analysis.Clingy.Revoke.{
  insort, last_ones, last, add, container, unused_best, reverse_onto,
}
use memory_alloc_analysis.Traditional.States.{SegSt, in_tj, is_junk, sst_tj, PageSt}
use memory_alloc_analysis.Traditional.Defs.{
  Traditional, Method, publish, reading, when, mark_tidy, unlist,
}

-- [sz for (_, sz, v) in spans if v == SegSt.JUNK]
unfoldable pub junk_sizes : List (Span SegSt) → List ℕ
junk_sizes [] = []
junk_sizes ((base, sz, v) ∷ l) = if is_junk v then sz ∷ junk_sizes l else junk_sizes l

abbrev pub sum : List ℕ → ℕ
sum [] = 0
sum (n ∷ l) = n + sum l

-- a run with the JUNK segments `js`, among the n best so far
unfoldable pub keep_best : ℕ → ℕ → List ℕ → ℕ → ℕ → List Best → List Best
unfolding insort
keep_best n least [] qbase qsz bests = bests
keep_best n least (j ∷ js) qbase qsz bests =
    let nj = sum (j ∷ js) in
    if leb nj least then bests else last_ones n (insort (best nj qbase qsz) bests)

-- [best for best in bests if best[1] >= 0]
unfoldable pub real : List Best → List Best
real [] = []
real (no_span ∷ l) = real l
real (best nj loc sz ∷ l) = best nj loc sz ∷ real l

-- the spans that are published; (0, -1, -1) is none, and only a search for one span gives it
unfoldable pub ranges : List Best → List (ℕ × ℕ)
ranges [] = []
ranges (no_span ∷ l) = ranges l
ranges (best nj loc sz ∷ l) = (loc, loc + sz) ∷ ranges l

-- The loop that fills rset, with the best spans in descending order; what is left of them comes
-- second.
unfoldable pub fill : ℕ → List Best → List Best → List Best × List Best
unfolding add
fill n [] rset = (rset, [])
fill n (b ∷ bs) rset =
    let rest = fill n bs (add b rset) in if leb (length rset) n then rest else (rset, b ∷ bs)

module _ (A : ValueMap SegSt) (P : ValueMap PageSt) (L : Dllist (ℕ × ℕ)) (G : Dllist ℕ) where
  -- the loop over the runs that are TIDY or JUNK
  unfoldable pub best_runs : ℕ → A.Map → List (Span SegSt) → List Best → Result (List Best)
  unfolding keep_best junk_sizes
  best_runs n m [] bests = ok bests
  best_runs n m (q ∷ qs) [] = err index_error
  best_runs n m ((qbase, qsz, qv) ∷ qs) (b ∷ bests) = elim (leb qsz (njunk b)) [
    | true ↦ best_runs n m qs (b ∷ bests)
    | false ↦ A.get_slice qbase (qbase + qsz) m >>= λ spans.
        best_runs n m qs (keep_best n (njunk b) (junk_sizes spans) qbase qsz (b ∷ bests))
  ]

  -- `none` is Python's None; the cache is written
  unfoldable pub find_largest_revokable_spans :
      ℕ → Traditional A P L G → Answer (Traditional A P L G) (Option (List Best))
  unfolding best_runs last real
  find_largest_revokable_spans zero s = answer none s
  find_largest_revokable_spans (suc n) s = elim (if n == 0 then s.brscache else none) [
    | some b ↦ answer (some (b ∷ [])) s
    | none ↦
        elim (A.runs s.wildern sst_tj s.eva2sst >>= λ qs.
        best_runs (suc n) s.eva2sst qs (no_span ∷ [])) [
          | err e ↦ failure e s
          | ok bests ↦ elim (last bests) [
            | err e ↦ failure e s
            | ok top ↦ answer (some (real bests)) (record s { brscache = some top })
          ]
        ]
  ]

  -- the loop over the segments of a span
  unfoldable pub tidy_junk : List (Span SegSt) → Method A P L G
  unfolding unlist mark_tidy
  tidy_junk [] s = done s
  tidy_junk ((qb, qsz, qv) ∷ qs) s =
      if in_tj qv
      then and_run
          (when A P L G (is_junk qv)
            (λ s0. and_run (unlist A P L G qb s0) (mark_tidy A P L G qb qsz)) s)
          (tidy_junk qs)
      else raised assertion_error s

  unfoldable pub revoke_one : Best → Method A P L G
  unfolding tidy_junk
  revoke_one no_span s = done s
  revoke_one (best nj loc sz) s =
      reading A P L G (A.get_slice loc (loc + sz) s.eva2sst) tidy_junk
        (record s { njunk = s.njunk - nj })

  unfoldable pub revoke_all : List Best → Method A P L G
  unfolding revoke_one
  revoke_all [] s = done s
  revoke_all (b ∷ bs) s = and_run (revoke_one b s) (revoke_all bs)

  unfoldable pub do_revoke : List Best → Method A P L G
  unfolding revoke_all ranges
  do_revoke ss s =
      and_run (revoke_all ss (record s { brscache = none }))
        (λ s1. done (publish A P L G (Space.revoked (ranges ss)) s1))

  unfoldable pub run_of : ℕ → A.Map → Result Best
  unfolding junk_sizes
  run_of rloc m = do
    q ← A.get_with rloc sst_tj m
    spans ← A.get_slice q.0 (q.0 + q.1) m
    ok (best (sum (junk_sizes spans)) q.0 q.1)

  -- the spans that hold the addresses to revoke
  unfoldable pub mandatory : List ℕ → List Best → A.Map → List Best → Result (List Best)
  unfolding container run_of add
  mandatory [] brss m rset = ok rset
  mandatory (rloc ∷ revs) brss m rset = elim (container rloc brss) [
    | some b ↦ mandatory revs brss m (add b rset)
    | none ↦ run_of rloc m >>= λ b. mandatory revs brss m (add b rset)
  ]

  abbrev pub with_spans :
      Answer (Traditional A P L G) (Option (List Best))
      → (List Best → Method A P L G)
      → Outcome (Traditional A P L G)
  with_spans (answer none s) next = raised type_error s
  with_spans (answer (some brss) s) next = next brss s
  with_spans (failure e s) next = raised e s

  -- Python goes through a set in an order of its own.
  module _ (order : List Best → List Best) (revoke_k : ℕ) where
    -- the part of `_do_revoke_best_and` once the spans are chosen
    unfoldable pub revoke_chosen : List Best × List Best → Method A P L G
    unfolding do_revoke unused_best
    revoke_chosen filled s =
        and_run (do_revoke (order filled.0) s)
          (λ s1. done (record s1 { brscache = some (unused_best filled.0 filled.1) }))

    -- `n` is the argument or else _revoke_k
    unfoldable pub do_revoke_best_and : ℕ → List ℕ → Method A P L G
    unfolding find_largest_revokable_spans mandatory fill reverse_onto revoke_chosen
    do_revoke_best_and n revs s =
        if leb (length revs) revoke_k
        then with_spans (find_largest_revokable_spans (suc n) s) (λ brss s1.
          reading A P L G (mandatory revs brss s1.eva2sst [])
            (λ rset. revoke_chosen (fill n (reverse_onto brss []) rset)) s1)
        else raised assertion_error s
