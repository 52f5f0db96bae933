-- ===== src/Clingy/Alloc.antt =====
-- `_alloc`, with the placement policy as a parameter.
use memory_alloc_analysis.Prelude.{
  ℕ, ◌+◌, ◌*◌, ◌/◌, ◌%◌, ◌^◌, Bool, Option, none, some, List, [], ◌∷◌, if◌then◌else◌, leb, ltb,
  ◌==◌, Result, ok, err, Outcome, done, raised, Answer, answer, failure, and_then, and_run,
  from_result, from_outcome, assertion_error, key_error,
}
use memory_alloc_analysis.SortedDict.Items.{lookup, erase}
use memory_alloc_analysis.IntervalMap.Defs.{Span}
use memory_alloc_analysis.Renaming.Defs.{mapd}
use memory_alloc_analysis.Clingy.Sizes.{is_small, szfix, maxoix, bix2va, sz2nbucks, nbucks2sz}
use memory_alloc_analysis.Clingy.States.{BuckSt, bump, wait, in_at, BucketMap}
use memory_alloc_analysis.Clingy.Defs.{Clingy, publish, mark_state, mark_allocated}

-- the methods that a child class implements; `E` is the type of the trace records
pub record Policy (E : Type 0) : Type 0 where
  -- _alloc_place_small(stk, sz, bbks, tidys) and _alloc_place_large(stk, sz, tidys)
  pub place_small : E → ℕ → List ℕ → List (ℕ × ℕ) → Result ℕ
  pub place_large : E → ℕ → List (ℕ × ℕ) → Result ℕ
  -- _on_bucket_free(bix, bsz)
  pub on_bucket_free : ℕ → ℕ → Option Bool

-- d[k] = v of a dictionary in the order of insertion
unfoldable pub set_item : {A : Type 0} → ℕ → A → List (ℕ × A) → List (ℕ × A)
set_item k a [] = (k, a) ∷ []
set_item k a ((j, b) ∷ d) =
    let rest = set_item k a d in if k == j then (j, a) ∷ d else (j, b) ∷ rest

unfoldable pub keys : {A : Type 0} → List (ℕ × A) → List ℕ
keys [] = []
keys ((k, a) ∷ d) = k ∷ keys d

-- the spans that are TIDY or AHWM
unfoldable pub tidys : List (Span BuckSt) → List (ℕ × ℕ)
tidys [] = []
tidys ((loc, tsz, v) ∷ spans) =
    let rest = tidys spans in if in_at v then (loc, tsz) ∷ rest else rest

abbrev pub or_empty : {A : Type 0} → Option (List A) → List A
or_empty none = []
or_empty (some d) = d

-- bm & (1 << i)
abbrev pub has_bit : ℕ → ℕ → Bool
has_bit bm i = (bm / 2 ^ i) % 2 == 1

module _ (B : BucketMap) {E : Type 0} (P : Policy E) where
  open B use {spans, get_item}

  -- self._szbix2ap[nsz][bix] = ap, and its deletion
  abbrev pub set_pointer : ℕ → ℕ → ℕ → Clingy B → Clingy B
  set_pointer nsz bix ap s = record s {
    szbix2ap = set_item nsz (set_item bix ap (or_empty (lookup nsz s.szbix2ap))) s.szbix2ap;
  }

  unfoldable pub drop_pointer : ℕ → ℕ → Clingy B → Outcome (Clingy B)
  drop_pointer nsz bix s = elim (lookup nsz s.szbix2ap) [
    | none ↦ raised key_error s
    | some bbs ↦ elim (lookup bix bbs) [
      | none ↦ raised key_error s
      | some ap ↦ done (record s { szbix2ap = set_item nsz (erase bix bbs) s.szbix2ap })
    ]
  ]

  -- the branch where the chosen bucket is not open for this size
  unfoldable pub open_bucket : E → ℕ → ℕ → Clingy B → Outcome (Clingy B)
  unfolding mark_allocated set_item
  open_bucket event nsz bbix s =
      and_run
        (mark_allocated B bbix 1 bump (publish B (mapd (bix2va bbix) (bix2va (bbix + 1)) 3) s))
        (λ s1. done (record s1 {
          bix2szbm = set_item bbix (nsz, 0) s1.bix2szbm;
          szbix2ap = set_item nsz (or_empty (lookup nsz s1.szbix2ap)) s1.szbix2ap;
        }))

  -- the new allocation pointer, or the bucket is full
  unfoldable pub bump_pointer : ℕ → ℕ → ℕ → Clingy B → Outcome (Clingy B)
  unfolding drop_pointer mark_state set_item
  bump_pointer nsz bbix bbap s = elim (maxoix nsz) [
    | err e ↦ raised e s
    | ok most ↦
        if bbap == most
        then and_run (drop_pointer nsz bbix s) (mark_state B bbix 1 wait)
        else if ltb bbap most
        then done (set_pointer nsz bbix bbap s)
        else raised assertion_error s
  ]

  -- the bucket is of this size, and the object of the pointer was not freed
  abbrev check_bucket : ℕ → ℕ → ℕ → Clingy B → Outcome (Clingy B)
  check_bucket nsz bbix bbap s = elim (lookup bbix s.bix2szbm) [
    | none ↦ raised key_error s
    | some b ↦
        if b.0 == nsz
        then if has_bit b.1 bbap then raised assertion_error s else done s
        else raised assertion_error s
  ]

  unfoldable pub bump_bucket : ℕ → ℕ → ℕ → Clingy B → Answer (Clingy B) (ℕ × ℕ)
  unfolding bump_pointer
  bump_bucket nsz bbix bbap s = from_outcome (check_bucket nsz bbix bbap s) (λ s1.
      from_outcome (bump_pointer nsz bbix (bbap + 1) s1)
        (λ s2. answer (bix2va bbix + bbap * nsz, nsz) s2))

  unfoldable pub alloc_placed : E → ℕ → ℕ → Clingy B → Answer (Clingy B) (ℕ × ℕ)
  unfolding open_bucket bump_bucket
  alloc_placed event nsz bbix s = elim (lookup bbix (or_empty (lookup nsz s.szbix2ap))) [
    | some bbap ↦ bump_bucket nsz bbix bbap s
    | none ↦ from_outcome (open_bucket event nsz bbix s) (bump_bucket nsz bbix 0)
  ]

  unfoldable pub alloc_small : E → ℕ → Clingy B → Answer (Clingy B) (ℕ × ℕ)
  unfolding alloc_placed tidys keys
  alloc_small event sz s = and_then (from_result (szfix sz) s) (λ nsz s1.
      elim (P.place_small event sz (keys (or_empty (lookup nsz s1.szbix2ap)))
        (tidys (spans s1.bix2state))) [
          | err e ↦ failure e s1
          | ok bbix ↦ alloc_placed event nsz bbix s1
        ])

  -- the branch of a large object, once it is placed
  unfoldable pub alloc_at : E → ℕ → ℕ → Clingy B → Answer (Clingy B) (ℕ × ℕ)
  unfolding mark_allocated set_item
  alloc_at event sz bbix s =
      let bsz = sz2nbucks sz in
      elim (get_item bbix s.bix2state) [
        | err e ↦ failure e s
        | ok p ↦
            if leb (bbix + bsz) (p.0 + p.1)
            then from_outcome (mark_allocated B bbix bsz wait s) (λ s1.
              answer (bix2va bbix, nbucks2sz bsz)
                (publish B (mapd (bix2va bbix) (bix2va bbix + nbucks2sz bsz) 3)
                  (record s1 { bix2szbm = set_item bbix (sz, 0) s1.bix2szbm })))
            else failure assertion_error s
      ]

  unfoldable pub alloc_large : E → ℕ → Clingy B → Answer (Clingy B) (ℕ × ℕ)
  unfolding alloc_at tidys
  alloc_large event sz s = elim (P.place_large event (sz2nbucks sz) (tidys (spans s.bix2state))) [
    | err e ↦ failure e s
    | ok bbix ↦ alloc_at event sz bbix s
  ]

  unfoldable pub alloc : E → ℕ → Clingy B → Answer (Clingy B) (ℕ × ℕ)
  unfolding alloc_small alloc_large
  alloc event sz s = if is_small sz then alloc_small event sz s else alloc_large event sz s
