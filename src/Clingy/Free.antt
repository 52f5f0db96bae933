-- ===== src/Clingy/Free.antt =====
-- `_free`.
use memory_alloc_analysis.Prelude.{
  ℕ, ◌+◌, ◌-◌, ◌/◌, ◌%◌, ◌^◌, Bool, true, false, not, ◌&&◌, none, some, List, if◌then◌else◌, leb,
  ltb, ◌==◌, ok, err, Outcome, done, raised, and_run, assertion_error, key_error, name_error,
}
use memory_alloc_analysis.SortedDict.Items.{lookup}
use memory_alloc_analysis.IntervalMap.Defs.{Span}
use memory_alloc_analysis.Renaming.Defs.{unmapd}
use memory_alloc_analysis.Clingy.Sizes.{is_small, maxoix, bix2va, va2bix, sz2nbucks}
use memory_alloc_analysis.Clingy.States.{BuckSt, ahwm, tidy, bump, wait, junk, is_busy, BucketMap}
use memory_alloc_analysis.Clingy.Defs.{Clingy, publish, reading, mark_junk, mark_tidy}
use memory_alloc_analysis.Clingy.Alloc.{Policy, set_item, has_bit, or_empty}

abbrev pub is_wait : BuckSt → Bool
is_wait wait = true
is_wait ahwm = false
is_wait tidy = false
is_wait bump = false
is_wait junk = false

abbrev pub is_bump : BuckSt → Bool
is_bump bump = true
is_bump ahwm = false
is_bump tidy = false
is_bump wait = false
is_bump junk = false

module _ (B : BucketMap) {E : Type 0} (P : Policy E) where
  open B use {get_item}

  unfoldable pub free_bix : ℕ → ℕ → Clingy B → Outcome (Clingy B)
  unfolding mark_junk mark_tidy
  free_bix bix bsz s = elim (P.on_bucket_free bix bsz) [
    | some true ↦ mark_junk B bix bsz s
    | some false ↦ mark_tidy B bix bsz 0 s
    | none ↦ done s
  ]

  abbrev pub has_key : {A : Type 0} → ℕ → List (ℕ × A) → Bool
  has_key k d = elim (lookup k d) [ none ↦ false | some a ↦ true ]

  -- an object in a BUMP bucket lies below the bucket's pointer
  unfoldable pub check_bump : ℕ → ℕ → ℕ → Clingy B → Outcome (Clingy B)
  check_bump sz bix bitix s = elim (lookup sz s.szbix2ap) [
    | none ↦ raised key_error s
    | some bbs ↦ elim (lookup bix bbs) [
      | none ↦ raised name_error s
      | some bbap ↦ if ltb bitix bbap then done s else raised assertion_error s
    ]
  ]

  -- the bitmap bbm with the freed object's bit
  unfoldable pub free_bit : E → ℕ → ℕ → ℕ → BuckSt → ℕ → Clingy B → Outcome (Clingy B)
  unfolding free_bix set_item
  free_bit event bix sz bbm spanst most s =
      if bbm == 2 ^ most - 1
      then if not (has_key bix (or_empty (lookup sz s.szbix2ap))) && is_wait spanst
        then and_run (free_bix bix 1 s)
            (λ s1. done (publish B (unmapd (bix2va bix) (bix2va (bix + 1))) s1))
        else raised assertion_error s
      else done (record s { bix2szbm = set_item bix (sz, bbm) s.bix2szbm })

  unfoldable pub free_small : E → ℕ → ℕ → ℕ → ℕ → BuckSt → Clingy B → Outcome (Clingy B)
  unfolding check_bump free_bit
  free_small event eva bix sz bbm spanst s =
      let boff = eva - bix2va bix in
      let bitix = boff / sz in
      if boff % sz == 0 && not (has_bit bbm bitix)
      then and_run (if is_bump spanst then check_bump sz bix bitix s else done s) (λ s1.
        elim (maxoix sz) [
          | err e ↦ raised e s1
          | ok most ↦ free_bit event bix sz (bbm + 2 ^ bitix) spanst most s1
        ])
      else raised assertion_error s

  unfoldable pub free_large : E → ℕ → ℕ → Span BuckSt → Clingy B → Outcome (Clingy B)
  unfolding free_bix
  free_large event bix sz span s =
      let bsz = sz2nbucks sz in
      if is_wait span.2 && (leb span.0 bix && leb (bix + bsz) (span.0 + span.1))
      then and_run (free_bix bix bsz s)
          (λ s1. done (publish B (unmapd (bix2va bix) (bix2va (bix + bsz))) s1))
      else raised assertion_error s

  unfoldable pub free : E → ℕ → Clingy B → Outcome (Clingy B)
  unfolding free_small free_large
  free event eva s =
      let bix = va2bix eva in
      elim (lookup bix s.bix2szbm) [
        | none ↦ raised key_error s
        | some b ↦
            reading B (get_item bix s.bix2state)
              (λ span s0.
                if is_busy span.2
                then if is_small b.0
                  then free_small event eva bix b.0 b.1 span.2 s0
                  else free_large event bix b.0 span s0
                else raised assertion_error s0)
              s
      ]
