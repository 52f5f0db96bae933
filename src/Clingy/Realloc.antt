-- ===== src/Clingy/Realloc.antt =====
-- The three ways of `_try_realloc`.
use memory_alloc_analysis.Prelude.{
  ℕ, ◌+◌, ◌-◌, Bool, true, false, none, some, if◌then◌else◌, leb, ◌==◌, ok, err, Answer, answer,
  failure, from_outcome, assertion_error, key_error,
}
use memory_alloc_analysis.SortedDict.Items.{lookup}
use memory_alloc_analysis.Renaming.Defs.{mapd}
use memory_alloc_analysis.Clingy.Sizes.{is_small, szfix, va2bix, sz2nbucks, nbucks2sz}
use memory_alloc_analysis.Clingy.States.{wait, is_busy, in_at, BucketMap}
use memory_alloc_analysis.Clingy.Defs.{Clingy, publish, mark_allocated}
use memory_alloc_analysis.Clingy.Alloc.{set_item}

module _ (B : BucketMap) where
  open B use {get_item}

  -- the size of the object at oeva, in a bucket that is in use
  unfoldable pub with_size :
      ℕ → (ℕ → Clingy B → Answer (Clingy B) Bool) → Clingy B → Answer (Clingy B) Bool
  with_size bix next s = elim (lookup bix s.bix2szbm) [
    | none ↦ failure key_error s
    | some b ↦ elim (get_item bix s.bix2state) [
      | err e ↦ failure e s
      | ok span ↦ if is_busy span.2 then next b.0 s else failure assertion_error s
    ]
  ]

  abbrev resize : ℕ → ℕ → Clingy B → Clingy B
  resize bix nsz s = record s { bix2szbm = set_item bix (nsz, 0) s.bix2szbm }

  -- the object grows into the buckets from eix
  unfoldable pub grow_into : {E : Type 0} → E → ℕ → ℕ → ℕ → Clingy B → Answer (Clingy B) Bool
  unfolding mark_allocated set_item
  grow_into event bix osz nsz s =
      from_outcome
        (mark_allocated B (bix + sz2nbucks osz) (sz2nbucks (nsz - osz)) wait (resize bix nsz s))
        (λ s1. answer true (
          publish B (mapd (nbucks2sz (bix + sz2nbucks osz)) (nbucks2sz (bix + sz2nbucks nsz)) 3)
            s1))

  unfoldable pub grow : {E : Type 0} → E → ℕ → ℕ → ℕ → Clingy B → Answer (Clingy B) Bool
  unfolding grow_into
  grow event bix osz nsz s = elim (get_item (bix + sz2nbucks osz) s.bix2state) [
    | err e ↦ failure e s
    | ok next ↦
        if in_at next.2
        then if leb nsz (osz + nbucks2sz next.1)
          then grow_into event bix osz nsz s
          else answer false s
        else answer false s
  ]

  abbrev same_class : ℕ → ℕ → Clingy B → Answer (Clingy B) Bool
  same_class osz nsz s =
      if is_small nsz
      then elim (szfix nsz) [ err e ↦ failure e s | ok n ↦ answer (n == osz) s ]
      else answer false s

  unfoldable pub try_realloc_yes : {E : Type 0} → E → ℕ → ℕ → Clingy B → Answer (Clingy B) Bool
  unfolding with_size grow set_item
  try_realloc_yes event oeva nsz s =
      let bix = va2bix oeva in
      with_size bix
        (λ osz s0.
          if leb nsz osz
          then answer true s0
          else if is_small osz
          then same_class osz nsz s0
          else if leb nsz (nbucks2sz (sz2nbucks osz))
          then answer true (resize bix nsz s0)
          else grow event bix osz nsz s0)
        s

  unfoldable pub try_realloc_onlyshrink :
      {E : Type 0} → E → ℕ → ℕ → Clingy B → Answer (Clingy B) Bool
  unfolding with_size
  try_realloc_onlyshrink event oeva nsz s =
      with_size (va2bix oeva) (λ osz s0. answer (leb nsz osz) s0) s

  unfoldable pub try_realloc_never : {E : Type 0} → E → ℕ → ℕ → Clingy B → Answer (Clingy B) Bool
  try_realloc_never event oeva nsz s = answer false s
