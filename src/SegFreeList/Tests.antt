-- ===== src/SegFreeList/Tests.antt =====
-- The theorems at a small free list.
use memory_alloc_analysis.Prelude.{
  ℕ, ◌+◌, ◌≤◌, ◌<◌, ◌≡◌, ◌↔◌, ◌⊎◌, refl, false, none, some, [], ◌∷◌, answer, arith,
}
use memory_alloc_analysis.SegFreeList.Dict.{keys, least}
use memory_alloc_analysis.SegFreeList.Defs.{
  Dllist, FreeList, insert_intcoal, remove_intcoal, remove_common, minva, segix, iterfor,
  remove_core, insert_core,
}
use memory_alloc_analysis.SegFreeList.Numbered.{dllist}
use memory_alloc_analysis.SegFreeList.Search.{fitting, all_spans, iterfor-fitting}
use memory_alloc_analysis.SegFreeList.Spans.{size_at, Covers, Valid}
use memory_alloc_analysis.SegFreeList.Insert.{insert_intcoal-Grown}
use memory_alloc_analysis.SegFreeList.Classes.{Sorted}
use memory_alloc_analysis.SegFreeList.Linked.{Linked, insert_intcoal-Linked}
use memory_alloc_analysis.SegFreeList.Expunge.{expunge_intcoal}
use memory_alloc_analysis.SegFreeList.Expunged.{Named, expunge_intcoal-Covers}
use memory_alloc_analysis.SegFreeList.Extern.{insert_extcoal}
use memory_alloc_analysis.SegFreeList.Remove.{remove_intcoal-Covers, remove_common_stale}

abbrev Spans : Dllist (ℕ × ℕ)
Spans = dllist (ℕ × ℕ)

abbrev Order : Dllist ℕ
Order = dllist ℕ

-- [4096, 4112) and [4128, 4144) are free
abbrev two_spans : FreeList Spans Order
two_spans = record {
  segs =
      (2, (0, (4096, 16)) ∷ (1, (4128, 16)) ∷ [])
      ∷ (0, [])
      ∷ (0, [])
      ∷ (0, [])
      ∷ (0, [])
      ∷ (0, [])
      ∷ (0, [])
      ∷ [];
  glru = (2, (0, 4096) ∷ (1, 4128) ∷ []);
  adns =
      (4128, (record { list = 0; node = (1, (4128, 16)) }, (1, 4128)))
      ∷ (4096, (record { list = 0; node = (0, (4096, 16)) }, (0, 4096)))
      ∷ [];
  minv = some 4096;
  acod = (4144, 4128) ∷ (4112, 4096) ∷ [];
}

two_spans-Valid : Valid Spans Order two_spans
two_spans-Valid = record {
  sized = λ va sz e. ground arith;
  ended = λ e va i. (16, ground arith, ground arith);
  apart = λ a s b t e f lt. ground arith;
}

two_spans-Sorted : Sorted Spans Order two_spans
unfolding segix
two_spans-Sorted = ((refl, (refl, tt)), (tt, (tt, (tt, (tt, (tt, (tt, tt)))))))

-- [4112, 4128) joins the two spans
insert_intcoal-Grown_example :
    (m' : FreeList Spans Order) × (insert_intcoal Spans Order 4112 16 false two_spans
      ≡ answer tt m')
    × Valid Spans Order m'
    × ((x : ℕ)
        → Covers Spans Order m' x ↔ ((4112 ≤ x) × (x < 4112 + 16)) ⊎ Covers Spans Order two_spans x)
insert_intcoal-Grown_example =
    insert_intcoal-Grown Spans Order two_spans two_spans-Valid 4112 16 false (omega arith)
      (λ b t e. ground arith)

insert_intcoal-Linked_example :
    (m' : FreeList Spans Order) × (insert_intcoal Spans Order 4112 16 false two_spans
      ≡ answer tt m')
    × Sorted Spans Order m'
    × Linked Spans Order m' 4112 16
insert_intcoal-Linked_example =
    insert_intcoal-Linked Spans Order two_spans 4112 16 false two_spans-Valid refl two_spans-Sorted

remove_intcoal-Covers_example :
    (m' : FreeList Spans Order) × (remove_intcoal Spans Order 4128 two_spans ≡ answer 16 m')
    × Valid Spans Order m'
    × (size_at Spans Order m' 4128 ≡ none)
    × ((x : ℕ)
        → Covers Spans Order two_spans x ↔ ((4128 ≤ x) × (x < 4128 + 16)) ⊎ Covers Spans Order m' x)
remove_intcoal-Covers_example =
    remove_intcoal-Covers Spans Order two_spans two_spans-Valid 4128 16 refl

remove_common_stale_example :
    (m' : FreeList Spans Order) × (remove_common Spans Order 4096 two_spans ≡ answer 16 m')
    × (minva Spans Order m' ≡ some 4096)
    × (size_at Spans Order m' 4096 ≡ none)
remove_common_stale_example = remove_common_stale Spans Order two_spans 4096 16 refl refl refl

iterfor-fitting_example :
    iterfor Spans Order two_spans 16 16
    ≡ fitting 16 (16 + 16) (all_spans Spans Order two_spans.segs)
iterfor-fitting_example = iterfor-fitting Spans Order two_spans 16 16 two_spans-Sorted

two_spans-Named : Named Spans Order two_spans
two_spans-Named = λ k n h. ground arith

expunge_intcoal-Covers_example :
    (m' : FreeList Spans Order) × (expunge_intcoal Spans Order 4120 64 two_spans ≡ answer tt m')
    × Valid Spans Order m'
    × Named Spans Order m'
    × ((x : ℕ)
        → Covers Spans Order m' x ↔ ((x < 4120) ⊎ (4120 + 64 ≤ x)) × Covers Spans Order two_spans x)
    × (minva Spans Order m' ≡ least (keys m'.adns))
expunge_intcoal-Covers_example =
    expunge_intcoal-Covers Spans Order two_spans two_spans-Valid two_spans-Named 4120 64
      (λ a s e. ground arith)

-- the caller knows that [4096, 4144) is one span
insert_extcoal_joins :
    insert_extcoal Spans Order (λ va. (4096, 48)) 4112 16 false two_spans
    ≡ answer tt (record {
      segs =
          (2, [])
          ∷ (1, (0, (4096, 48)) ∷ [])
          ∷ (0, [])
          ∷ (0, [])
          ∷ (0, [])
          ∷ (0, [])
          ∷ (0, [])
          ∷ [];
      glru = (3, (2, 4096) ∷ []);
      adns = (4096, (record { list = 1; node = (0, (4096, 48)) }, (2, 4096))) ∷ [];
      minv = some 4096;
      acod = (4144, 4128) ∷ (4112, 4096) ∷ [];
    })
unfolding insert_extcoal remove_common remove_core insert_core segix
insert_extcoal_joins = refl
