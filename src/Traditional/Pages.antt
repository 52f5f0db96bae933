-- ===== src/Traditional/Pages.antt =====
-- The pages that are mapped, and their number of bytes.
use memory_alloc_analysis.Prelude.{
  ℕ, ◌+◌, ◌-◌, ◌*◌, ◌^◌, ◌≤◌, ◌<◌, ◌≡◌, refl, ◌∙◌, max, min, false, ◌&&◌, ◌==◌, Option, some, List,
  [], ◌∷◌, if◌then◌else◌, leb, ltb, arith, done,
}
use memory_alloc_analysis.IntervalMap.Defs.{Span}
use memory_alloc_analysis.IntervalMap.Slices.{Onward, Run}
use memory_alloc_analysis.IntervalMap.Counts.{count}
use memory_alloc_analysis.IntervalMap.Pieces.{count_piece}
use memory_alloc_analysis.IntervalMap.Interface.{ValueMap, total, total_in, total_out}
use memory_alloc_analysis.Renaming.Defs.{Space}
use memory_alloc_analysis.SegFreeList.Defs.{Dllist}
use memory_alloc_analysis.Traditional.States.{
  SegSt, PageSt, mapd, umap, is_mapd, eva2evp, evp2eva, eva2evp_roundup, npg2nby, pagelog,
}
use memory_alloc_analysis.Traditional.Defs.{Traditional, mark_pages}
use memory_alloc_analysis.Traditional.Alloc.{map_spans, ensure_mapped}
use memory_alloc_analysis.Traditional.Free.{unmap_spans, ensure_unmapped}

module _ (A : ValueMap SegSt) (P : ValueMap PageSt) (L : Dllist (ℕ × ℕ)) (G : Dllist ℕ) where
  -- _nmapped is the number of bytes of the MAPD pages.
  pub record Paged (m : P.Map) (nmapped : ℕ) : Type 0 where
    pub valid : P.IsValid m
    pub bytes : npg2nby (total P is_mapd m) ≡ nmapped

  -- beside the pages, only _nmapped and the events are new
  abbrev pub with_bytes : ℕ → List Space → Traditional A P L G → Traditional A P L G
  with_bytes n es s = record s { nmapped = n; published = es }

  module _ (f : ℕ → Option PageSt) (pbase plim : ℕ) where
    -- the spans from lo on add the bytes of those of their pages that are not MAPD
    abbrev Maps : ℕ → List (Span PageSt) → Traditional A P L G → Type 0
    Maps lo qs s =
        (n : ℕ) × (es : List Space) × (map_spans A P L G pbase plim qs s ≡ with_bytes n es s)
        × (n + npg2nby (count is_mapd f lo (plim - lo)) ≡ s.nmapped + npg2nby (plim - lo))

    map_step :
        (k sz lo : ℕ) (v : PageSt) (qs : List (Span PageSt)) (s : Traditional A P L G)
        → max k pbase ≡ lo
        → k ≤ lo
        → lo < plim
        → lo < k + sz
        → ((x : ℕ) → k ≤ x → x < k + sz → f x ≡ some v)
        → ((s : Traditional A P L G) → Maps (k + sz) qs s)
        → Maps lo ((k, sz, v) ∷ qs) s
    unfolding map_spans
    map_step k sz lo mapd qs s start from some_there until all later =
        let (n, es, is, sum) = later s in
        (
          n,
          es,
          is,
          omega (arith, sum, count_piece is_mapd f k sz lo plim mapd from some_there until all),
        )
    map_step k sz lo umap qs s start from some_there until all later =
        let (n, es, is, sum) = later (
          with_bytes (s.nmapped + npg2nby (min (k + sz) plim - max k pbase))
            (Space.mapd (evp2eva (max k pbase)) (evp2eva (min (k + sz) plim)) 3 ∷ s.published) s) in
        (
          n,
          es,
          is,
          omega (
            arith,
            sum,
            start,
            count_piece is_mapd f k sz lo plim umap from some_there until all,
          ),
        )

    map_later :
        (lo : ℕ) (qs : List (Span PageSt)) (s : Traditional A P L G)
        → pbase ≤ lo
        → Onward f lo plim qs
        → Maps lo qs s
    unfolding map_spans
    map_later lo [] s low run =
        let rest : plim - lo ≡ 0 = omega (arith, run) in
        (s.nmapped, s.published, refl, rw rest (omega arith))
    map_later lo ((k, sz, v) ∷ qs) s low run =
        map_step k sz lo v qs s (omega (arith, run.0, low)) (omega (arith, run.0)) run.1
          (omega (arith, run.0, run.2)) run.3
          (λ s1. map_later (k + sz) qs s1 (omega (arith, run.0, low)) run.4)

    map_run :
        (qs : List (Span PageSt)) (s : Traditional A P L G) → Run f pbase plim qs → Maps pbase qs s
    unfolding map_spans
    map_run [] s run =
        let rest : plim - pbase ≡ 0 = omega (arith, run) in
        (s.nmapped, s.published, refl, rw rest (omega arith))
    map_run ((k, sz, v) ∷ qs) s run =
        map_step k sz pbase v qs s (omega (arith, run.0)) run.0 run.1 run.2 run.3
          (λ s1. map_later (k + sz) qs s1 (omega (arith, run.2)) run.4)

    -- the spans from lo on take off the bytes of those of their pages that are MAPD
    abbrev Unmaps : ℕ → List (Span PageSt) → Traditional A P L G → Type 0
    Unmaps lo qs s =
        npg2nby (count is_mapd f lo (plim - lo)) ≤ s.nmapped
        → (n : ℕ) × (es : List Space) × (unmap_spans A P L G pbase plim qs s ≡ with_bytes n es s)
          × (n + npg2nby (count is_mapd f lo (plim - lo)) ≡ s.nmapped)

    unmap_step :
        (k sz lo : ℕ) (v : PageSt) (qs : List (Span PageSt)) (s : Traditional A P L G)
        → max k pbase ≡ lo
        → k ≤ lo
        → lo < plim
        → lo < k + sz
        → ((x : ℕ) → k ≤ x → x < k + sz → f x ≡ some v)
        → ((s : Traditional A P L G) → Unmaps (k + sz) qs s)
        → Unmaps lo ((k, sz, v) ∷ qs) s
    unfolding unmap_spans
    unmap_step k sz lo umap qs s start from some_there until all later enough =
        let piece = count_piece is_mapd f k sz lo plim umap from some_there until all in
        let (n, es, is, sum) = later s (omega (arith, enough, piece)) in
        (n, es, is, omega (arith, sum, piece))
    unmap_step k sz lo mapd qs s start from some_there until all later enough =
        let piece = count_piece is_mapd f k sz lo plim mapd from some_there until all in
        let (n, es, is, sum) =
          later
            (with_bytes (s.nmapped - npg2nby (min (k + sz) plim - max k pbase))
              (Space.unmapd (evp2eva (max k pbase)) (evp2eva (min (k + sz) plim)) ∷ s.published) s)
            (omega (arith, enough, piece, start)) in
        (n, es, is, omega (arith, sum, start, piece, enough))

    unmap_later :
        (lo : ℕ) (qs : List (Span PageSt)) (s : Traditional A P L G)
        → pbase ≤ lo
        → Onward f lo plim qs
        → Unmaps lo qs s
    unfolding unmap_spans
    unmap_later lo [] s low run enough =
        let rest : plim - lo ≡ 0 = omega (arith, run) in
        (s.nmapped, s.published, refl, rw rest (omega arith))
    unmap_later lo ((k, sz, v) ∷ qs) s low run enough =
        unmap_step k sz lo v qs s (omega (arith, run.0, low)) (omega (arith, run.0)) run.1
          (omega (arith, run.0, run.2)) run.3
          (λ s1. unmap_later (k + sz) qs s1 (omega (arith, run.0, low)) run.4) enough

    unmap_run :
        (qs : List (Span PageSt)) (s : Traditional A P L G)
        → Run f pbase plim qs
        → Unmaps pbase qs s
    unfolding unmap_spans
    unmap_run [] s run enough =
        let rest : plim - pbase ≡ 0 = omega (arith, run) in
        (s.nmapped, s.published, refl, rw rest (omega arith))
    unmap_run ((k, sz, v) ∷ qs) s run enough =
        unmap_step k sz pbase v qs s (omega (arith, run.0)) run.0 run.1 run.2 run.3
          (λ s1. unmap_later (k + sz) qs s1 (omega (arith, run.2)) run.4) enough

  -- What a method on pages does: [from, to) has the new state, and nothing else changes but
  -- _nmapped, which is in agreement, and the events.
  pub record Repaged (s : Traditional A P L G) (from to : ℕ) (v : PageSt) (s' : Traditional A P L G)
      : Type 0 where
    pub pages : P.Map
    pub bytes : ℕ
    pub events : List Space
    pub is : s' ≡ record s { evp2pst = pages; nmapped = bytes; published = events }
    pub paged : Paged pages bytes
    pub changed :
        (x : ℕ) → P.at pages x ≡ (if leb from x && ltb x to then some v else P.at s.evp2pst x)

  module _ (s : Traditional A P L G) (loc sz : ℕ) (paged : Paged s.evp2pst s.nmapped)
      (low : P.base * 2 ^ pagelog ≤ loc) (high : loc + sz ≤ P.limit * 2 ^ pagelog) where
    -- Where _nmapped is the number of bytes of the MAPD pages, _ensure_mapped returns for a range
    -- that is not empty and lies on pages of the map: exactly the pages that the range touches are
    -- MAPD then and _nmapped agrees again, and nothing else has changed but the events.
    pub ensure_mapped-Repaged :
        0 < sz
        → (s' : Traditional A P L G) × (ensure_mapped A P L G loc sz s ≡ done s')
          × Repaged s (eva2evp loc) (eva2evp (loc + sz - 1) + 1) mapd s'
    unfolding ensure_mapped mark_pages
    ensure_mapped-Repaged pos =
        let pbase = eva2evp loc in
        let plim = eva2evp (loc + sz - 1) + 1 in
        let above : P.base ≤ pbase = omega (arith, low) in
        let below : plim ≤ P.limit = omega (arith, high) in
        let some_there : pbase < plim = omega arith in
        let (qs, slice, run) =
          P.get_slice-at s.evp2pst pbase plim paged.valid above some_there below in
        let (n, es, is, sum) = map_run (P.at s.evp2pst) pbase plim qs s run in
        let end : pbase + (plim - pbase) ≡ plim = omega (arith, some_there) in
        let (m', marked, valid, changed) =
          P.mark-at s.evp2pst pbase (plim - pbase) mapd paged.valid above
            (omega (arith, some_there)) (omega (arith, end, below)) in
        (
          record s { evp2pst = m'; nmapped = n; published = es },
          rw (ensure_mapped, slice, is, mark_pages, marked) refl,
          record {
            pages = m';
            bytes = n;
            events = es;
            is = refl;
            paged = record {
              valid = valid;
              bytes = omega (
                arith,
                paged.bytes,
                sum,
                total_in P s.evp2pst m' mapd pbase (plim - pbase) above (omega (arith, end, below))
                    changed is_mapd refl,
              );
            };
            changed = λ x. changed x ∙ rw end refl;
          },
        )

    -- Of a span of more than 16 pages on the map, _ensure_unmapped returns with exactly the pages
    -- UMAP, besides those that were, that lie whole in the span, the last of them perhaps not, and
    -- with _nmapped in agreement; nothing else has changed but the events.
    pub ensure_unmapped-Repaged :
        16 * 2 ^ pagelog < sz
        → (s' : Traditional A P L G) × (ensure_unmapped A P L G loc sz s ≡ done s')
          × Repaged s (eva2evp_roundup loc) (eva2evp (loc + sz - 1)) umap s'
          × (loc ≤ evp2eva (eva2evp_roundup loc))
          × (evp2eva (eva2evp_roundup loc) < loc + 2 ^ pagelog)
          × (evp2eva (eva2evp (loc + sz - 1)) ≤ loc + sz)
          × (loc + sz ≤ evp2eva (eva2evp (loc + sz - 1)) + 2 ^ pagelog)
    unfolding ensure_unmapped mark_pages
    ensure_unmapped-Repaged large =
        let pbase = eva2evp_roundup loc in
        let plim = eva2evp (loc + sz - 1) in
        let above : P.base ≤ pbase = omega (arith, low) in
        let below : plim ≤ P.limit = omega (arith, high) in
        let some_there : pbase < plim = omega (arith, large) in
        let (qs, slice, run) =
          P.get_slice-at s.evp2pst pbase plim paged.valid above some_there below in
        let end : pbase + (plim - pbase) ≡ plim = omega (arith, some_there) in
        let (m', marked, valid, changed) =
          P.mark-at s.evp2pst pbase (plim - pbase) umap paged.valid above
            (omega (arith, some_there)) (omega (arith, end, below)) in
        let fewer =
          total_out P s.evp2pst m' umap pbase (plim - pbase) above (omega (arith, end, below))
            changed is_mapd refl in
        let (n, es, is, sum) =
          unmap_run (P.at s.evp2pst) pbase plim qs s run (omega (arith, paged.bytes, fewer)) in
        let other : (pbase == plim) ≡ false = ground (arith, some_there) in
        (
          record s { evp2pst = m'; nmapped = n; published = es },
          rw (ensure_unmapped, other, slice, is, mark_pages, marked) refl,
          record {
            pages = m';
            bytes = n;
            events = es;
            is = refl;
            paged = record { valid = valid; bytes = omega (arith, paged.bytes, sum, fewer) };
            changed = λ x. changed x ∙ rw end refl;
          },
          omega arith,
          omega arith,
          omega arith,
          omega (arith, large),
        )
