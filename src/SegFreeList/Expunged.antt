-- ===== src/SegFreeList/Expunged.antt =====
-- What `expunge` leaves, where it splits no span.
use memory_alloc_analysis.Prelude.{
  ℕ, ◌+◌, ◌≤◌, ◌<◌, ◌≡◌, ◌↔◌, ◌⊎◌, refl, Bool, true, false, ◌&&◌, Option, none, some, List, [], ◌∷◌,
  leb, ◌==◌, if◌then◌else◌, ok, answer, arith, sym, ap, ◌∙◌, inl, inr, Bool-cases,
}
use memory_alloc_analysis.SortedDict.Items.{lookup}
use memory_alloc_analysis.SegFreeList.Dict.{keys, least}
use memory_alloc_analysis.SegFreeList.Defs.{Dllist, FreeList, SegNode, span_of, unlink, minva}
use memory_alloc_analysis.SegFreeList.Spans.{size_at, size_of, Covers, Valid}
use memory_alloc_analysis.SegFreeList.Expunge.{
  delete_all, in_range, end_in_range, collect_ends, collect, unlink_all, forget_all, expunge_common,
  expunge_intcoal,
}
use memory_alloc_analysis.SegFreeList.Ranges.{member, keys-present, cleared, collect_ends-ok}

module _ (L : Dllist (ℕ × ℕ)) (G : Dllist ℕ) where
  abbrev Entry : Type 0
  Entry = SegNode L G × G.Node

  module _ (base sz : ℕ) where
    -- the assertions of the loop at an entry
    abbrev Fine : ℕ → Entry → Type 0
    Fine k n = ((span_of L G n).0 == k && leb (k + (span_of L G n).1) (base + sz)) ≡ true

    collect-ok :
        (adns : List (ℕ × Entry)) (l : List ℕ)
        → ((k : ℕ) → member k l ≡ true → (n : Entry) × (lookup k adns ≡ some n))
        → ((k : ℕ) (n : Entry) → in_range base sz k ≡ true → lookup k adns ≡ some n → Fine k n)
        → (r : List (ℕ × Entry)) × (collect L G base sz adns l ≡ ok r)
          × ((j : ℕ) → member j (keys r) ≡ (in_range base sz j && member j l))
    unfolding collect
    collect-ok adns [] h g = ([], refl, λ j. ground arith)
    collect-ok adns (k ∷ l) h g =
        let (r, is, m) = collect-ok adns l (λ j i. h j (ground arith)) g in
        elim (Bool-cases (in_range base sz k)) [
          | inl yes_ ↦
              let (n, there) = h k (ground arith) in
              (
                (k, n) ∷ r,
                rw (collect, yes_, there, g k n yes_ there, is) refl,
                λ j. ground (arith, m j),
              )
          | inr no_ ↦ (r, rw (collect, no_) is, λ j. ground (arith, m j))
        ]

    -- the state without the spans of the range
    record Cleared (m m' : FreeList L G) : Type 0 where
      sizes : (j : ℕ) → size_at L G m' j ≡ (if in_range base sz j then none else size_at L G m j)
      ends : (j : ℕ) → lookup j m'.acod ≡ (if end_in_range base sz j then none else lookup j m.acod)

    -- no span crosses a bound of the range
    abbrev pub Whole : FreeList L G → Type 0
    Whole m =
        (a s : ℕ)
        → size_at L G m a ≡ some s
        → (a + s ≤ base) ⊎ ((base + sz ≤ a) ⊎ ((base ≤ a) × (a + s ≤ base + sz)))

    found_if :
        {A : Type 0} (b : Bool) (o : Option A) (x : A)
        → (if b then none else o) ≡ some x
        → (b ≡ false) × (o ≡ some x)
    found_if true o x h = absurd (ground arith)
    found_if false o x h = (refl, h)

    Cleared-Valid : (m m' : FreeList L G) → Valid L G m → Whole m → Cleared m m' → Valid L G m'
    Cleared-Valid m m' V W R = record {
      sized = λ a s e.
          let (out, e') = found_if (in_range base sz a) (size_at L G m a) s (sym (R.sizes a) ∙ e) in
          let (pos, end) = V.sized a s e' in
          let out' : end_in_range base sz (a + s) ≡ false = ground (arith, W a s e', pos, out) in
          (pos, R.ends (a + s) ∙ rw out' end);
      ended = λ e a i.
          let (out, i') =
            found_if (end_in_range base sz e) (lookup e m.acod) a (sym (R.ends e) ∙ i) in
          let (s, f, g) = V.ended e a i' in
          let out' : in_range base sz a ≡ false =
            ground (arith, W a s f, (V.sized a s f).0, out, g) in
          (s, R.sizes a ∙ rw out' f, g);
      apart = λ a s b t e f lt.
          V.apart a s b t
            (found_if (in_range base sz a) (size_at L G m a) s (sym (R.sizes a) ∙ e)).1
            (found_if (in_range base sz b) (size_at L G m b) t (sym (R.sizes b) ∙ f)).1 lt;
    }

    Cleared-Covers :
        (m m' : FreeList L G)
        → Valid L G m
        → Whole m
        → Cleared m m'
        → (x : ℕ) → Covers L G m' x ↔ ((x < base) ⊎ (base + sz ≤ x)) × Covers L G m x
    Cleared-Covers m m' V W R x = (
      λ (a, s, e, lo, hi).
          let (out, e') = found_if (in_range base sz a) (size_at L G m a) s (sym (R.sizes a) ∙ e) in
          (ground (arith, W a s e', out), (a, s, e', lo, hi)),
      λ (off, (a, s, e, lo, hi)).
          let out : in_range base sz a ≡ false = ground (arith, W a s e) in
          (a, s, R.sizes a ∙ rw out e, lo, hi),
    )

  unlink_all-same :
      (l : List (ℕ × Entry)) (m : FreeList L G)
      → ((unlink_all L G l m).adns ≡ m.adns) × ((unlink_all L G l m).acod ≡ m.acod)
  unlink_all-same [] m = (refl, refl)
  unlink_all-same ((va, n) ∷ l) m = unlink_all-same l (unlink L G n.0 n.1 m)

  size_of-if :
      (b : Bool) (o : Option Entry)
      → size_of L G (if b then none else o) ≡ (if b then none else size_of L G o)
  size_of-if true o = refl
  size_of-if false o = refl

  -- a node has the address that it stands under
  abbrev pub Named : FreeList L G → Type 0
  Named m = (k : ℕ) (n : Entry) → lookup k m.adns ≡ some n → (span_of L G n).0 ≡ k

  -- the state after both loops, with what they collected
  abbrev left_by : List ℕ → List (ℕ × Entry) → FreeList L G → FreeList L G
  left_by r r' m =
      forget_all L G (keys r') (unlink_all L G r' (record m { acod = delete_all r m.acod }))

  module _ (m : FreeList L G) (base sz : ℕ) (r : List ℕ) (r' : List (ℕ × Entry))
      (mem : (j : ℕ) → member j r ≡ (end_in_range base sz j && member j (keys m.acod)))
      (mem' : (j : ℕ) → member j (keys r') ≡ (in_range base sz j && member j (keys m.adns))) where
    left_by-eq :
        collect_ends base sz m.acod (keys m.acod) ≡ ok r
        → collect L G base sz m.adns (keys m.adns) ≡ ok r'
        → expunge_intcoal L G base sz m ≡ answer tt (left_by r r' m)
    unfolding expunge_intcoal expunge_common
    left_by-eq is is' = rw (expunge_intcoal, is, expunge_common, is') refl

    entries :
        (j : ℕ)
        → lookup j (left_by r r' m).adns ≡ (if in_range base sz j then none else lookup j m.adns)
    entries j =
        ap (λ d. lookup j (delete_all (keys r') d))
          (unlink_all-same r' (record m { acod = delete_all r m.acod })).0
        ∙ cleared j (in_range base sz j) (keys r') m.adns (mem' j)

    left_by-Cleared : Cleared base sz m (left_by r r' m)
    left_by-Cleared = record {
      sizes = λ j. ap (size_of L G) (entries j) ∙ size_of-if (in_range base sz j) (lookup j m.adns);
      ends = λ j.
          ap (lookup j) (unlink_all-same r' (record m { acod = delete_all r m.acod })).1
          ∙ cleared j (end_in_range base sz j) r m.acod (mem j);
    }

    left_by-Named : Named m → Named (left_by r r' m)
    left_by-Named N k n h =
        N k n (found_if base sz (in_range base sz k) (lookup k m.adns) n (sym (entries k) ∙ h)).1

  -- `expunge` of a range whose bounds cross no span returns, keeps the free list valid, leaves
  -- exactly the free addresses outside the range, and `minva` is the least address that is left.
  pub expunge_intcoal-Covers :
      (m : FreeList L G)
      → Valid L G m
      → Named m
      → (base sz : ℕ) → Whole base sz m
      → (m' : FreeList L G) × (expunge_intcoal L G base sz m ≡ answer tt m')
        × Valid L G m'
        × Named m'
        × ((x : ℕ) → Covers L G m' x ↔ ((x < base) ⊎ (base + sz ≤ x)) × Covers L G m x)
        × (minva L G m' ≡ least (keys m'.adns))
  unfolding minva
  expunge_intcoal-Covers m V N base sz W =
      let (r, is, mem) =
        collect_ends-ok base sz m.acod (keys m.acod) (λ k h. keys-present k m.acod h)
          (λ k x yes_ there.
            let (s, f, g) = V.ended k x there in
            ground (arith, W x s f, (V.sized x s f).0, g, yes_)) in
      let (r', is', mem') =
        collect-ok base sz m.adns (keys m.adns) (λ k h. keys-present k m.adns h)
          (λ k n yes_ there.
            let f : size_at L G m k ≡ some (span_of L G n).1 = rw there refl in
            ground (
              arith,
              W k (span_of L G n).1 f,
              (V.sized k (span_of L G n).1 f).0,
              N k n there,
              yes_,
            )) in
      let R = left_by-Cleared m base sz r r' mem mem' in
      (
        left_by r r' m,
        left_by-eq m base sz r r' mem mem' is is',
        Cleared-Valid base sz m (left_by r r' m) V W R,
        left_by-Named m base sz r r' mem mem' N,
        Cleared-Covers base sz m (left_by r r' m) V W R,
        refl,
      )
