-- ===== src/IntervalMap/Defs.antt =====
-- The state of an `IntervalMap`, its constructor and its readers.
use memory_alloc_analysis.Prelude.{
  ℕ, zero, suc, ◌+◌, ◌-◌, Bool, true, false, ◌&&◌, Option, none, some, List, [], ◌∷◌, leb, ltb,
  if◌then◌else◌, value_error, key_error, index_error, Result, ok, err,
}
use memory_alloc_analysis.SortedDict.{SortedDict}

-- (sz, v), what the dictionary holds at the base of a span
abbrev pub Cell : Type 0 → Type 0
Cell V = ℕ × V

-- (base, sz, v)
abbrev pub Span : Type 0 → Type 0
Span V = ℕ × ℕ × V

-- an integer, for a location that may be negative
pub data ℤ : Type 0 where
  pos : ℕ → ℤ
  negsuc : ℕ → ℤ

-- b <= x and x < l
abbrev pub at_or_above : ℕ → ℤ → Bool
at_or_above b (pos x) = leb b x
at_or_above b (negsuc k) = false

abbrev pub is_below : ℕ → ℤ → Bool
is_below l (pos x) = ltb x l
is_below l (negsuc k) = true

-- a call of the value change callback: vcc(vold, vnew, loc, sz)
pub record Change (V : Type 0) : Type 0 where
  pub old : V
  pub new : V
  pub at : ℕ
  pub size : ℕ

module _ {V : Type 0} (S : SortedDict (Cell V)) where
  open S use {Dict, empty, get, put, right, key_at, irange, len}

  -- `changes` holds the calls of `self.vcc`, the latest first.
  pub record IntervalMap : Type 0 where
    pub d : Dict
    pub base : ℕ
    pub sz : ℕ
    pub v : V
    pub coalescing : Bool
    pub changes : List (Change V)

  unfoldable pub init : ℕ → ℕ → V → Bool → IntervalMap
  init base sz v coalescing = record {
    d = put empty base (sz, v);
    base = base;
    sz = sz;
    v = v;
    coalescing = coalescing;
    changes = [];
  }

  abbrev pub inside : IntervalMap → ℕ → Bool
  inside m loc = leb m.base loc && ltb loc (m.base + m.sz)

  -- d.iloc[n - 1], where the index -1 is the last key
  unfoldable pub key_before : Dict → ℕ → Option ℕ
  key_before d zero = key_at d (len d - 1)
  key_before d (suc n) = key_at d n

  abbrev pub with_key : {A : Type 0} → Option ℕ → (ℕ → Result A) → Result A
  with_key none f = err index_error
  with_key (some k) f = f k

  abbrev pub with_cell : {A : Type 0} → Option (Cell V) → (Cell V → Result A) → Result A
  with_cell none f = err key_error
  with_cell (some c) f = f c

  -- (base, *d[base])
  unfoldable pub span_at : Dict → ℕ → Result (Span V)
  span_at d base = with_cell (get d base) (λ c. ok (base, c.0, c.1))

  -- __getitem__ at a number
  unfoldable pub get_item : IntervalMap → ℕ → Result (Span V)
  unfolding key_before span_at
  get_item m loc =
      if inside m loc
      then with_key (key_before m.d (right m.d loc)) (λ base. span_at m.d base)
      else err value_error

  abbrev cons_result : Result (Span V) → Result (List (Span V)) → Result (List (Span V))
  cons_result (ok x) (ok xs) = ok (x ∷ xs)
  cons_result (ok x) (err e) = err e
  cons_result (err e) r = err e

  -- ((base, *d[base]) for base in keys)
  unfoldable pub spans_at : Dict → List ℕ → Result (List (Span V))
  unfolding span_at
  spans_at d [] = ok []
  spans_at d (k ∷ ks) = cons_result (span_at d k) (spans_at d ks)

  -- the handler of the slice branch: `except ValueError: ret = []`
  abbrev first_span : Result (Span V) → Result (List (Span V)) → Result (List (Span V))
  first_span (err value_error) rest = rest
  first_span (ok x) rest = cons_result (ok x) rest
  first_span (err e) rest = err e

  or_else : Option ℕ → ℕ → ℕ
  or_else none d = d
  or_else (some n) d = n

  -- __getitem__ at a slice, of a map without _ival_type, where the decorator hands on the list; an
  -- end that is left out is the map's own
  unfoldable pub get_slice : IntervalMap → Option ℕ → Option ℕ → Result (List (Span V))
  unfolding get_item spans_at or_else
  get_slice m start stop =
      let lo = or_else start m.base in
      let hi = or_else stop (m.base + m.sz) in
      first_span (get_item m lo) (spans_at m.d (irange m.d lo hi))
