-- ===== src/SortedDict/Defs.antt =====
-- The interface of sortedcontainers.SortedDict.
use memory_alloc_analysis.Prelude.{ℕ, ◌≡◌, Option, none, some, List, [], length, get_elem?}
use memory_alloc_analysis.SortedDict.Items.{
  lookup, insert, erase, erase_at, bisect_left, bisect_right, between,
}

abbrev pub key_of : {V : Type 0} → Option (ℕ × V) → Option ℕ
key_of none = none
key_of (some (k, x)) = some k

pub record SortedDict (V : Type 0) : Type 1 where
  pub Dict : Type 0
  -- list(d.items())
  pub items : Dict → List (ℕ × V)
  -- SortedDict()
  pub empty : Dict
  -- d.get(k), and d[k] with `none` for a KeyError
  pub get : Dict → ℕ → Option V
  -- d[k] = x
  pub put : Dict → ℕ → V → Dict
  -- del d[k], for a key that is there
  pub del : Dict → ℕ → Dict
  -- del d.iloc[i], for an index in range
  pub del_at : Dict → ℕ → Dict
  -- d.bisect_left(k)
  pub left : Dict → ℕ → ℕ
  -- d.bisect_right(k)
  pub right : Dict → ℕ → ℕ
  -- d.iloc[i], `none` for an IndexError
  pub key_at : Dict → ℕ → Option ℕ
  -- d.irange(lo, hi, inclusive=(False, False))
  pub irange : Dict → ℕ → ℕ → List ℕ
  -- len(d)
  pub len : Dict → ℕ
  pub items-empty : items empty ≡ []
  pub get-items : (d : Dict) (k : ℕ) → get d k ≡ lookup k (items d)
  pub items-put : (d : Dict) (k : ℕ) (x : V) → items (put d k x) ≡ insert k x (items d)
  pub items-del : (d : Dict) (k : ℕ) → items (del d k) ≡ erase k (items d)
  pub items-del_at : (d : Dict) (i : ℕ) → items (del_at d i) ≡ erase_at i (items d)
  pub left-items : (d : Dict) (k : ℕ) → left d k ≡ bisect_left k (items d)
  pub right-items : (d : Dict) (k : ℕ) → right d k ≡ bisect_right k (items d)
  pub key_at-items : (d : Dict) (i : ℕ) → key_at d i ≡ key_of (get_elem? (items d) i)
  pub irange-items : (d : Dict) (lo hi : ℕ) → irange d lo hi ≡ between lo hi (items d)
  pub len-items : (d : Dict) → len d ≡ length (items d)
