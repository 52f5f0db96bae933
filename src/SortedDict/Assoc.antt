-- ===== src/SortedDict/Assoc.antt =====
-- A sorted association list meets the interface: the laws of `SortedDict` can hold, and the model
-- runs on it.
use memory_alloc_analysis.Prelude.{ℕ, refl, List, [], length, get_elem?}
use memory_alloc_analysis.SortedDict.Items.{
  lookup, insert, erase, erase_at, bisect_left, bisect_right, between,
}
use memory_alloc_analysis.SortedDict.Defs.{SortedDict, key_of}

abbrev pub assoc : (V : Type 0) → SortedDict V
assoc V = record {
  Dict = List (ℕ × V);
  items = λ d. d;
  empty = [];
  get = λ d k. lookup k d;
  put = λ d k x. insert k x d;
  del = λ d k. erase k d;
  del_at = λ d i. erase_at i d;
  left = λ d k. bisect_left k d;
  right = λ d k. bisect_right k d;
  key_at = λ d i. key_of (get_elem? d i);
  irange = λ d lo hi. between lo hi d;
  len = λ d. length d;
  items-empty = refl;
  get-items = λ d k. refl;
  items-put = λ d k x. refl;
  items-del = λ d k. refl;
  items-del_at = λ d i. refl;
  left-items = λ d k. refl;
  right-items = λ d k. refl;
  key_at-items = λ d i. refl;
  irange-items = λ d lo hi. refl;
  len-items = λ d. refl;
}
