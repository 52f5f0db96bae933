-- ===== src/IntervalMap/Widen.antt =====
-- What `get` with a set of values to coalesce returns, on a valid map.
use memory_alloc_analysis.Prelude.{
  ℕ, zero, suc, ◌+◌, ◌-◌, ◌≤◌, ◌<◌, ◌≡◌, refl, ap, ◌∙◌, ◌⊎◌, inl, inr, Bool, true, false, not, ◌&&◌,
  ◌||◌, Option, none, some, List, [], ◌∷◌, ltb, if◌then◌else◌, Result, ok, err, value_error, arith,
  Bool-cases,
}
use memory_alloc_analysis.SortedDict.{SortedDict}
use memory_alloc_analysis.IntervalMap.Defs.{Cell, Span, IntervalMap, inside, get_item}
use memory_alloc_analysis.IntervalMap.Get.{
  get, is_one, Reach, widen, widen_left, widen_right, fall_back, item_before, widened, restart,
}
use memory_alloc_analysis.IntervalMap.Refines.{IsValid, value, get_item-value, value_inside}

-- the value is one to coalesce with
abbrev pub takes : {V : Type 0} → (V → Bool) → Option V → Bool
takes coalesced none = false
takes coalesced (some v) = coalesced v

if_wanted : {A : Type 0} (b c : Bool) (x y : A) → b ≡ true → (if b || c then x else y) ≡ x
if_wanted true c x y h = refl
if_wanted false c x y h = cc h

if_refused :
    {A : Type 0} (b c : Bool) (x y : A) → c ≡ false → ok (if not b && c then y else x) ≡ ok x
if_refused true c x y h = refl
if_refused false true x y h = cc h
if_refused false false x y h = refl

module _ {V : Type 0} (S : SortedDict (Cell V)) (dec : Discrete V) (m : IntervalMap S)
    (valid : IsValid S m) (coalesced allowed : V → Bool)
    (none_beyond : (w : V) → allowed w ≡ false) where
  off_map : (x : ℕ) → x < m.base ⊎ m.base + m.sz ≤ x → get_item S m x ≡ err value_error
  unfolding get_item
  off_map x h = let out : inside S m x ≡ false = ground (arith, h) in rw (get_item, out) refl

  before_map : (b : ℕ) → b ≤ m.base → item_before S dec m b ≡ err value_error
  before_map zero h = refl
  before_map (suc b) h = off_map b (inl (omega arith))

  before_pos : (b : ℕ) → 0 < b → item_before S dec m b ≡ get_item S m (b - 1)
  before_pos zero h = absurd (omega (arith, h))
  before_pos (suc b) h = ap (get_item S m) (omega arith)

  -- the run from b goes on no further to the left, that up to e no further to the right
  abbrev pub StopsLeft : ℕ → Type 0
  StopsLeft b = (b ≡ m.base) ⊎ (takes coalesced (value S m (b - 1)) ≡ false)

  abbrev pub StopsRight : ℕ → Type 0
  StopsRight e = (e ≡ m.base + m.sz) ⊎ (takes coalesced (value S m e) ≡ false)

  abbrev pub Taken : ℕ → ℕ → Type 0
  Taken lo hi = (x : ℕ) → lo ≤ x → x < hi → takes coalesced (value S m x) ≡ true

  abbrev ReachesLeft : Result (Reach S dec) → Reach S dec → Type 0
  ReachesLeft o r =
      (r' : Reach S dec) × (o ≡ ok r')
      × (m.base ≤ r'.base)
      × (r'.base ≤ r.base)
      × (r'.base + r'.sz ≡ r.base + r.sz)
      × Taken r'.base r.base
      × StopsLeft r'.base

  -- one round of a loop
  left_round :
      (fuel k s : ℕ) (w : V) (r : Reach S dec)
      → item_before S dec m r.base ≡ ok (k, s, w)
      → coalesced w ≡ true
      → widen_left S dec m coalesced allowed (suc fuel) r
        ≡ widen_left S dec m coalesced allowed fuel
            (widened S dec m coalesced allowed w k (r.base + r.sz - k) r)
  unfolding widen_left
  left_round fuel k s w r here wanted =
      rw (widen_left, here) (if_wanted (coalesced w) (allowed w) _ _ wanted)

  right_round :
      (fuel pos k s : ℕ) (w : V) (r : Reach S dec)
      → get_item S m pos ≡ ok (k, s, w)
      → coalesced w ≡ true
      → widen_right S dec m coalesced allowed (suc fuel) pos r
        ≡ widen_right S dec m coalesced allowed fuel
            (k + s)
            (widened S dec m coalesced allowed w r.base (k + s - r.base) r)
  unfolding widen_right
  right_round fuel pos k s w r here wanted =
      rw (widen_right, here) (if_wanted (coalesced w) (allowed w) _ _ wanted)

  widen_left-reaches :
      (fuel : ℕ) (r : Reach S dec)
      → r.base < fuel
      → m.base ≤ r.base
      → r.base < m.base + m.sz
      → ReachesLeft (widen_left S dec m coalesced allowed fuel r) r
  unfolding widen_left
  widen_left-reaches zero r lt lo hi = absurd (omega (arith, lt))
  widen_left-reaches (suc fuel) r lt lo hi = elim (Bool-cases (ltb m.base r.base)) [
    | inr at_base ↦
        let le : r.base ≤ m.base = ground arith in
        (
          r,
          rw (widen_left, before_map r.base le) refl,
          lo,
          omega arith,
          refl,
          λ x a c. absurd (omega arith),
          inl (omega arith),
        )
    | inl more ↦
        let gt : m.base < r.base = ground arith in
        let (k, s, w, is, le, past, same) =
          get_item-value S m valid (r.base - 1) (omega arith) (omega arith) in
        let here : item_before S dec m r.base ≡ ok (k, s, w) =
          before_pos r.base (omega arith) ∙ is in
        elim (Bool-cases (coalesced w)) [
          | inr other ↦ (
            r,
            rw (widen_left, here, other, none_beyond w) refl,
            lo,
            omega arith,
            refl,
            λ x a c. absurd (omega arith),
            inr (rw (same (r.base - 1) le past) other),
          )
          | inl wanted ↦
              let inner = value_inside S m valid k w (same k (omega arith) (omega arith)) in
              let (r', did, lo', le', total, taken, stops) =
                widen_left-reaches fuel
                  (widened S dec m coalesced allowed w k (r.base + r.sz - k) r) (omega arith)
                  inner.0 (omega arith) in
              (
                r',
                left_round fuel k s w r here wanted ∙ did,
                lo',
                omega arith,
                omega (arith, total),
                λ x a c. elim (Bool-cases (ltb x k)) [
                  | inl before ↦ taken x a (ground arith)
                  | inr within ↦ rw (same x (ground arith) (omega arith)) wanted
                ],
                stops,
              )
        ]
  ]

  abbrev ReachesRight : Result (Reach S dec) → ℕ → Reach S dec → Type 0
  ReachesRight o pos r =
      (r' : Reach S dec) × (o ≡ ok r')
      × (r'.base ≡ r.base)
      × (pos ≤ r'.base + r'.sz)
      × (r'.base + r'.sz ≤ m.base + m.sz)
      × Taken pos (r'.base + r'.sz)
      × StopsRight (r'.base + r'.sz)

  widen_right-reaches :
      (fuel pos : ℕ) (r : Reach S dec)
      → m.base + m.sz - pos < fuel
      → m.base ≤ pos
      → pos ≤ m.base + m.sz
      → r.base + r.sz ≡ pos
      → ReachesRight (widen_right S dec m coalesced allowed fuel pos r) pos r
  unfolding widen_right
  widen_right-reaches zero pos r lt lo hi end = absurd (omega (arith, lt))
  widen_right-reaches (suc fuel) pos r lt lo hi end = elim (Bool-cases (ltb pos (m.base + m.sz))) [
    | inr at_limit ↦
        let le : m.base + m.sz ≤ pos = ground arith in
        (
          r,
          rw (widen_right, off_map pos (inr le)) refl,
          refl,
          omega arith,
          omega arith,
          λ x a c. absurd (omega arith),
          inl (omega arith),
        )
    | inl more ↦
        let gt : pos < m.base + m.sz = ground arith in
        let (k, s, w, is, le, past, same) = get_item-value S m valid pos lo gt in
        elim (Bool-cases (coalesced w)) [
          | inr other ↦ (
            r,
            rw (widen_right, is, other, none_beyond w) refl,
            refl,
            omega arith,
            omega arith,
            λ x a c. absurd (omega arith),
            inr (rw (end, same pos le past) other),
          )
          | inl wanted ↦
              let inner =
                value_inside S m valid (k + s - 1) w
                  (same (k + s - 1) (omega arith) (omega arith)) in
              let (r', did, same_base, reach, within, taken, stops) =
                widen_right-reaches fuel (k + s)
                  (widened S dec m coalesced allowed w r.base (k + s - r.base) r) (omega arith)
                  (omega arith) (omega (arith, inner.1)) (omega arith) in
              (
                r',
                right_round fuel pos k s w r is wanted ∙ did,
                same_base,
                omega arith,
                within,
                λ x a c. elim (Bool-cases (ltb x (k + s))) [
                  | inl here ↦ rw (same x (omega arith) (ground arith)) wanted
                  | inr beyond ↦ taken x (ground arith) c
                ],
                stops,
              )
        ]
  ]

  fall_back_none :
      (loc : ℕ) (r : Reach S dec)
      → m.base ≤ loc
      → loc < m.base + m.sz
      → fall_back S dec m coalesced allowed loc r ≡ ok r
  unfolding fall_back
  fall_back_none loc r lo hi =
      let (k, s, w, is, _, _, _) = get_item-value S m valid loc lo hi in
      rw (fall_back, is) (if_refused (coalesced w) (allowed w) r _ (none_beyond w))

  -- the run around a span, and the value at each of its points
  pub record Around (k s : ℕ) (w : V) (o : Result (Span V)) : Type 0 where
    pub base : ℕ
    pub size : ℕ
    pub is : o ≡ ok (base, size, w)
    pub inside_lo : m.base ≤ base
    pub inside_hi : base + size ≤ m.base + m.sz
    pub from : base ≤ k
    pub until : k + s ≤ base + size
    pub left : Taken base k
    pub right : Taken (k + s) (base + size)
    pub stops_left : StopsLeft base
    pub stops_right : StopsRight (base + size)

  widen-Around :
      (k s : ℕ) (w : V)
      → m.base ≤ k
      → 0 < s
      → k + s ≤ m.base + m.sz
      → Around k s w (widen S dec m coalesced allowed k s w)
  unfolding widen
  widen-Around k s w lo pos hi =
      let (l, ldid, llo, lle, ltotal, ltaken, lstops) =
        widen_left-reaches (k + 1) (record { base = k; sz = s; backup = (k, s) }) (omega arith) lo
          (omega arith) in
      let lback = fall_back_none l.base l llo (omega arith) in
      let (r, rdid, rbase, reach, within, rtaken, rstops) =
        widen_right-reaches (m.base + m.sz - (k + s) + 1) (k + s)
          (restart S dec m coalesced allowed l) (omega arith) (omega arith) hi (omega arith) in
      let rback = fall_back_none (r.base + r.sz - 1) r (omega arith) (omega arith) in
      record {
        base = r.base;
        size = r.sz;
        is = rw (widen, ldid, lback, rdid, rback) refl;
        inside_lo = omega arith;
        inside_hi = within;
        from = omega arith;
        until = reach;
        left = λ x a c. ltaken x (omega arith) c;
        right = rtaken;
        stops_left = rw rbase lstops;
        stops_right = rstops;
      }

module _ {V : Type 0} (S : SortedDict (Cell V)) (dec : Discrete V) (m : IntervalMap S)
    (valid : IsValid S m) where
  -- the values of a non-empty set of values to coalesce with
  abbrev pub one_of : V → List V → V → Bool
  one_of v vs w = is_one S dec w (v ∷ vs)

  -- nothing is coalesced beyond
  abbrev pub beyond : V → List V → V → Bool
  beyond v vs w = is_one S dec w [] && not (is_one S dec w (v ∷ vs))

  pub no_beyond : (v : V) (vs : List V) (w : V) → beyond v vs w ≡ false
  unfolding is_one
  no_beyond v vs w = refl

  -- On a valid map that coalesces, get with a set of values to coalesce with, and none to pass
  -- over, returns for every point of the map: the run goes from the span of the point over the
  -- spans on both sides whose values are in the set, and stops at the ends of the map or at a
  -- value that is not in the set.
  pub get-Around :
      (loc : ℕ) (v : V) (vs : List V)
      → m.base ≤ loc
      → loc < m.base + m.sz
      → (k s : ℕ) × (w : V) × (get_item S m loc ≡ ok (k, s, w))
        × (k ≤ loc)
        × (loc < k + s)
        × Around S dec m valid
            (one_of v vs)
            (beyond v vs)
            (no_beyond v vs)
            k
            s
            w
            (get S dec loc (v ∷ vs) [] [] [] m)
  unfolding get
  get-Around loc v vs lo hi =
      let (k, s, w, is, le, past, same) = get_item-value S m valid loc lo hi in
      let first = value_inside S m valid k w (same k (omega arith) (omega arith)) in
      let last =
        value_inside S m valid (k + s - 1) w (same (k + s - 1) (omega arith) (omega arith)) in
      (
        k,
        s,
        w,
        is,
        le,
        past,
        rw (get, is)
            (widen-Around S dec m valid (one_of v vs) (beyond v vs) (no_beyond v vs) k s w first.0
              (omega arith) (omega (arith, last.1))),
      )
