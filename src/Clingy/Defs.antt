-- ===== src/Clingy/Defs.antt =====
-- The state of the allocator, and the methods that change the states of buckets.
use memory_alloc_analysis.Prelude.{
  ℕ, suc, ◌+◌, ◌-◌, max, Bool, true, false, not, ◌&&◌, Option, none, some, List, [], ◌∷◌, ◌++◌,
  if◌then◌else◌, leb, ltb, ◌==◌, Result, ok, err, Outcome, done, raised, and_run, assertion_error,
  key_error, value_error,
}
use memory_alloc_analysis.SortedDict.Items.{lookup, erase}
use memory_alloc_analysis.IntervalMap.Defs.{Span}
use memory_alloc_analysis.Renaming.Defs.{Space}
use memory_alloc_analysis.Clingy.States.{BuckSt, tidy, junk, is_junk, in_atj, BucketMap}

-- (njunk, bix, sz), or (0, -1, -1), which no span is
pub data Best : Type 0 where
  no_span : Best
  best : (nj bix sz : ℕ) → Best

abbrev pub njunk : Best → ℕ
njunk no_span = 0
njunk (best nj bix sz) = nj

abbrev pub covers : ℕ → Option Best → Bool
covers bix none = false
covers bix (some no_span) = false
covers bix (some (best nj brsix brssz)) = leb brsix bix && ltb bix (brsix + brssz)

module _ (B : BucketMap) where
  open B use {Map, get_item, get_tj, get_slice, mark}

  -- `published` has the latest event first. A node of `_junklru` is a number and the node's value.
  pub record Clingy : Type 0 where
    pub maxbix : ℕ
    pub szbix2ap : List (ℕ × List (ℕ × ℕ))
    pub bix2szbm : List (ℕ × (ℕ × ℕ))
    pub njunkb : ℕ
    pub nbwb : ℕ
    pub bix2state : Map
    pub brscache : Option Best
    pub junklru : List (ℕ × (ℕ × ℕ))
    pub junkbdn : List (ℕ × ℕ)
    pub next_node : ℕ
    pub published : List Space

  abbrev pub new_clingy : Map → Clingy
  new_clingy m = record {
    maxbix = 1;
    szbix2ap = [];
    bix2szbm = [];
    njunkb = 0;
    nbwb = 0;
    bix2state = m;
    brscache = none;
    junklru = [];
    junkbdn = [];
    next_node = 0;
    published = [];
  }

  abbrev pub publish : Space → Clingy → Clingy
  publish e s = record s { published = e ∷ s.published }

  -- a reader, and what follows it
  abbrev pub reading :
      {A : Type 0} → Result A → (A → Clingy → Outcome Clingy) → Clingy → Outcome Clingy
  reading (ok a) next s = next a s
  reading (err e) next s = raised e s

  abbrev pub require : Bool → (Clingy → Outcome Clingy) → Clingy → Outcome Clingy
  require true next s = next s
  require false next s = raised assertion_error s

  abbrev pub with_map : Outcome Map → Clingy → Outcome Clingy
  with_map (done m) s = done (record s { bix2state = m })
  with_map (raised e m) s = raised e (record s { bix2state = m })

  -- self._bix2state.mark(bix, sz, st)
  unfoldable pub mark_state : ℕ → ℕ → BuckSt → Clingy → Outcome Clingy
  mark_state bix sz st s = with_map (mark bix sz st s.bix2state) s

  -- the nodes: self._junklru.remove(self._junkbdn.pop(bix))
  unfoldable pub unlist : ℕ → Clingy → Outcome Clingy
  unlist bix s = elim (lookup bix s.junkbdn) [
    | none ↦ raised key_error s
    | some node ↦
        let s1 = record s { junkbdn = erase bix s.junkbdn } in
        elim (lookup node s.junklru) [
          | none ↦ raised value_error s1
          | some span ↦ done (record s1 { junklru = erase node s.junklru })
        ]
  ]

  -- self._junkbdn[bix] = self._junklru.insert((bix, sz))
  unfoldable pub enlist : ℕ → ℕ → Clingy → Clingy
  enlist bix sz s = record s {
    junklru = s.junklru ++ ((s.next_node, (bix, sz)) ∷ []);
    junkbdn = (bix, s.next_node) ∷ erase bix s.junkbdn;
    next_node = suc s.next_node;
  }

  abbrev pub when : Bool → (Clingy → Outcome Clingy) → Clingy → Outcome Clingy
  when true f s = f s
  when false f s = done s

  -- dll_im_coalesced_insert(loc, sz, self._bix2state, self._junklru, self._junkbdn)
  unfoldable pub coalesced_insert : ℕ → ℕ → Clingy → Outcome Clingy
  unfolding unlist enlist
  coalesced_insert loc sz s =
      reading (get_item loc s.bix2state)
        (λ q s0.
          and_run
            (and_run (when (not (loc == q.0)) (unlist q.0) s0)
              (when (not (q.0 + q.1 == loc + sz)) (unlist (loc + sz))))
            (λ s1. done (enlist q.0 q.1 s1)))
        s

  -- the part of `_mark_allocated` that follows the mark of the gap
  unfoldable pub mark_placed : ℕ → ℕ → BuckSt → Clingy → Outcome Clingy
  unfolding mark_state
  mark_placed reqbase reqbsz nst s = mark_state reqbase reqbsz nst (record s {
    brscache = if covers reqbase s.brscache then none else s.brscache;
    nbwb = s.nbwb + reqbsz;
    maxbix = max s.maxbix (reqbase + reqbsz);
  })

  unfoldable pub mark_allocated : ℕ → ℕ → BuckSt → Clingy → Outcome Clingy
  unfolding mark_state mark_placed
  mark_allocated reqbase reqbsz nst s =
      and_run (when (ltb s.maxbix reqbase) (mark_state s.maxbix (reqbase - s.maxbix) tidy) s)
        (mark_placed reqbase reqbsz nst)

  -- the loop of `_mark_tidy`
  unfoldable pub unlist_junk : List (Span BuckSt) → Clingy → Outcome Clingy
  unfolding unlist
  unlist_junk [] s = done s
  unlist_junk ((qbix, qsz, qv) ∷ qs) s =
      if in_atj qv
      then and_run (when (is_junk qv) (unlist qbix) s) (unlist_junk qs)
      else raised assertion_error s

  unfoldable pub mark_tidy : ℕ → ℕ → ℕ → Clingy → Outcome Clingy
  unfolding unlist_junk mark_state
  mark_tidy bix sz nj s =
      reading (get_slice bix (bix + sz) s.bix2state)
        (λ qs s0. and_run (unlist_junk qs s0) (λ s1.
          and_run (mark_state bix sz tidy (record s1 { njunkb = s1.njunkb - nj }))
            (λ s2. done (record s2 { brscache = none }))))
        s

  -- the cache is dropped where the new span may be the largest
  abbrev pub revise_cache : ℕ → Clingy → Outcome Clingy
  revise_cache bix s = elim s.brscache [
    | none ↦ done s
    | some b ↦
        reading (get_tj bix s.bix2state)
          (λ q s0. done (if leb (njunk b) q.1 then record s0 { brscache = none } else s0)) s
  ]

  -- the counters, once the buckets are marked
  abbrev pub count_junk : ℕ → Clingy → Clingy
  count_junk bsz s = record s { njunkb = s.njunkb + bsz; nbwb = s.nbwb - bsz }

  unfoldable pub mark_junk : ℕ → ℕ → Clingy → Outcome Clingy
  unfolding mark_state coalesced_insert
  mark_junk bix bsz s =
      reading (get_item bix s.bix2state)
        (λ q. require (not (is_junk q.2)) (λ s0. elim (lookup bix s0.bix2szbm) [
          | none ↦ raised key_error s0
          | some b ↦
              and_run (mark_state bix bsz junk (record s0 { bix2szbm = erase bix s0.bix2szbm }))
                (λ s1. and_run (revise_cache bix (count_junk bsz s1)) (coalesced_insert bix bsz))
        ]))
        s
