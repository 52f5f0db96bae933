-- ===== src/Traditional/Defs.antt =====
-- The state of the allocator, and its lists of JUNK and of TIDY spans.
use memory_alloc_analysis.Prelude.{
  ℕ, ◌+◌, Bool, true, false, not, Option, none, some, List, [], ◌∷◌, ◌==◌, Result, ok, err, ◌>>=◌,
  Answer, answer, failure, Outcome, done, raised, and_run, assertion_error, key_error,
}
use memory_alloc_analysis.SortedDict.Items.{lookup}
use memory_alloc_analysis.IntervalMap.Interface.{ValueMap}
use memory_alloc_analysis.Renaming.Defs.{Space}
use memory_alloc_analysis.SegFreeList.Dict.{delete}
use memory_alloc_analysis.SegFreeList.Defs.{Dllist, FreeList, init}
use memory_alloc_analysis.SegFreeList.Extern.{insert_extcoal}
use memory_alloc_analysis.Clingy.Defs.{Best}
use memory_alloc_analysis.Traditional.States.{SegSt, tidy, PageSt}

-- --align-log, --min-size and --revoke-k
pub record Options : Type 0 where
  pub alignlog : ℕ
  pub minsize : ℕ
  pub revoke_k : ℕ

module _ (A : ValueMap SegSt) (P : ValueMap PageSt) (L : Dllist (ℕ × ℕ)) (G : Dllist ℕ) where
  -- `published` has the latest event first.
  pub record Traditional : Type 0 where
    pub brscache : Option Best
    pub eva2sst : A.Map
    pub eva2sz : List (ℕ × ℕ)
    pub evp2pst : P.Map
    pub junklru : L.Dll
    pub junkadn : List (ℕ × L.Node)
    pub njunk : ℕ
    pub nmapped : ℕ
    pub nwait : ℕ
    pub tidylst : FreeList L G
    pub wildern : ℕ
    pub published : List Space

  -- __init__, with the two maps that it makes
  unfoldable pub new_traditional : A.Map → P.Map → Traditional
  unfolding init
  new_traditional eva2sst evp2pst = record {
    brscache = none;
    eva2sst = eva2sst;
    eva2sz = [];
    evp2pst = evp2pst;
    junklru = L.empty;
    junkadn = [];
    njunk = 0;
    nmapped = 0;
    nwait = 0;
    tidylst = init L G;
    wildern = A.base;
    published = [];
  }

  abbrev pub Method : Type 0
  Method = Traditional → Outcome Traditional

  abbrev pub publish : Space → Traditional → Traditional
  publish e s = record s { published = e ∷ s.published }

  -- a reader, and what follows it
  abbrev pub reading : {B : Type 0} → Result B → (B → Method) → Method
  reading (ok a) next s = next a s
  reading (err e) next s = raised e s

  abbrev pub require : Bool → Method → Method
  require true next s = next s
  require false next s = raised assertion_error s

  abbrev pub when : Bool → Method → Method
  when true f s = f s
  when false f s = done s

  abbrev pub with_segments : Outcome A.Map → Method
  with_segments (done m) s = done (record s { eva2sst = m })
  with_segments (raised e m) s = raised e (record s { eva2sst = m })

  -- self._eva2sst.mark(loc, sz, st)
  unfoldable pub mark_segment : ℕ → ℕ → SegSt → Method
  mark_segment loc sz st s = with_segments (A.mark loc sz st s.eva2sst) s

  abbrev pub with_pages : Outcome P.Map → Method
  with_pages (done m) s = done (record s { evp2pst = m })
  with_pages (raised e m) s = raised e (record s { evp2pst = m })

  -- self._evp2pst.mark(pbase, npg, st)
  unfoldable pub mark_pages : ℕ → ℕ → PageSt → Method
  mark_pages pbase npg st s = with_pages (P.mark pbase npg st s.evp2pst) s

  abbrev pub with_tidylst : {B : Type 0} → Answer (FreeList L G) B → (B → Method) → Method
  with_tidylst (answer b l) next s = next b (record s { tidylst = l })
  with_tidylst (failure e l) next s = raised e (record s { tidylst = l })

  unfoldable pub sfl_coalesce : A.Map → ℕ → Result (ℕ × ℕ)
  sfl_coalesce m va = A.get_with va [] m >>= λ q. ok (q.0, q.1)

  -- self._tidylst.insert(loc, sz), which calls `_sfl_coalesce` once, at loc
  unfoldable pub insert_tidy : ℕ → ℕ → Method
  unfolding insert_extcoal sfl_coalesce
  insert_tidy loc sz s =
      reading (sfl_coalesce s.eva2sst loc)
        (λ c. with_tidylst (insert_extcoal L G (λ _. c) loc sz false s.tidylst) (λ _ s1. done s1)) s

  unfoldable pub mark_tidy : ℕ → ℕ → Method
  unfolding mark_segment insert_tidy
  mark_tidy loc sz s = and_run (mark_segment loc sz tidy s) (insert_tidy loc sz)

  -- self._junklru.remove(self._junkadn.pop(loc))
  unfoldable pub unlist : ℕ → Method
  unlist loc s = elim (lookup loc s.junkadn) [
    | none ↦ raised key_error s
    | some node ↦
        done (record s { junkadn = delete loc s.junkadn; junklru = L.remove node s.junklru })
  ]

  -- self._junkadn[loc] = self._junklru.insert((loc, sz))
  unfoldable pub enlist : ℕ → ℕ → Traditional → Traditional
  enlist loc sz s =
      let (node, junklru) = L.insert (loc, sz) s.junklru in
      record s { junklru = junklru; junkadn = (loc, node) ∷ delete loc s.junkadn }

  -- dll_im_coalesced_insert(loc, sz, self._eva2sst, self._junklru, self._junkadn), and what follows
  unfoldable pub coalesced_insert : ℕ → ℕ → (ℕ × ℕ → Method) → Method
  unfolding unlist enlist
  coalesced_insert loc sz next s =
      reading (A.get_item loc s.eva2sst)
        (λ q s0.
          and_run
            (and_run (when (not (loc == q.0)) (unlist q.0) s0)
              (when (not (q.0 + q.1 == loc + sz)) (unlist (loc + sz))))
            (λ s1. next (q.0, q.1) (enlist q.0 q.1 s1)))
        s
