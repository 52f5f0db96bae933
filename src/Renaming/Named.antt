-- ===== src/Renaming/Named.antt =====
-- The table of names and the published events, whatever the allocator does.
use memory_alloc_analysis.Prelude.{
  ℕ, ◌+◌, ◌-◌, ◌<◌, ◌≡◌, refl, sym, ◌∙◌, none, some, ◌∷◌, leb, ok, err, Error, assertion_error,
  Outcome, done, raised, arith, ◌⊎◌, inl, inr, Option-cases, Bool-cases, Result-cases,
  if◌then◌else◌,
}
use memory_alloc_analysis.SortedDict.Items.{lookup, erase}
use memory_alloc_analysis.Renaming.Defs.{
  Event, Reply, Child, Renamer, alloc_event, free_event, realloc_event, sample_event, space_event,
  publish, assign, forget, after, with_reply, then_do, revoke, allocd, freed, reallocd_moved,
  reallocd, handle,
}
use memory_alloc_analysis.Renaming.Live.{
  live, held, live-space, held-lookup, held-erase, erase-absent, lookup-erase, lookup-erase-none,
  erase-Once, Once,
}

module _ {E : Type 0} (C : Child E) where
  open C use {State, alloc, free, try_realloc, maybe_revoke}

  -- The table has each name once, and at every address as many names as objects that are live by
  -- the published events.
  pub record Names (m : Renamer C) : Type 0 where
    pub unique : Once m.tva2eva
    pub same : (e : ℕ) → held e m.tva2eva ≡ live e m.published

  -- The handler gives no name that the table has, but for an object that keeps its name.
  abbrev pub NewName : Event E → Renamer C → Type 0
  NewName (alloc_event _ begin _) m = lookup begin m.tva2eva ≡ none
  NewName (realloc_event _ begin_old begin_new _) m =
      (begin_old ≡ begin_new) ⊎ (lookup begin_new m.tva2eva ≡ none)
  NewName (free_event _ _) m = Unit
  NewName (sample_event _ _ _) m = Unit
  NewName (space_event _ _) m = Unit

  -- A method of the allocator raised the error, or gave too small an object.
  pub data Failed (x : Error) : Type 0 where
    by_alloc : (event : E) (sz : ℕ) (s : State) → (alloc event sz s).result ≡ err x → Failed x
    by_free : (event : E) (eva : ℕ) (s : State) → (free event eva s).result ≡ err x → Failed x
    by_try_realloc :
        (event : E) (eva nsz : ℕ) (s : State)
        → (try_realloc event eva nsz s).result ≡ err x
        → Failed x
    by_maybe_revoke : (event : E) (s : State) → (maybe_revoke event s).result ≡ err x → Failed x
    too_small :
        (event : E) (sz eva nsz : ℕ) (s : State)
        → x ≡ assertion_error
        → (alloc event sz s).result ≡ ok (eva, nsz)
        → nsz < sz
        → Failed x

  -- a handler returns with the two views the same, or raises what the allocator is to blame for
  abbrev pub Ends : Outcome (Renamer C) → Type 0
  Ends (done m) = Names m
  Ends (raised x m) = Failed x

  after-Names :
      {A : Type 0} (event : E) (r : Reply State A) (m : Renamer C)
      → Names m
      → Names (after C event r m)
  after-Names event r m n = record {
    unique = n.unique;
    same = λ e. n.same e ∙ sym (live-space e event r.events m.published);
  }

  with_reply-Ends :
      {A : Type 0} (event : E) (r : Reply State A) (k : A → Renamer C → Outcome (Renamer C))
      (m : Renamer C)
      → ((x : Error) → r.result ≡ err x → Failed x)
      → ((a : A) → r.result ≡ ok a → Ends (k a (after C event r m)))
      → Ends (with_reply C event r k m)
  with_reply-Ends event r k m bad good = elim (Result-cases r.result) [
    | inl (a, is) ↦ rw is (good a is)
    | inr (x, is) ↦ rw is (bad x is)
  ]

  then_do-Ends :
      (o : Outcome (Renamer C)) (k : Renamer C → Outcome (Renamer C))
      → Ends o
      → ((m : Renamer C) → Names m → Ends (k m))
      → Ends (then_do C o k)
  then_do-Ends (done m) k h next = next m h
  then_do-Ends (raised x m) k h next = h

  revoke-Ends :
      (event : E) (last : Renamer C → Renamer C) (m : Renamer C)
      → Names (last (after C event (maybe_revoke event m.child) m))
      → Ends (revoke C event last m)
  unfolding revoke
  revoke-Ends event last m n =
      with_reply-Ends event (maybe_revoke event m.child) (λ _ m'. done (last m')) m
        (λ x is. by_maybe_revoke event m.child is) (λ a is. n)

  allocd-Ends :
      (event : E) (begin end : ℕ) (m : Renamer C)
      → Names m
      → lookup begin m.tva2eva ≡ none
      → Ends (allocd C event begin end m)
  unfolding allocd
  allocd-Ends event begin end m n fresh =
      let sz = end - begin in
      let r = alloc event sz m.child in
      with_reply-Ends event r
        (λ a m1.
          if leb sz a.1
          then revoke C event (λ m2. m2)
              (publish C (alloc_event event a.0 (a.0 + a.1)) (assign C begin a.0 m1))
          else raised assertion_error m1)
        m (λ x is. by_alloc event sz m.child is)
        (λ a is. elim (Bool-cases (leb sz a.1)) [
          | inr small ↦
              rw small (too_small event sz a.0 a.1 m.child refl is (ground (arith, small)))
          | inl large ↦
              let m1 =
                publish C (alloc_event event a.0 (a.0 + a.1))
                  (assign C begin a.0 (after C event r m)) in
              rw large (
                revoke-Ends event (λ m2. m2) m1
                  (after-Names event (maybe_revoke event m1.child) m1 (record {
                    unique = (
                      lookup-erase begin m.tva2eva n.unique,
                      erase-Once begin m.tva2eva n.unique,
                    );
                    same = λ e.
                        rw (erase-absent begin m.tva2eva fresh)
                          (omega (arith, n.same e, live-space e event r.events m.published));
                  })))
        ])

  freed-Ends : (event : E) (begin : ℕ) (m : Renamer C) → Names m → Ends (freed C event begin m)
  unfolding freed
  freed-Ends event begin m n = elim (Option-cases (lookup begin m.tva2eva)) [
    | inl absent ↦ rw (freed, absent) n
    | inr (eva, there) ↦
        let m0 = publish C (free_event event eva) m in
        let r = free event eva m.child in
        let m1 = after C event r m0 in
        let r' = maybe_revoke event m1.child in
        rw (freed, there)
          (with_reply-Ends event r (λ _ m2. revoke C event (forget C begin) m2) m0
            (λ x is. by_free event eva m.child is)
            (λ _ _. revoke-Ends event (forget C begin) m1 (record {
              unique = erase-Once begin m.tva2eva n.unique;
              same = λ e. omega (
                arith,
                held-erase e begin eva m.tva2eva there,
                n.same e,
                live-space e event r.events (free_event event eva ∷ m.published),
                live-space e event r'.events m1.published,
              );
            })))
  ]

  moved-Ends :
      (event : E) (begin_old begin_new szn evao : ℕ) (m : Renamer C)
      → Names m
      → lookup begin_old m.tva2eva ≡ some evao
      → (begin_old ≡ begin_new) ⊎ (lookup begin_new m.tva2eva ≡ none)
      → Ends (reallocd_moved C event begin_old begin_new szn evao m)
  unfolding reallocd_moved
  moved-Ends event begin_old begin_new szn evao m n there names =
      let r1 = alloc event szn m.child in
      let m1 = after C event r1 m in
      let r2 = free event evao m1.child in
      let m2 = after C event r2 m1 in
      let rest = erase begin_old m.tva2eva in
      let rest_Once = erase-Once begin_old m.tva2eva n.unique in
      let fresh : lookup begin_new rest ≡ none = elim names [
        | inl same ↦ rw (← same) (lookup-erase begin_old m.tva2eva n.unique)
        | inr absent ↦ lookup-erase-none begin_new begin_old m.tva2eva absent
      ] in
      let last : ℕ × ℕ → Renamer C → Outcome (Renamer C) = λ a m2.
        revoke C event (λ m3. m3)
          (publish C (realloc_event event evao a.0 (a.0 + a.1))
            (assign C begin_new a.0 (forget C begin_old m2))) in
      with_reply-Ends event r1
        (λ a m1. with_reply C event (free event evao m1.child) (λ _ m2. last a m2) m1) m
        (λ x is. by_alloc event szn m.child is)
        (λ a _.
          let m3 =
            publish C (realloc_event event evao a.0 (a.0 + a.1))
              (assign C begin_new a.0 (forget C begin_old m2)) in
          with_reply-Ends event r2 (λ _ m2. last a m2) m1 (λ x is. by_free event evao m1.child is)
            (λ _ _.
              revoke-Ends event (λ m4. m4) m3
                (after-Names event (maybe_revoke event m3.child) m3 (record {
                  unique =
                      (lookup-erase begin_new rest rest_Once, erase-Once begin_new rest rest_Once);
                  same = λ e. rw (erase-absent begin_new rest fresh) (
                      omega (
                        arith,
                        held-erase e begin_old evao m.tva2eva there,
                        n.same e,
                        live-space e event r1.events m.published,
                        live-space e event r2.events m1.published,
                      ));
                }))))

  reallocd-Ends :
      (event : E) (begin_old begin_new end_new : ℕ) (m : Renamer C)
      → Names m
      → (begin_old ≡ begin_new) ⊎ (lookup begin_new m.tva2eva ≡ none)
      → Ends (reallocd C event begin_old begin_new end_new m)
  unfolding reallocd
  reallocd-Ends event begin_old begin_new end_new m n names =
      elim (Option-cases (lookup begin_old m.tva2eva)) [
        | inl absent ↦
            let fresh : lookup begin_new m.tva2eva ≡ none = elim names [
              | inl same ↦ rw (← same) absent
              | inr free_name ↦ free_name
            ] in
            rw (reallocd, absent)
              (then_do-Ends (allocd C event begin_new end_new m) (revoke C event (λ m'. m'))
                (allocd-Ends event begin_new end_new m n fresh)
                (λ m1 n1.
                  revoke-Ends event (λ m'. m') m1
                    (after-Names event (maybe_revoke event m1.child) m1 n1)))
        | inr (evao, there) ↦
            let szn = end_new - begin_new in
            let r = try_realloc event evao szn m.child in
            let m1 = after C event r m in
            let n1 = after-Names event r m n in
            rw (reallocd, there)
              (with_reply-Ends event r
                (λ in_place m1.
                  if in_place
                  then done (publish C (realloc_event event evao evao (evao + szn)) m1)
                  else reallocd_moved C event begin_old begin_new szn evao m1)
                m (λ x is. by_try_realloc event evao szn m.child is)
                (λ in_place _. elim (Bool-cases in_place) [
                  | inr moved ↦
                      rw moved (moved-Ends event begin_old begin_new szn evao m1 n1 there names)
                  | inl stays ↦
                      let pos = held-lookup begin_old evao m.tva2eva there in
                      rw stays (record {
                        unique = n1.unique;
                        same = λ e. ground (arith, n1.same e, n1.same evao, pos);
                      })
                ]))
      ]

  -- For any allocator at all: where the table of names has each name once and agrees with the
  -- published events on the number of live objects at each address, and the event gives no
  -- name that the table has, but to an object that keeps its name, the handler of the event
  -- returns with the same true of the new table and events, or it raises an error that a
  -- method of the allocator raised, or the AssertionError for an object that is too small.
  pub handle-Names : (m : Renamer C) → Names m → (x : Event E) → NewName x m → Ends (handle C x m)
  unfolding handle
  handle-Names m n (alloc_event event begin end) h = allocd-Ends event begin end m n h
  handle-Names m n (free_event event begin) h = freed-Ends event begin m n
  handle-Names m n (realloc_event event begin_old begin_new end_new) h =
      reallocd-Ends event begin_old begin_new end_new m n h
  handle-Names m n (sample_event event size sweep_size) h = record {
    unique = n.unique;
    same = n.same;
  }
  handle-Names m n (space_event event s) h = n
