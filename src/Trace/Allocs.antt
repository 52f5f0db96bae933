-- ===== src/Trace/Allocs.antt =====
-- `Run` on the record that `Unrun.allocd` writes.
use memory_alloc_analysis.Prelude.{
  ℕ, ◌-◌, ◌*◌, ◌≤◌, ◌≡◌, refl, sym, ap, subst, true, false, ◌&&◌, Option, some, List, [], ◌∷◌, ok,
  ◌∙◌, arith, if◌then◌else◌, ◌==◌, ==_iff, leb, le→leb, Bool-cases, inl, inr, bind-ok, ok-eq,
  unless-ok, value_error,
}
use memory_alloc_analysis.Trace.Text.{Text, codes, same, same→≡, split}
use memory_alloc_analysis.Trace.Numerals.{format10, format16, int10-format}
use memory_alloc_analysis.Trace.Dict.{get, put, item, item-get, get-put, get-put_other}
use memory_alloc_analysis.Trace.Calls.{Record, parse_call, argument10, argument, allocation}
use memory_alloc_analysis.Trace.Unrun.{two, difference, alloc_fields, alignment, allocd, misaligned}
use memory_alloc_analysis.Trace.Fields.{format10-Lacks, split-single, split-two, difference_le}

-- the call and the arguments of a record ask for an object of `size` bytes
pub record Requests (event : Record) (size : ℕ) : Type 0 where
  pub call : Text
  pub args : Text
  pub name : get (codes "name") event ≡ some call
  pub arguments : get (codes "args") event ≡ some args
  pub parsed :
      (r : Record) (res : Text)
      → parse_call call r (split b' ' args) res ≡ allocation r res (ok size)

-- the fields after the assignment of the arguments
args-Requests :
    (event : Record) (call args : Text) (size : ℕ)
    → get (codes "name") event ≡ some call
    → ((r : Record) (res : Text)
        → parse_call call r (split b' ' args) res ≡ allocation r res (ok size))
    → Requests (put (codes "args") args event) size
args-Requests event call args size is parsed = record {
  call = call;
  args = args;
  name = get-put_other (codes "args") (codes "name") args event refl ∙ is;
  arguments = get-put (codes "args") args event;
  parsed = parsed;
}

parse_malloc :
    (size : ℕ) (r : Record) (res : Text)
    → parse_call (codes "malloc") r (split b' ' (format10 size)) res ≡ allocation r res (ok size)
unfolding parse_call argument10 argument
parse_malloc size r res =
    rw (split-single (format10 size) (format10-Lacks size))
      (rw (parse_call, argument10, argument, int10-format size) refl)

parse_aligned :
    (call : Text)
    → ((r : Record) (arg : List Text) (res : Text)
        → parse_call call r arg res ≡ allocation r res (argument10 arg 1))
    → (align size : ℕ) (r : Record) (res : Text)
    → parse_call call r (split b' ' (two (format10 align) (format10 size))) res
      ≡ allocation r res (ok size)
unfolding argument10 argument
parse_aligned call branch align size r res =
    rw (split-two (format10 align) (format10 size) (format10-Lacks align) (format10-Lacks size))
      (branch r (format10 align ∷ format10 size ∷ []) res ∙ rw (argument10, int10-format size) refl)

one_times : (size : ℕ) → 1 * size ≡ size
one_times size = omega arith

parse_calloc_one :
    (size : ℕ) (r : Record) (res : Text)
    → parse_call (codes "calloc") r (split b' ' (two (format10 1) (format10 size))) res
      ≡ allocation r res (ok size)
unfolding parse_call argument10 argument
parse_calloc_one size r res =
    rw (split-two (format10 1) (format10 size) (format10-Lacks 1) (format10-Lacks size)) (
      rw (parse_call, argument10, int10-format 1, int10-format size)
        (ap (λ n. allocation r res (ok n)) (one_times size)))

parse_calloc_kept :
    (args : Text) (n m size : ℕ)
    → argument10 (split b' ' args) 0 ≡ ok n
    → argument10 (split b' ' args) 1 ≡ ok m
    → n * m ≡ size
    → (r : Record) (res : Text)
    → parse_call (codes "calloc") r (split b' ' args) res ≡ allocation r res (ok size)
unfolding parse_call
parse_calloc_kept args n m size is_n is_m product r res = rw (parse_call, is_n, is_m, product) refl

module _ (event : Record) (begin end : ℕ) (le : begin ≤ end) where
  malloc-Requests :
      get (codes "name") event ≡ some (codes "malloc")
      → Requests (put (codes "args") (difference end begin) event) (end - begin)
  malloc-Requests is = rw (difference_le begin end le) (
      args-Requests event (codes "malloc") (format10 (end - begin)) (end - begin) is
        (parse_malloc (end - begin)))

  calloc-Requests :
      (args : Text) (n m : ℕ)
      → get (codes "name") event ≡ some (codes "calloc")
      → get (codes "args") event ≡ some args
      → argument10 (split b' ' args) 0 ≡ ok n
      → argument10 (split b' ' args) 1 ≡ ok m
      → Requests
          (if leb begin end && (n * m == end - begin)
            then event
            else put (codes "args") (two (format10 1) (difference end begin)) event)
          (end - begin)
  calloc-Requests args n m is has is_n is_m = elim (Bool-cases (n * m == end - begin)) [
    | inl equal ↦
        rw (le→leb begin end le, equal)
          (record {
            call = codes "calloc";
            args = args;
            name = is;
            arguments = has;
            parsed =
                parse_calloc_kept args n m (end - begin) is_n is_m
                  ((==_iff (n * m) (end - begin)).0 equal);
          })
    | inr unlike ↦
        rw (le→leb begin end le, unlike, difference_le begin end le)
          (args-Requests event (codes "calloc") (two (format10 1) (format10 (end - begin)))
            (end - begin) is (parse_calloc_one (end - begin)))
  ]

  aligned-Requests :
      (call : Text) (align : ℕ)
      → get (codes "name") event ≡ some call
      → ((r : Record) (arg : List Text) (res : Text)
          → parse_call call r arg res ≡ allocation r res (argument10 arg 1))
      → Requests
          (put (codes "args") (two (format10 align) (difference end begin)) event)
          (end - begin)
  aligned-Requests call align is branch = rw (difference_le begin end le) (
      args-Requests event call (two (format10 align) (format10 (end - begin))) (end - begin) is
        (parse_aligned call branch align (end - begin)))

  -- whatever `allocd` leaves for this call asks for the object
  abbrev Answered : Text → Type 0
  Answered call =
      (align : Option ℕ) (p : Record × Option ℕ)
      → get (codes "name") event ≡ some call
      → alloc_fields call event begin end align ≡ ok p
      → Requests p.0 (end - begin)

  malloc_fields : Answered (codes "malloc")
  unfolding alloc_fields
  malloc_fields align p is h =
      subst (λ q. Requests q.0 (end - begin)) (ok-eq h) (malloc-Requests is)

  calloc_fields : Answered (codes "calloc")
  unfolding alloc_fields
  calloc_fields align p is h =
      let (args, has, h1) = bind-ok (item (codes "args") event) _ h in
      let (n, is_n, h2) = bind-ok (argument10 (split b' ' args) 0) _ h1 in
      let (m, is_m, h3) = bind-ok (argument10 (split b' ' args) 1) _ h2 in
      subst (λ q. Requests q.0 (end - begin)) (ok-eq h3)
        (calloc-Requests args n m is (item-get (codes "args") args event has) is_n is_m)

  aligned_alloc_fields : Answered (codes "aligned_alloc")
  unfolding alloc_fields parse_call
  aligned_alloc_fields align p is h =
      let (a, _, h1) = bind-ok (alignment align event) _ h in
      subst (λ q. Requests q.0 (end - begin)) (ok-eq h1)
        (aligned-Requests (codes "aligned_alloc") a is (λ r arg res. refl))

  posix_memalign_fields : Answered (codes "posix_memalign")
  unfolding alloc_fields parse_call
  posix_memalign_fields align p is h =
      let (a, _, h1) = bind-ok (alignment align event) _ h in
      subst (λ q. Requests q.0 (end - begin)) (ok-eq h1)
        (aligned-Requests (codes "posix_memalign") a is (λ r arg res. refl))

  module _ (call : Text) (no_malloc : same call (codes "malloc") ≡ false)
      (no_calloc : same call (codes "calloc") ≡ false)
      (no_aligned : same call (codes "aligned_alloc") ≡ false)
      (no_posix : same call (codes "posix_memalign") ≡ false) where
    alloc_fields-other :
        (align : Option ℕ)
        → alloc_fields call event begin end align
          ≡ ok (
            put (codes "args") (difference end begin) (put (codes "name") (codes "malloc") event),
            align,
          )
    unfolding alloc_fields
    alloc_fields-other align = rw (alloc_fields, no_malloc, no_calloc, no_aligned, no_posix) refl

    other_fields : Answered call
    other_fields align p is h =
        subst (λ q. Requests q.0 (end - begin)) (ok-eq (sym (alloc_fields-other align) ∙ h))
          (rw (difference_le begin end le) (
            args-Requests (put (codes "name") (codes "malloc") event) (codes "malloc")
              (format10 (end - begin)) (end - begin) (get-put (codes "name") (codes "malloc") event)
              (parse_malloc (end - begin))))

  when : (call c : Text) → Answered c → same call c ≡ true → Answered call
  when call c answered is = subst Answered (sym (same→≡ call c is)) answered

  answered : (call : Text) → Answered call
  answered call = elim (Bool-cases (same call (codes "malloc"))) [
    | inl is ↦ when call (codes "malloc") malloc_fields is
    | inr no_malloc ↦ elim (Bool-cases (same call (codes "calloc"))) [
      | inl is ↦ when call (codes "calloc") calloc_fields is
      | inr no_calloc ↦ elim (Bool-cases (same call (codes "aligned_alloc"))) [
        | inl is ↦ when call (codes "aligned_alloc") aligned_alloc_fields is
        | inr no_aligned ↦ elim (Bool-cases (same call (codes "posix_memalign"))) [
          | inl is ↦ when call (codes "posix_memalign") posix_memalign_fields is
          | inr no_posix ↦ other_fields call no_malloc no_calloc no_aligned no_posix
        ]
      ]
    ]
  ]

module _ (event : Record) (begin end : ℕ) (le : begin ≤ end) (align : Option ℕ) (w : Record) where
  -- what `allocd` writes has the fields of a request for the object, and the object's address
  pub allocd-Requests :
      allocd event begin end align ≡ ok w
      → (e : Record) × Requests e (end - begin) × (put (codes "result") (format16 begin) e ≡ w)
  unfolding allocd
  allocd-Requests h =
      let (call, named, h1) = bind-ok (item (codes "name") event) _ h in
      let (p, fields, h2) = bind-ok (alloc_fields call event begin end align) _ h1 in
      (
        p.0,
        answered event begin end le call align p (item-get (codes "name") call event named) fields,
        unless-ok value_error (misaligned begin p.1) h2,
      )
