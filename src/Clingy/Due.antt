-- ===== src/Clingy/Due.antt =====
-- `_maybe_revoke` of sim/alloc/TypelessClingy.py, with factors that are whole numbers. A comparison
-- with ntidy, a difference of the counters, is written as one of sums.
use memory_alloc_analysis.Prelude.{
  ℕ, zero, suc, ◌+◌, ◌*◌, ◌≤◌, ◌≡◌, Bool, true, false, ◌&&◌, some, List, [], ◌∷◌, if◌then◌else◌,
  leb, ltb, arith, length, Outcome, done, raised, Bool-cases, inl, inr,
}
use memory_alloc_analysis.Clingy.States.{BucketMap}
use memory_alloc_analysis.Clingy.Defs.{Clingy, Best, njunk}
use memory_alloc_analysis.Clingy.Revoke.{predicated_revoke_best}

-- map(lambda x : x[0], itertools.islice(self._junklru, n))
unfoldable pub oldest : ℕ → List (ℕ × (ℕ × ℕ)) → List ℕ
oldest zero l = []
oldest (suc n) [] = []
oldest (suc n) ((node, (loc, sz)) ∷ l) = loc ∷ oldest n l

pub record Factors : Type 0 where
  pub overhead_factor : ℕ
  pub tidy_factor : ℕ
  pub rev_tidy_factor : ℕ
  pub revoke_t : ℕ
  pub rev_lru : ℕ

module _ (B : BucketMap) (order : List Best → List Best) (revoke_k : ℕ) (a : Factors) where
  -- self._nbwb >= self._tidy_factor * ntidy
  abbrev pub few_tidy : Clingy B → Bool
  few_tidy s = leb (a.tidy_factor * s.maxbix) (s.nbwb + a.tidy_factor * (s.njunkb + s.nbwb))

  unfoldable pub due : ℕ → ℕ → Clingy B → Bool
  due ts lastrevt s =
      leb (a.overhead_factor * s.nbwb) s.njunkb && (few_tidy s && leb (lastrevt + a.revoke_t) ts)

  -- ntidy < self._rev_tidy_factor * nrev
  abbrev pub worthwhile : Clingy B → ℕ → Bool
  worthwhile s nrev = ltb s.maxbix (a.rev_tidy_factor * nrev + (s.njunkb + s.nbwb))

  -- beside the allocator, _lastrevt
  abbrev pub revoked_at : ℕ → ℕ → Outcome (Clingy B) → Outcome (Clingy B × ℕ)
  revoked_at ts lastrevt (done s) = done (s, ts)
  revoked_at ts lastrevt (raised e s) = raised e (s, lastrevt)

  unfoldable pub maybe_revoke : ℕ → ℕ → Clingy B → Outcome (Clingy B × ℕ)
  unfolding oldest due predicated_revoke_best
  maybe_revoke ts lastrevt s =
      if due ts lastrevt s
      then revoked_at ts lastrevt (
          predicated_revoke_best B order revoke_k (worthwhile s) revoke_k
            (oldest a.rev_lru s.junklru) s)
      else done (s, lastrevt)

  length-oldest : (n : ℕ) (l : List (ℕ × (ℕ × ℕ))) → length (oldest n l) ≤ n
  unfolding oldest
  length-oldest zero l = omega arith
  length-oldest (suc n) [] = omega arith
  length-oldest (suc n) ((node, (loc, sz)) ∷ l) = omega (arith, length-oldest n l)

  fits :
      (s : Clingy B)
      → a.rev_lru ≤ revoke_k
      → leb (length (oldest a.rev_lru s.junklru)) revoke_k ≡ true
  fits s lru = elim (Bool-cases (leb (length (oldest a.rev_lru s.junklru)) revoke_k)) [
    | inl h ↦ h
    | inr h ↦ absurd (ground (arith, h, lru, length-oldest a.rev_lru s.junklru))
  ]

  too_little :
      (s : Clingy B) (b : Best)
      → njunk b ≡ 0
      → s.njunkb + s.nbwb ≤ s.maxbix
      → worthwhile s (njunk b) ≡ false
  too_little s b none_junk room = rw none_junk (ground (arith, room))

  not_worthwhile :
      (s : Clingy B) (b : Best)
      → s.brscache ≡ some b
      → njunk b ≡ 0
      → s.njunkb + s.nbwb ≤ s.maxbix
      → a.rev_lru ≤ revoke_k
      → predicated_revoke_best B order revoke_k
          (worthwhile s)
          revoke_k
          (oldest a.rev_lru s.junklru)
          s
        ≡ done s
  unfolding predicated_revoke_best
  not_worthwhile s b cached none_junk room lru =
      simp (predicated_revoke_best, fits s lru, cached, too_little s b none_junk room)

  pub data After (s : Clingy B) (ts lastrevt : ℕ) : Outcome (Clingy B × ℕ) → Type 0 where
    skipped : due ts lastrevt s ≡ false → After s ts lastrevt (done (s, lastrevt))
    tried : due ts lastrevt s ≡ true → After s ts lastrevt (done (s, ts))

  -- Where the cached best span has no junk, the JUNK, BUMP and WAIT buckets are at most _maxbix and
  -- the revocations by age are within the number of spans, _maybe_revoke does not raise and leaves
  -- the allocator as it is, and sets _lastrevt just where a revocation was due.
  pub maybe_revoke-After :
      (s : Clingy B) (b : Best) (ts lastrevt : ℕ)
      → s.brscache ≡ some b
      → njunk b ≡ 0
      → s.njunkb + s.nbwb ≤ s.maxbix
      → a.rev_lru ≤ revoke_k
      → After s ts lastrevt (maybe_revoke ts lastrevt s)
  unfolding maybe_revoke
  maybe_revoke-After s b ts lastrevt cached none_junk room lru =
      elim (Bool-cases (due ts lastrevt s)) [
        | inl now ↦ rw (maybe_revoke, now, not_worthwhile s b cached none_junk room lru) (tried now)
        | inr not_now ↦ rw (maybe_revoke, not_now) (skipped not_now)
      ]
