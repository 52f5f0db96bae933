-- ===== src/Trace/Dict.antt =====
-- Python's dictionaries with texts as keys, in the order of insertion.
use memory_alloc_analysis.Prelude.{
  ◌≡◌, refl, sym, subst, Bool, true, false, Option, none, some, List, [], ◌∷◌, map, if◌then◌else◌,
  Result, ok, err, key_error, Bool-cases, Option-cases, ok-eq, inl, inr, ◌∙◌, ap,
}
use memory_alloc_analysis.Trace.Text.{Text, same, same_refl, same→≡}

abbrev pub Dict {ℓ} : Type ℓ → Type ℓ
Dict A = List (Text × A)

-- is k one of ks
unfoldable pub among : Text → List Text → Bool
among k [] = false
among k (l ∷ ks) = if same k l then true else among k ks

module _ {ℓ} {A : Type ℓ} where
  -- d.get(k)
  unfoldable pub get : Text → Dict A → Option A
  get k [] = none
  get k ((l, a) ∷ d) = if same k l then some a else get k d

  -- d[k] = v
  unfoldable pub put : Text → A → Dict A → Dict A
  put k a [] = (k, a) ∷ []
  put k a ((l, b) ∷ d) = let rest = put k a d in if same k l then (l, a) ∷ d else (l, b) ∷ rest

  -- d[k]
  unfoldable pub item : Text → Dict A → Result A
  unfolding get
  item k d = elim (get k d) [ some a ↦ ok a | none ↦ err key_error ]

  unfoldable pub keys : Dict A → List Text
  keys [] = []
  keys ((k, a) ∷ d) = k ∷ keys d

  -- the entries of dict(zip(ks, vs)) put into d
  unfoldable pub zip_onto : List Text → List A → Dict A → Dict A
  unfolding put
  zip_onto [] vs d = d
  zip_onto (k ∷ ks) [] d = d
  zip_onto (k ∷ ks) (a ∷ vs) d = zip_onto ks vs (put k a d)

  pub get-put : (k : Text) (a : A) (d : Dict A) → get k (put k a d) ≡ some a
  unfolding get put
  get-put k a [] = rw (same_refl k) refl
  get-put k a ((l, b) ∷ d) = elim (Bool-cases (same k l)) [
    | inl is ↦ rw (put, is) (rw (get, is) refl)
    | inr isnt ↦ rw (put, isnt) (rw (get, isnt) (get-put k a d))
  ]

  pub get-put_other :
      (k j : Text) (a : A) (d : Dict A) → same j k ≡ false → get j (put k a d) ≡ get j d
  unfolding get put
  get-put_other k j a [] ne = rw ne refl
  get-put_other k j a ((l, b) ∷ d) ne = elim (Bool-cases (same k l)) [
    | inl is ↦
        let other : same j l ≡ false = subst (λ t. same j t ≡ false) (same→≡ k l is) ne in
        rw (put, is) (rw (get, other) refl)
    | inr isnt ↦
        rw (put, isnt)
          (elim (Bool-cases (same j l)) [
            | inl this ↦ rw (get, this) refl
            | inr next ↦ rw (get, next) (get-put_other k j a d ne)
          ])
  ]

  if_same : (b : Bool) (o : Option A) → (if b then o else o) ≡ o
  if_same true o = refl
  if_same false o = refl

  read_after_put :
      (f : Text → A) (k l : Text) (d : Dict A)
      → get k (put l (f l) d) ≡ (if same k l then some (f k) else get k d)
  unfolding get put
  read_after_put f k l d = elim (Bool-cases (same k l)) [
    | inl is ↦
        let eq : l ≡ k = sym (same→≡ k l is) in
        rw is (subst (λ t. get k (put t (f t) d) ≡ some (f k)) (sym eq) (get-put k (f k) d))
    | inr isnt ↦ rw isnt (get-put_other l k (f l) d isnt)
  ]

  -- A record that is written out field by field is read back, for every field that was written.
  pub get-zip_onto :
      (f : Text → A) (k : Text) (ks : List Text) (d : Dict A)
      → get k (zip_onto ks (map f ks) d) ≡ (if among k ks then some (f k) else get k d)
  unfolding zip_onto among
  get-zip_onto f k [] d = refl
  get-zip_onto f k (l ∷ ks) d = get-zip_onto f k ks (put l (f l) d) ∙ elim (Bool-cases (same k l)) [
    | inl is ↦ rw (among, is) (rw (read_after_put f k l d, is) (if_same (among k ks) (some (f k))))
    | inr isnt ↦ rw (among, isnt) (rw (read_after_put f k l d, isnt) refl)
  ]

  item-none : (k : Text) (d : Dict A) → get k d ≡ none → item k d ≡ err key_error
  unfolding item
  item-none k d h = rw (item, h) refl

  pub item-some : (k : Text) (a : A) (d : Dict A) → get k d ≡ some a → item k d ≡ ok a
  unfolding item
  item-some k a d h = rw (item, h) refl

  pub item-get : (k : Text) (a : A) (d : Dict A) → item k d ≡ ok a → get k d ≡ some a
  item-get k a d h = elim (Option-cases (get k d)) [
    | inl gone ↦ cc (h, item-none k d gone)
    | inr here ↦ here.1 ∙ ap (λ b. some b) (ok-eq (sym (item-some k here.0 d here.1) ∙ h))
  ]
