-- ===== src/HashMap.antt =====
-- `HashMap` as an association list in its order of iteration. `insert` takes the old entry of its
-- key out first, so keys stay distinct; where an operation reads the order (the first entry that
-- fits), theorems hold for every order.
use trimrouter.Prelude.{
  ◌≤◌, ◌<◌, ◌≡◌, ◌≢◌, refl, Bool, true, false, List, [], ◌∷◌, Option, none, some, arith,
  if◌then◌else◌, is_some, length, any, Bool-cases, inl, inr, subst, Key, ◌==◌,
}

module _ {ℓ κ} {K : Type ℓ} {V : Type κ} ⦃e : Key K⦄ where
  unfoldable pub get : K → List (K × V) → Option V
  get k [] = none
  get k ((j, v) ∷ m) = if j == k then some v else get k m

  unfoldable pub remove : K → List (K × V) → List (K × V)
  remove k [] = []
  remove k ((j, v) ∷ m) = let rest = remove k m in if j == k then rest else (j, v) ∷ rest

  unfoldable pub insert : K → V → List (K × V) → List (K × V)
  insert k v m = (k, v) ∷ remove k m

  unfoldable pub retain : (K → V → Bool) → List (K × V) → List (K × V)
  retain p [] = []
  retain p ((j, v) ∷ m) = let rest = retain p m in if p j v then (j, v) ∷ rest else rest

  abbrev pub contains_key : K → List (K × V) → Bool
  contains_key k m = is_some (get k m)

  -- The keys of a `HashMap` are distinct.
  abbrev pub IsMap : List (K × V) → Type κ
  IsMap [] = Unit
  IsMap ((j, v) ∷ m) = (get j m ≡ none) × IsMap m

  pub get-remove :
      (k j : K) (m : List (K × V)) → get j (remove k m) ≡ (if k == j then none else get j m)
  unfolding get remove
  get-remove k j [] = ground arith
  get-remove k j ((i, w) ∷ m) =
      ground (arith, get-remove k j m, e.same_iff i k, e.same_iff i j, e.same_iff k j)

  pub get-insert :
      (k j : K) (v : V) (m : List (K × V))
      → get j (insert k v m) ≡ (if k == j then some v else get j m)
  unfolding insert get
  get-insert k j v m = ground (arith, get-remove k j m)

  pub length-remove-le : (k : K) (m : List (K × V)) → length (remove k m) ≤ length m
  unfolding remove
  length-remove-le k [] = omega arith
  length-remove-le k ((j, v) ∷ m) = ground (arith, length-remove-le k m)

  pub length-remove-lt :
      (k : K) (m : List (K × V)) → get k m ≢ none → length (remove k m) < length m
  unfolding remove get
  length-remove-lt k [] h = absurd (h refl)
  length-remove-lt k ((j, v) ∷ m) h = ground (arith, length-remove-le k m, length-remove-lt k m)

  remove_absent : (k : K) (m : List (K × V)) → get k m ≡ none → remove k m ≡ m
  unfolding get remove
  remove_absent k [] h = refl
  remove_absent k ((j, v) ∷ m) h = ground (arith, remove_absent k m)

  -- A new entry that is taken out again leaves the map as it was.
  pub remove-insert :
      (k : K) (v : V) (m : List (K × V)) → get k m ≡ none → remove k (insert k v m) ≡ m
  unfolding insert remove
  remove-insert k v m h =
      let same : (k == k) ≡ true = ground (arith, e.same_iff k k) in
      rw (same, remove_absent k m h, remove_absent k m h) refl

  pub length-retain-le : (p : K → V → Bool) (m : List (K × V)) → length (retain p m) ≤ length m
  unfolding retain
  length-retain-le p [] = omega arith
  length-retain-le p ((j, v) ∷ m) = ground (arith, length-retain-le p m)

  pub get-retain_missing :
      (p : K → V → Bool) (j : K) (m : List (K × V)) → get j m ≡ none → get j (retain p m) ≡ none
  unfolding get retain
  get-retain_missing p j [] h = refl
  get-retain_missing p j ((i, w) ∷ m) h = ground (arith, get-retain_missing p j m)

  -- On a map, an entry survives `retain` exactly when the test holds of it.
  pub get-retain :
      (p : K → V → Bool) (j : K) (m : List (K × V))
      → IsMap m
      → get j (retain p m)
        ≡ elim (get j m) [ none ↦ none | some v ↦ if p j v then some v else none ]
  unfolding get retain
  get-retain p j [] u = refl
  get-retain p j ((i, w) ∷ m) u =
      ground (arith, get-retain p j m u.1, get-retain_missing p i m u.0, e.same_iff i j)

  pub remove-IsMap : (k : K) (m : List (K × V)) → IsMap m → IsMap (remove k m)
  unfolding remove
  remove-IsMap k [] u = tt
  remove-IsMap k ((j, v) ∷ m) u = ground (arith, remove-IsMap k m u.1, get-remove k j m)

  pub insert-IsMap : (k : K) (v : V) (m : List (K × V)) → IsMap m → IsMap (insert k v m)
  unfolding insert
  insert-IsMap k v m u = (ground (arith, get-remove k k m, e.same_iff k k), remove-IsMap k m u)

  pub retain-IsMap : (p : K → V → Bool) (m : List (K × V)) → IsMap m → IsMap (retain p m)
  unfolding retain
  retain-IsMap p [] u = tt
  retain-IsMap p ((j, v) ∷ m) u = ground (arith, retain-IsMap p m u.1, get-retain_missing p j m)

  -- Without more: an entry that `get` finds and the test keeps is found again.
  pub get-retain_kept :
      (p : K → V → Bool) (j : K) (v : V) (m : List (K × V))
      → get j m ≡ some v
      → p j v ≡ true
      → get j (retain p m) ≡ some v
  unfolding get retain
  get-retain_kept p j v [] g h = cc
  get-retain_kept p j v ((i, w) ∷ m) g h = ground (arith, get-retain_kept p j v m, e.same_iff i j)

  -- What `get` finds fits no test that `any` denies.
  pub any-get :
      (p : K × V → Bool) (j : K) (v : V) (m : List (K × V))
      → any p m ≡ false
      → get j m ≡ some v
      → p (j, v) ≡ false
  unfolding get any
  any-get p j v [] h g = cc
  any-get p j v ((i, w) ∷ m) h g = ground (arith, any-get p j v m, e.same_iff i j)

  -- On a map the converse: a test that fails at all that `get` finds fails everywhere.
  pub get-any :
      (p : K × V → Bool) (m : List (K × V))
      → IsMap m
      → ((j : K) (v : V) → get j m ≡ some v → p (j, v) ≡ false)
      → any p m ≡ false
  unfolding get any
  get-any p [] u h = refl
  get-any p ((i, w) ∷ m) u h =
      rw (h i w (ground (arith, e.same_iff i i)))
        (get-any p m u.1 (λ j v g. h j v (ground (arith, e.same_iff i j))))

  -- `if let Some(v) = m.get_mut(&k) { *v = f(v) }`
  unfoldable pub modify : K → (V → V) → List (K × V) → List (K × V)
  modify k f [] = []
  modify k f ((j, v) ∷ m) =
      let rest = modify k f m in if j == k then (j, f v) ∷ rest else (j, v) ∷ rest

  pub get-modify :
      (k j : K) (f : V → V) (m : List (K × V))
      → get j (modify k f m)
        ≡ (if k == j then elim (get j m) [ none ↦ none | some v ↦ some (f v) ] else get j m)
  unfolding get modify
  get-modify k j f [] = ground arith
  get-modify k j f ((i, w) ∷ m) =
      ground (arith, get-modify k j f m, e.same_iff i k, e.same_iff i j, e.same_iff k j)

  pub modify-IsMap : (k : K) (f : V → V) (m : List (K × V)) → IsMap m → IsMap (modify k f m)
  unfolding modify
  modify-IsMap k f [] u = tt
  modify-IsMap k f ((j, v) ∷ m) u = ground (arith, modify-IsMap k f m u.1, get-modify k j f m)

  pub length-modify : (k : K) (f : V → V) (m : List (K × V)) → length (modify k f m) ≡ length m
  unfolding modify
  length-modify k f [] = refl
  length-modify k f ((j, v) ∷ m) = ground (arith, length-modify k f m)

  -- A property of every value.
  abbrev pub AllValues {μ} : (V → Type μ) → List (K × V) → Type μ
  AllValues P [] = Unit
  AllValues P ((j, v) ∷ m) = P v × AllValues P m

module _ {ℓ κ μ} {K : Type ℓ} {V : Type κ} ⦃e : Key K⦄ (P : V → Type μ) where
  pub AllValues-get : (k : K) (v : V) (m : List (K × V)) → AllValues P m → get k m ≡ some v → P v
  unfolding get
  AllValues-get k v [] a g = absurd (ground arith)
  AllValues-get k v ((j, w) ∷ m) a g = elim (Bool-cases (j == k)) [
    | inl hit ↦ subst P (ground arith) a.0
    | inr miss ↦ AllValues-get k v m a.1 (ground arith)
  ]

  pub AllValues-remove : (k : K) (m : List (K × V)) → AllValues P m → AllValues P (remove k m)
  unfolding remove
  AllValues-remove k [] a = a
  AllValues-remove k ((j, w) ∷ m) a = elim (Bool-cases (j == k)) [
    | inl hit ↦ rw hit (AllValues-remove k m a.1)
    | inr miss ↦ rw miss (a.0, AllValues-remove k m a.1)
  ]

  pub AllValues-insert :
      (k : K) (v : V) (m : List (K × V)) → P v → AllValues P m → AllValues P (insert k v m)
  unfolding insert
  AllValues-insert k v m p a = (p, AllValues-remove k m a)

  pub AllValues-retain :
      (p : K → V → Bool) (m : List (K × V)) → AllValues P m → AllValues P (retain p m)
  unfolding retain
  AllValues-retain p [] a = a
  AllValues-retain p ((j, w) ∷ m) a = elim (Bool-cases (p j w)) [
    | inl hit ↦ rw hit (a.0, AllValues-retain p m a.1)
    | inr miss ↦ rw miss (AllValues-retain p m a.1)
  ]

  pub AllValues-modify :
      (k : K) (f : V → V) (m : List (K × V))
      → ((v : V) → P v → P (f v))
      → AllValues P m
      → AllValues P (modify k f m)
  unfolding modify
  AllValues-modify k f [] h a = a
  AllValues-modify k f ((j, w) ∷ m) h a = elim (Bool-cases (j == k)) [
    | inl hit ↦ rw hit (h w a.0, AllValues-modify k f m h a.1)
    | inr miss ↦ rw miss (a.0, AllValues-modify k f m h a.1)
  ]
