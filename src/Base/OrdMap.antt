-- ===== src/Base/OrdMap.antt =====
-- The standard library's `BTreeMap` with numbers for keys: an association list, keys ascending.
use mult.Base.{
  ℕ, suc, ◌≤◌, ◌<◌, ◌≡◌, refl, Bool, true, false, inl, inr, Option, none, some, List, [], ◌∷◌,
  arith, Bool-cases, All, ltb, ◌==◌, if◌then◌else◌, ==→eq, ltb→lt, length,
}

abbrev pub OrdMap {ℓ} : Type ℓ → Type ℓ
OrdMap V = List (ℕ × V)

module _ {ℓ} {V : Type ℓ} where
  unfoldable pub get : ℕ → OrdMap V → Option V
  get k [] = none
  get k ((j, w) ∷ m) = if j == k then some w else get k m

  unfoldable pub put : ℕ → V → OrdMap V → OrdMap V
  put k v [] = (k, v) ∷ []
  put k v ((j, w) ∷ m) =
      if ltb k j then (k, v) ∷ (j, w) ∷ m else if k == j then (k, v) ∷ m else (j, w) ∷ put k v m

  unfoldable pub remove : ℕ → OrdMap V → OrdMap V
  remove k [] = []
  remove k ((j, w) ∷ m) = let rest = remove k m in if j == k then rest else (j, w) ∷ rest

  -- How many values pass the test.
  unfoldable pub count : (V → Bool) → OrdMap V → ℕ
  count test [] = 0
  count test ((j, w) ∷ m) = if test w then suc (count test m) else count test m

  -- The first key whose value passes the test.
  unfoldable pub find_key : (V → Bool) → OrdMap V → Option ℕ
  find_key test [] = none
  find_key test ((j, w) ∷ m) = if test w then some j else find_key test m

  unfoldable pub map_values {κ} : {W : Type κ} → (V → W) → OrdMap V → OrdMap W
  map_values f [] = []
  map_values f ((j, w) ∷ m) = (j, f w) ∷ map_values f m

  abbrev pub IsSorted : OrdMap V → Type 0
  IsSorted [] = Unit
  IsSorted ((j, w) ∷ m) = All (λ (p : ℕ × V). j < p.0) m × IsSorted m

module _ {ℓ} {V : Type ℓ} where
  pub get-put :
      (k j : ℕ) (v : V) (m : OrdMap V) → get j (put k v m) ≡ (if k == j then some v else get j m)
  unfolding get put
  get-put k j v [] = refl
  get-put k j v ((i, w) ∷ m) = ground (arith, get-put k j v m)

  pub get-remove :
      (k j : ℕ) (m : OrdMap V) → get j (remove k m) ≡ (if k == j then none else get j m)
  unfolding get remove
  get-remove k j [] = ground arith
  get-remove k j ((i, w) ∷ m) = ground (arith, get-remove k j m)

  above_mono :
      {i j : ℕ} (m : OrdMap V)
      → i ≤ j
      → All (λ (p : ℕ × V). j < p.0) m
      → All (λ (p : ℕ × V). i < p.0) m
  above_mono [] h a = tt
  above_mono ((k, w) ∷ m) h a = (omega arith, above_mono m h a.1)

  above-put :
      {i k : ℕ} (v : V) (m : OrdMap V)
      → i < k
      → All (λ (p : ℕ × V). i < p.0) m
      → All (λ (p : ℕ × V). i < p.0) (put k v m)
  unfolding put
  above-put v [] h a = (h, tt)
  above-put {i} {k} v ((j, w) ∷ m) h a = ground (arith, above-put {i = i} {k = k} v m h a.1)

  pub put-IsSorted : (k : ℕ) (v : V) (m : OrdMap V) → IsSorted m → IsSorted (put k v m)
  unfolding put
  put-IsSorted k v [] s = (tt, tt)
  put-IsSorted k v ((j, w) ∷ m) s = elim (Bool-cases (ltb k j)) [
    | inl less ↦ rw less ((ltb→lt _ _ less, above_mono m (omega (arith, ltb→lt _ _ less)) s.0), s)
    | inr more ↦ elim (Bool-cases (k == j)) [
      | inl same ↦ rw (more, same) (above_mono m (omega (arith, ==→eq _ _ same)) s.0, s.1)
      | inr other ↦
          rw (more, other) (above-put v m (lt_of_tests more other) s.0, put-IsSorted k v m s.1)
    ]
  ]
    where
      lt_of_tests : {a b : ℕ} → ltb a b ≡ false → (a == b) ≡ false → b < a
      lt_of_tests p q = ground arith

  above-remove :
      (i k : ℕ) (m : OrdMap V)
      → All (λ (p : ℕ × V). i < p.0) m
      → All (λ (p : ℕ × V). i < p.0) (remove k m)
  unfolding remove
  above-remove i k [] a = tt
  above-remove i k ((j, w) ∷ m) a = ground (arith, above-remove i k m a.1)

  pub remove-IsSorted : (k : ℕ) (m : OrdMap V) → IsSorted m → IsSorted (remove k m)
  unfolding remove
  remove-IsSorted k [] s = tt
  remove-IsSorted k ((j, w) ∷ m) s = ground (arith, above-remove j k m s.0, remove-IsSorted k m s.1)

  pub get-map_values :
      (f : V → V) (k : ℕ) (m : OrdMap V)
      → get k (map_values f m) ≡ elim (get k m) [ none ↦ none | some v ↦ some (f v) ]
  unfolding get map_values
  get-map_values f k [] = refl
  get-map_values f k ((j, w) ∷ m) = ground (arith, get-map_values f k m)

  above-map_values :
      (f : V → V) (i : ℕ) (m : OrdMap V)
      → All (λ (p : ℕ × V). i < p.0) m
      → All (λ (p : ℕ × V). i < p.0) (map_values f m)
  unfolding map_values
  above-map_values f i [] a = tt
  above-map_values f i ((j, w) ∷ m) a = (a.0, above-map_values f i m a.1)

  pub map_values-IsSorted : (f : V → V) (m : OrdMap V) → IsSorted m → IsSorted (map_values f m)
  unfolding map_values
  map_values-IsSorted f [] s = tt
  map_values-IsSorted f ((j, w) ∷ m) s = (above-map_values f j m s.0, map_values-IsSorted f m s.1)

  -- A key below every key of the map is not in it.
  pub get_above : (k : ℕ) (m : OrdMap V) → All (λ (p : ℕ × V). k < p.0) m → get k m ≡ none
  unfolding get
  get_above k [] a = refl
  get_above k ((j, w) ∷ m) a = ground (arith, get_above k m a.1)

  pub above-get :
      (i k : ℕ) (v : V) (m : OrdMap V) → All (λ (p : ℕ × V). i < p.0) m → get k m ≡ some v → i < k
  unfolding get
  above-get i k v [] a e = cc
  above-get i k v ((j, w) ∷ m) a e = ground (arith, above-get i k v m a.1)

  module _ (test : V → Bool) where
    pub count-remove-le : (k : ℕ) (m : OrdMap V) → count test (remove k m) ≤ count test m
    unfolding count remove
    count-remove-le k [] = omega arith
    count-remove-le k ((j, w) ∷ m) = ground (arith, count-remove-le k m)

    -- Removing the first key found lowers the count.
    pub count-remove :
        (k : ℕ) (m : OrdMap V) → find_key test m ≡ some k → count test (remove k m) < count test m
    unfolding count remove find_key
    count-remove k [] e = cc
    count-remove k ((j, w) ∷ m) e = ground (arith, count-remove k m, count-remove-le k m)

    pub count-le-length : (m : OrdMap V) → count test m ≤ length m
    unfolding count
    count-le-length [] = omega arith
    count-le-length ((j, w) ∷ m) = ground (arith, count-le-length m)

    -- Where nothing is found nothing is counted.
    pub count-find_key : (m : OrdMap V) → find_key test m ≡ none → count test m ≡ 0
    unfolding count find_key
    count-find_key [] e = refl
    count-find_key ((j, w) ∷ m) e = ground (arith, count-find_key m)

    -- The key found is in the map, its value passes the test.
    pub get-find_key :
        (k : ℕ) (m : OrdMap V)
        → IsSorted m
        → find_key test m ≡ some k
        → (v : V) × (get k m ≡ some v) × (test v ≡ true)
    unfolding find_key get
    get-find_key k [] s e = cc
    get-find_key k ((j, w) ∷ m) s e = elim (Bool-cases (test w)) [
      | inl hit ↦ (w, ground arith, hit)
      | inr miss ↦
          let (v, found, passes) = get-find_key k m s.1 (ground arith) in
          (v, ground (arith, above-get j k v m s.0), passes)
    ]

    -- It is the least such key.
    pub find_key-least :
        (k i : ℕ) (v : V) (m : OrdMap V)
        → IsSorted m
        → find_key test m ≡ some k
        → get i m ≡ some v
        → test v ≡ true
        → k ≤ i
    unfolding find_key get
    find_key-least k i v [] s e g t = cc
    find_key-least k i v ((j, w) ∷ m) s e g t =
        ground (arith, above-get j i v m s.0, find_key-least k i v m s.1)
