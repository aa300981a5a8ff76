-- ===== src/Base/Map.antt =====
-- Maps and sets whose order is not observed, over keys with an equality test.
use mult.Base.{
  ◌≡◌, refl, sym, ◌∙◌, subst, Bool, true, false, ◌⊎◌, inl, inr, Option, none, some, List, [], ◌∷◌,
  arith, Bool-cases, if◌then◌else◌,
}
use mult.Base.Equality.{Eq, ◌=?◌, =?-self, =?→eq}

abbrev pub Map {ℓ κ} : Type ℓ → Type κ → Type (ℓ ⊔ κ)
Map K V = List (K × V)

module _ {ℓ κ} {K : Type ℓ} {V : Type κ} ⦃e : Eq K⦄ where
  unfoldable pub get : K → Map K V → Option V
  get k [] = none
  get k ((j, w) ∷ m) = if j =? k then some w else get k m

  unfoldable pub put : K → V → Map K V → Map K V
  put k v [] = (k, v) ∷ []
  put k v ((j, w) ∷ m) = if j =? k then (k, v) ∷ m else (j, w) ∷ put k v m

  unfoldable pub remove : K → Map K V → Map K V
  remove k [] = []
  remove k ((j, w) ∷ m) = let rest = remove k m in if j =? k then rest else (j, w) ∷ rest

  -- `retain`, by a test of the value.
  unfoldable pub retain : (V → Bool) → Map K V → Map K V
  retain test [] = []
  retain test ((j, w) ∷ m) = let rest = retain test m in if test w then (j, w) ∷ rest else rest

  pub get-put :
      (k j : K) (v : V) (m : Map K V) → get j (put k v m) ≡ (if k =? j then some v else get j m)
  unfolding get put
  get-put k j v [] = refl
  get-put k j v ((i, w) ∷ m) =
      ground (arith, get-put k j v m, e.beq_iff i k, e.beq_iff i j, e.beq_iff k j)

  pub get-remove : (k j : K) (m : Map K V) → get j (remove k m) ≡ (if k =? j then none else get j m)
  unfolding get remove
  get-remove k j [] = ground arith
  get-remove k j ((i, w) ∷ m) =
      ground (arith, get-remove k j m, e.beq_iff i k, e.beq_iff i j, e.beq_iff k j)

module _ {ℓ} {K : Type ℓ} ⦃e : Eq K⦄ where
  unfoldable pub has : K → List K → Bool
  has k [] = false
  has k (j ∷ s) = if j =? k then true else has k s

  -- `BTreeSet::insert`; the key is added once.
  unfoldable pub add : K → List K → List K
  add k s = if has k s then s else k ∷ s

  unfoldable pub delete : K → List K → List K
  delete k [] = []
  delete k (j ∷ s) = let rest = delete k s in if j =? k then rest else j ∷ rest

  pub has-add : (k j : K) (s : List K) → has j (add k s) ≡ (if k =? j then true else has j s)
  unfolding add has
  has-add k j s = elim (Bool-cases (has k s)) [
    | inl old ↦ elim (Bool-cases (k =? j)) [
      | inl same ↦ rw (old, same) (subst (λ t. has t s ≡ true) (=?→eq k j same) old)
      | inr other ↦ rw (old, other) refl
    ]
    | inr fresh ↦ rw fresh refl
  ]

  pub has-delete : (k j : K) (s : List K) → has j (delete k s) ≡ (if k =? j then false else has j s)
  unfolding delete has
  has-delete k j [] = ground arith
  has-delete k j (i ∷ s) =
      ground (arith, has-delete k j s, e.beq_iff i k, e.beq_iff i j, e.beq_iff k j)

module _ {ℓ κ} {K : Type ℓ} {V : Type κ} ⦃e : Eq K⦄ where
  -- No key twice.
  abbrev pub IsMap : Map K V → Type κ
  IsMap [] = Unit
  IsMap ((k, v) ∷ m) = (get k m ≡ none) × IsMap m

  pub put-IsMap : (k : K) (v : V) (m : Map K V) → IsMap m → IsMap (put k v m)
  unfolding put
  put-IsMap k v [] u = (unfold get in refl, tt)
  put-IsMap k v ((j, w) ∷ m) u = elim (Bool-cases (j =? k)) [
    | inl same ↦ rw same (subst (λ t. get t m ≡ none) (=?→eq j k same) u.0, u.1)
    | inr other ↦ rw other (absent j k v w m other u.0, put-IsMap k v m u.1)
  ]
    where
      absent :
          (j k : K) (v w : V) (m : Map K V)
          → (j =? k) ≡ false
          → get j m ≡ none
          → get j (put k v m) ≡ none
      absent j k v w m other u = ground (arith, get-put k j v m, e.beq_iff j k, e.beq_iff k j)

  pub get-retain-none :
      (test : V → Bool) (k : K) (m : Map K V) → get k m ≡ none → get k (retain test m) ≡ none
  unfolding get retain
  get-retain-none test k [] h = refl
  get-retain-none test k ((j, w) ∷ m) h = ground (arith, get-retain-none test k m)

  pub retain-IsMap : (test : V → Bool) (m : Map K V) → IsMap m → IsMap (retain test m)
  unfolding retain
  retain-IsMap test [] u = tt
  retain-IsMap test ((j, w) ∷ m) u =
      ground (arith, get-retain-none test j m u.0, retain-IsMap test m u.1)

  -- What is retained was there and passes the test.
  pub get-retain :
      (test : V → Bool) (k : K) (v : V) (m : Map K V)
      → IsMap m
      → get k (retain test m) ≡ some v
      → (get k m ≡ some v) × (test v ≡ true)
  unfolding get retain
  get-retain test k v [] u h = absurd (ground arith)
  get-retain test k v ((j, w) ∷ m) u h = elim (Bool-cases (j =? k)) [
    | inl same ↦ elim (Bool-cases (test w)) [
      | inl keep ↦ (ground arith, ground arith)
      | inr gone ↦ absurd (
          missing (get-retain-none test j m u.0)
            (subst (λ t. get t (retain test m) ≡ some v) (sym (=?→eq j k same)) (ground arith)))
    ]
    | inr other ↦ let rest = get-retain test k v m u.1 in ground (arith, rest)
  ]
    where
      missing : {o : Option V} → o ≡ none → o ≡ some v → ⊥
      missing a b = cc

  -- What passes the test is retained.
  pub retain-get :
      (test : V → Bool) (k : K) (v : V) (m : Map K V)
      → get k m ≡ some v
      → test v ≡ true
      → get k (retain test m) ≡ some v
  unfolding get retain
  retain-get test k v [] h t = absurd (ground arith)
  retain-get test k v ((j, w) ∷ m) h t = ground (arith, retain-get test k v m)

  pub get-put_self : (k : K) (v : V) (m : Map K V) → get k (put k v m) ≡ some v
  get-put_self k v m = get-put k k v m ∙ rw (=?-self k) refl

  -- What is found after a write is what was written, or was there.
  pub put_inv :
      (k j : K) (v w : V) (m : Map K V)
      → get j (put k v m) ≡ some w
      → ((k ≡ j) × (v ≡ w)) ⊎ (((k =? j) ≡ false) × (get j m ≡ some w))
  put_inv k j v w m h = elim (Bool-cases (k =? j)) [
    | inl same ↦ inl (=?→eq k j same, ground (arith, get-put k j v m))
    | inr other ↦ inr (other, ground (arith, get-put k j v m))
  ]

  -- A write under a new key leaves what is there.
  pub put_fresh :
      (k j : K) (v w : V) (m : Map K V)
      → get k m ≡ none
      → get j m ≡ some w
      → get j (put k v m) ≡ some w
  put_fresh k j v w m fresh there = elim (Bool-cases (k =? j)) [
    | inl same ↦ absurd (clash (subst (λ t. get t m ≡ none) (=?→eq k j same) fresh) there)
    | inr other ↦ get-put k j v m ∙ rw other there
  ]
    where
      clash : {o : Option V} → o ≡ none → o ≡ some w → ⊥
      clash a b = cc
