-- ===== src/Base/OrdSet.antt =====
-- The standard library's `BTreeSet` of numbers: a list, ascending.
pub mod Pigeonhole
pub mod Count
use mult.Base.{
  ℕ, zero, suc, ◌+◌, ◌≤◌, ◌<◌, ◌≡◌, refl, ◌∙◌, ap, subst, sym, ◌⊎◌, Bool, true, false, inl, inr,
  Option, none, some, List, [], ◌∷◌, ◌++◌, arith, Bool-cases, Bool-clash, All, ltb, leb, ◌==◌,
  if◌then◌else◌, ==→eq, ==-self, ltb→lt, length, ◌&&◌, length-append,
}

-- Of a slice and of a set.
unfoldable pub contains : ℕ → List ℕ → Bool
contains k [] = false
contains k (j ∷ s) = if j == k then true else contains k s

unfoldable pub insert : ℕ → List ℕ → List ℕ
insert k [] = k ∷ []
insert k (j ∷ s) = if ltb k j then k ∷ j ∷ s else if k == j then j ∷ s else j ∷ insert k s

-- `collect` into a set.
unfoldable pub of_list : List ℕ → List ℕ
of_list [] = []
of_list (x ∷ xs) = insert x (of_list xs)

-- `range` of the closed interval from `first` to `last`.
unfoldable pub range : ℕ → ℕ → List ℕ → List ℕ
range first last [] = []
range first last (j ∷ s) =
    let rest = range first last s in if leb first j && leb j last then j ∷ rest else rest

-- `next_back` of an iterator.
unfoldable pub next_back : List ℕ → Option ℕ
next_back [] = none
next_back (j ∷ []) = some j
next_back (j ∷ k ∷ s) = next_back (k ∷ s)

abbrev pub IsSorted : List ℕ → Type 0
IsSorted [] = Unit
IsSorted (j ∷ s) = All (λ k. j < k) s × IsSorted s

abbrev pub IsUnique : List ℕ → Type 0
IsUnique [] = Unit
IsUnique (x ∷ xs) = (contains x xs ≡ false) × IsUnique xs

-- Every member of the one is a member of the other.
abbrev pub IsWithin : List ℕ → List ℕ → Type 0
IsWithin xs ys = (k : ℕ) → contains k xs ≡ true → contains k ys ≡ true

pub contains-insert :
    (k j : ℕ) (s : List ℕ) → contains j (insert k s) ≡ (if k == j then true else contains j s)
unfolding contains insert
contains-insert k j [] = refl
contains-insert k j (i ∷ s) = ground (arith, contains-insert k j s)

pub contains-append :
    (k : ℕ) (xs ys : List ℕ)
    → contains k (xs ++ ys) ≡ (if contains k xs then true else contains k ys)
unfolding contains
contains-append k [] ys = refl
contains-append k (x ∷ xs) ys = ground (arith, contains-append k xs ys)

pub contains-of_list : (k : ℕ) (xs : List ℕ) → contains k (of_list xs) ≡ contains k xs
unfolding contains of_list
contains-of_list k [] = refl
contains-of_list k (x ∷ xs) =
    ground (arith, contains-insert x k (of_list xs), contains-of_list k xs)

pub above_mono : {i j : ℕ} (s : List ℕ) → i ≤ j → All (λ k. j < k) s → All (λ k. i < k) s
above_mono [] h a = tt
above_mono (k ∷ s) h a = (omega arith, above_mono s h a.1)

above-insert : {i k : ℕ} (s : List ℕ) → i < k → All (λ n. i < n) s → All (λ n. i < n) (insert k s)
unfolding insert
above-insert [] h a = (h, tt)
above-insert {i} {k} (j ∷ s) h a = ground (arith, above-insert {i = i} {k = k} s h a.1)

pub insert-IsSorted : (k : ℕ) (s : List ℕ) → IsSorted s → IsSorted (insert k s)
unfolding insert
insert-IsSorted k [] s = (tt, tt)
insert-IsSorted k (j ∷ m) s = elim (Bool-cases (ltb k j)) [
  | inl less ↦ rw less ((ltb→lt _ _ less, above_mono m (omega (arith, ltb→lt _ _ less)) s.0), s)
  | inr more ↦ elim (Bool-cases (k == j)) [
    | inl same ↦ rw (more, same) s
    | inr other ↦
        rw (more, other) (above-insert m (lt_of_tests more other) s.0, insert-IsSorted k m s.1)
  ]
]
  where
    lt_of_tests : {a b : ℕ} → ltb a b ≡ false → (a == b) ≡ false → b < a
    lt_of_tests p q = ground arith

pub of_list-IsSorted : (xs : List ℕ) → IsSorted (of_list xs)
unfolding of_list
of_list-IsSorted [] = tt
of_list-IsSorted (x ∷ xs) = insert-IsSorted x (of_list xs) (of_list-IsSorted xs)

-- What stands below a set is not in it.
pub contains_above : (k : ℕ) (s : List ℕ) → All (λ n. k < n) s → contains k s ≡ false
unfolding contains
contains_above k [] a = refl
contains_above k (j ∷ s) a = ground (arith, contains_above k s a.1)

pub above-contains : (i k : ℕ) (s : List ℕ) → All (λ n. i < n) s → contains k s ≡ true → i < k
unfolding contains
above-contains i k [] a e = absurd (ground arith)
above-contains i k (j ∷ s) a e = ground (arith, above-contains i k s a.1)

pub IsSorted-IsUnique : (s : List ℕ) → IsSorted s → IsUnique s
IsSorted-IsUnique [] u = tt
IsSorted-IsUnique (j ∷ s) u = (contains_above j s u.0, IsSorted-IsUnique s u.1)

pub length-insert :
    (k : ℕ) (s : List ℕ)
    → IsSorted s
    → length (insert k s) ≡ (if contains k s then length s else suc (length s))
unfolding insert contains
length-insert k [] u = refl
length-insert k (j ∷ s) u = elim (Bool-cases (ltb k j)) [
  | inl less ↦
      ground (arith, contains_above k s (above_mono s (omega (arith, ltb→lt k j less)) u.0))
  | inr more ↦ ground (arith, length-insert k s u.1)
]

pub length-of_list-le : (xs : List ℕ) → length (of_list xs) ≤ length xs
unfolding of_list
length-of_list-le [] = omega arith
length-of_list-le (x ∷ xs) =
    ground (arith, length-insert x (of_list xs) (of_list-IsSorted xs), length-of_list-le xs)

-- A list has as many items as its set just where no item stands in it twice.
pub length-of_list→IsUnique : (xs : List ℕ) → length (of_list xs) ≡ length xs → IsUnique xs
unfolding of_list
length-of_list→IsUnique [] e = tt
length-of_list→IsUnique (x ∷ xs) e = elim (Bool-cases (contains x (of_list xs))) [
  | inl old ↦
      absurd
        (ground (arith, length-insert x (of_list xs) (of_list-IsSorted xs), length-of_list-le xs))
  | inr fresh ↦ (
    sym (contains-of_list x xs) ∙ fresh,
    length-of_list→IsUnique xs (ground (arith, length-insert x (of_list xs) (of_list-IsSorted xs))),
  )
]

pub IsUnique→length-of_list : (xs : List ℕ) → IsUnique xs → length (of_list xs) ≡ length xs
unfolding of_list
IsUnique→length-of_list [] u = refl
IsUnique→length-of_list (x ∷ xs) u = ground (
  arith,
  length-insert x (of_list xs) (of_list-IsSorted xs),
  contains-of_list x xs,
  u.0,
  IsUnique→length-of_list xs u.1,
)

pub contains-range :
    (first last k : ℕ) (s : List ℕ)
    → contains k (range first last s) ≡ (if leb first k && leb k last then contains k s else false)
unfolding contains range
contains-range first last k [] = ground arith
contains-range first last k (j ∷ s) = ground (arith, contains-range first last k s)

above-range :
    (i first last : ℕ) (s : List ℕ) → All (λ n. i < n) s → All (λ n. i < n) (range first last s)
unfolding range
above-range i first last [] a = tt
above-range i first last (j ∷ s) a = ground (arith, above-range i first last s a.1)

pub range-IsSorted : (first last : ℕ) (s : List ℕ) → IsSorted s → IsSorted (range first last s)
unfolding range
range-IsSorted first last [] u = tt
range-IsSorted first last (j ∷ s) u =
    ground (arith, above-range j first last s u.0, range-IsSorted first last s u.1)

pub range-All :
    (first last : ℕ) (s : List ℕ) → All (λ k. (first ≤ k) × (k ≤ last)) (range first last s)
unfolding range
range-All first last [] = tt
range-All first last (j ∷ s) = elim (Bool-cases (leb first j && leb j last)) [
  | inl inside ↦ rw inside (ground arith, range-All first last s)
  | inr outside ↦ rw outside (range-All first last s)
]

-- The last number of a set is its greatest.
pub next_back-greatest :
    (s : List ℕ) (m k : ℕ) → IsSorted s → next_back s ≡ some m → contains k s ≡ true → k ≤ m
unfolding next_back contains
next_back-greatest [] m k u e c = absurd (ground arith)
next_back-greatest (j ∷ []) m k u e c = ground arith
next_back-greatest (j ∷ i ∷ s) m k u e c = elim (Bool-cases (j == k)) [
  | inl same ↦ omega (arith, ==→eq j k same, u.0.0, next_back-greatest (i ∷ s) m i u.1 e (self i s))
  | inr other ↦ next_back-greatest (i ∷ s) m k u.1 e (ground arith)
]
  where
    self : (i : ℕ) (s : List ℕ) → contains i (i ∷ s) ≡ true
    self i s = unfold contains in rw (==-self i) refl

pub next_back_member : (s : List ℕ) (m : ℕ) → next_back s ≡ some m → contains m s ≡ true
unfolding next_back contains
next_back_member [] m e = absurd (ground arith)
next_back_member (j ∷ []) m e = ground arith
next_back_member (j ∷ i ∷ s) m e = ground (arith, next_back_member (i ∷ s) m e)
