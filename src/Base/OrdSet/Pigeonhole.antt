-- ===== src/Base/OrdSet/Pigeonhole.antt =====
-- How long a list must be that holds given numbers.
use mult.Base.{
  ℕ, zero, suc, ◌+◌, ◌≤◌, ◌<◌, ◌≡◌, refl, ap, subst, true, false, inl, inr, List, [], ◌∷◌, arith,
  Bool-cases, Bool-clash, ◌==◌, if◌then◌else◌, ==→eq, ==-self, length,
}
use mult.Base.OrdSet.{contains, IsUnique, IsWithin}

-- A list without repetitions is no longer than a list that holds it.
delete : ℕ → List ℕ → List ℕ
delete k [] = []
delete k (j ∷ s) = let rest = delete k s in if j == k then s else j ∷ rest

length-delete : (k : ℕ) (s : List ℕ) → contains k s ≡ true → length s ≡ suc (length (delete k s))
unfolding contains delete
length-delete k [] e = absurd (ground arith)
length-delete k (j ∷ s) e = ground (arith, length-delete k s)

contains-delete :
    (k i : ℕ) (s : List ℕ) → (k == i) ≡ false → contains i s ≡ true → contains i (delete k s) ≡ true
unfolding contains delete
contains-delete k i [] n e = e
contains-delete k i (j ∷ s) n e = ground (arith, contains-delete k i s n)

pub length-IsWithin : (xs ys : List ℕ) → IsUnique xs → IsWithin xs ys → length xs ≤ length ys
length-IsWithin [] ys u h = omega arith
length-IsWithin (x ∷ xs) ys u h = omega (
  arith,
  length-delete x ys (h x (first x xs)),
  length-IsWithin xs (delete x ys) u.1
      (λ k there. contains-delete x k ys (other k there u.0) (h k (later k x xs there))),
)
  where
    first : (x : ℕ) (xs : List ℕ) → contains x (x ∷ xs) ≡ true
    first x xs = unfold contains in rw (==-self x) refl

    later : (k x : ℕ) (xs : List ℕ) → contains k xs ≡ true → contains k (x ∷ xs) ≡ true
    later k x xs there = unfold contains in ground arith

    other : (k : ℕ) → contains k xs ≡ true → contains x xs ≡ false → (x == k) ≡ false
    other k there gone = elim (Bool-cases (x == k)) [
      | inl same ↦
          absurd (Bool-clash there (subst (λ t. contains t xs ≡ false) (==→eq x k same) gone))
      | inr differ ↦ differ
    ]

-- A list that holds each of `n` numbers in a row has `n` items at least.
numbers : ℕ → ℕ → List ℕ
numbers first zero = []
numbers first (suc n) = first ∷ numbers (suc first) n

length-numbers : (first n : ℕ) → length (numbers first n) ≡ n
unfolding numbers
length-numbers first zero = refl
length-numbers first (suc n) = ap suc (length-numbers (suc first) n)

numbers_within :
    (first n k : ℕ) → contains k (numbers first n) ≡ true → (first ≤ k) × (k < first + n)
unfolding numbers contains
numbers_within first zero k e = absurd (ground arith)
numbers_within first (suc n) k e = elim (Bool-cases (first == k)) [
  | inl same ↦ ground arith
  | inr other ↦ ground (arith, numbers_within (suc first) n k)
]

numbers-IsUnique : (first n : ℕ) → IsUnique (numbers first n)
unfolding numbers
numbers-IsUnique first zero = tt
numbers-IsUnique first (suc n) = (
  elim (Bool-cases (contains first (numbers (suc first) n))) [
    | inl old ↦ absurd (omega (arith, (numbers_within (suc first) n first old).0))
    | inr fresh ↦ fresh
  ],
  numbers-IsUnique (suc first) n,
)

pub length-interval :
    (first n : ℕ) (s : List ℕ)
    → ((k : ℕ) → first ≤ k → k < first + n → contains k s ≡ true)
    → n ≤ length s
length-interval first n s h =
    subst (λ m. m ≤ length s) (length-numbers first n)
      (length-IsWithin (numbers first n) s (numbers-IsUnique first n)
        (λ k there. let (low, high) = numbers_within first n k there in h k low high))
