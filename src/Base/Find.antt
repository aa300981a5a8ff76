-- ===== src/Base/Find.antt =====
-- The first item of a slice that passes a test: `find`, `position` with `Vec::remove`, and a
-- mutation through `iter_mut().find`.
use mult.Base.{
  ℕ, ◌+◌, ◌≡◌, subst, Bool, true, Option, none, some, List, [], ◌∷◌, ◌++◌, arith, inl, inr,
  Bool-cases, if◌then◌else◌,
}
use mult.Base.OrdSet.Count.{count, count-append, flat}

module _ {ℓ} {A : Type ℓ} where
  unfoldable pub find : (A → Bool) → List A → Option A
  find test [] = none
  find test (x ∷ xs) = if test x then some x else find test xs

  unfoldable pub update_first : (A → Bool) → (A → A) → List A → List A
  update_first test f [] = []
  update_first test f (x ∷ xs) = if test x then f x ∷ xs else x ∷ update_first test f xs

  unfoldable pub remove_first : (A → Bool) → List A → List A
  remove_first test [] = []
  remove_first test (x ∷ xs) = if test x then xs else x ∷ remove_first test xs

  -- `Vec::push`
  abbrev pub push : A → List A → List A
  push x xs = xs ++ x ∷ []

  unfoldable pub last : List A → Option A
  last [] = none
  last (x ∷ []) = some x
  last (x ∷ y ∷ xs) = last (y ∷ xs)

  -- A mutation through `last_mut`.
  unfoldable pub update_last : (A → A) → List A → List A
  update_last f [] = []
  update_last f (x ∷ []) = f x ∷ []
  update_last f (x ∷ y ∷ xs) = x ∷ update_last f (y ∷ xs)

  pub find-test : (test : A → Bool) (x : A) (xs : List A) → find test xs ≡ some x → test x ≡ true
  unfolding find
  find-test test x [] e = absurd (ground arith)
  find-test test x (y ∷ xs) e = elim (Bool-cases (test y)) [
    | inl hit ↦ ground arith
    | inr miss ↦ find-test test x xs (ground arith)
  ]

  find_here :
      (test : A → Bool) (x y : A) (xs : List A)
      → test y ≡ true
      → find test (y ∷ xs) ≡ some x
      → y ≡ x
  unfolding find
  find_here test x y xs hit e = ground (arith, e)

  module _ (numbers : A → List ℕ) (test : A → Bool) where
    -- The numbers of the item that was found count once less, those of the new item once more.
    pub count-update_first :
        (f : A → A) (k : ℕ) (x : A) (xs : List A)
        → find test xs ≡ some x
        → count k (flat numbers (update_first test f xs)) + count k (numbers x)
          ≡ count k (flat numbers xs) + count k (numbers (f x))
    unfolding find update_first
    count-update_first f k x [] e = absurd (ground arith)
    count-update_first f k x (y ∷ xs) e = elim (Bool-cases (test y)) [
      | inl hit ↦
          subst
            (λ z.
              count k (flat numbers (update_first test f (y ∷ xs))) + count k (numbers z)
              ≡ count k (flat numbers (y ∷ xs)) + count k (numbers (f z)))
            (find_here test x y xs hit e)
            (rw hit (
              omega (
                arith,
                count-append k (numbers y) (flat numbers xs),
                count-append k (numbers (f y)) (flat numbers xs),
              )))
      | inr miss ↦ rw miss (
          omega (
            arith,
            count-append k (numbers y) (flat numbers xs),
            count-append k (numbers y) (flat numbers (update_first test f xs)),
            count-update_first f k x xs (ground arith),
          ))
    ]

    pub count-remove_first :
        (k : ℕ) (x : A) (xs : List A)
        → find test xs ≡ some x
        → count k (flat numbers (remove_first test xs)) + count k (numbers x)
          ≡ count k (flat numbers xs)
    unfolding find remove_first
    count-remove_first k x [] e = absurd (ground arith)
    count-remove_first k x (y ∷ xs) e = elim (Bool-cases (test y)) [
      | inl hit ↦
          subst
            (λ z.
              count k (flat numbers (remove_first test (y ∷ xs))) + count k (numbers z)
              ≡ count k (flat numbers (y ∷ xs)))
            (find_here test x y xs hit e)
            (rw hit (omega (arith, count-append k (numbers y) (flat numbers xs))))
      | inr miss ↦ rw miss (
          omega (
            arith,
            count-append k (numbers y) (flat numbers xs),
            count-append k (numbers y) (flat numbers (remove_first test xs)),
            count-remove_first k x xs (ground arith),
          ))
    ]
