-- ===== src/Base/Chunks.antt =====
-- The standard library's `slice::chunks`: consecutive pieces of `size`, the last one shorter.
use mult.Base.{
  ℕ, zero, suc, ◌+◌, ◌-◌, ◌*◌, ◌≤◌, ◌<◌, ◌≡◌, refl, ap, ◌∙◌, inl, inr, Bool-cases, ltb, ltb→lt,
  ltb_false→le, List, [], ◌∷◌, ◌++◌, arith, length, take, drop, concat, All, length-take,
  length-drop, take-append-drop, take-all, drop-all, take-append_exact, drop-append_ge,
}

module _ {ℓ} {A : Type ℓ} where
  -- The fuel is the number of elements at most: each piece takes one at least.
  pub pieces : ℕ → ℕ → List A → List (List A)
  pieces zero size xs = []
  pieces (suc fuel) size [] = []
  pieces (suc fuel) size (x ∷ xs) = take size (x ∷ xs) ∷ pieces fuel size (drop size (x ∷ xs))

  unfoldable pub chunks_of : ℕ → List A → List (List A)
  unfolding pieces
  chunks_of size xs = pieces (length xs) size xs

product_below : (k size : ℕ) → k * size < size → k * size ≡ 0
product_below zero size h = omega arith
product_below (suc k) size h = absurd (omega arith)

one_more :
    (k d l size : ℕ)
    → d ≡ l - size
    → 0 < l
    → (d ≤ k * size) × (k * size < d + size)
    → (l ≤ suc k * size) × (suc k * size < l + size)
one_more k d l size e p (lo, hi) = elim (Bool-cases (ltb size l)) [
  | inl more ↦ omega (arith, ltb→lt _ _ more)
  | inr less ↦
      omega
        (arith, ltb_false→le _ _ less, product_below k size (omega (arith, ltb_false→le _ _ less)))
]

module _ {ℓ} {A : Type ℓ} where
  pieces-enough :
      (f g size : ℕ) (xs : List A)
      → 0 < size
      → length xs ≤ f
      → length xs ≤ g
      → pieces f size xs ≡ pieces g size xs
  unfolding pieces
  pieces-enough zero zero size xs p hf hg = refl
  pieces-enough zero (suc g) size [] p hf hg = refl
  pieces-enough zero (suc g) size (x ∷ xs) p hf hg = absurd (omega arith)
  pieces-enough (suc f) zero size [] p hf hg = refl
  pieces-enough (suc f) zero size (x ∷ xs) p hf hg = absurd (omega arith)
  pieces-enough (suc f) (suc g) size [] p hf hg = refl
  pieces-enough (suc f) (suc g) size (x ∷ xs) p hf hg =
      ap (λ t. take size (x ∷ xs) ∷ t)
        (pieces-enough f g size (drop size (x ∷ xs)) p (omega (arith, length-drop size (x ∷ xs)))
          (omega (arith, length-drop size (x ∷ xs))))

  pub chunks_of-nil : (size : ℕ) → chunks_of {A = A} size [] ≡ []
  unfolding chunks_of
  chunks_of-nil size = refl

  pub chunks_of-cons :
      (size : ℕ) (x : A) (xs : List A)
      → 0 < size
      → chunks_of size (x ∷ xs) ≡ take size (x ∷ xs) ∷ chunks_of size (drop size (x ∷ xs))
  unfolding chunks_of
  chunks_of-cons size x xs p =
      ap (λ t. take size (x ∷ xs) ∷ t)
        (pieces-enough _ _ size (drop size (x ∷ xs)) p (omega (arith, length-drop size (x ∷ xs)))
          (omega arith))

  -- A full piece in front is a piece.
  pub chunks_of-append :
      (size : ℕ) (a b : List A)
      → 0 < size
      → length a ≡ size
      → chunks_of size (a ++ b) ≡ a ∷ chunks_of size b
  chunks_of-append size [] b p h = absurd (omega arith)
  chunks_of-append size (x ∷ a) b p h =
      chunks_of-cons size x (a ++ b) p
      ∙ rw
          (
            take-append_exact size (x ∷ a) b h,
            drop-append_ge size (x ∷ a) b (omega arith),
            h,
            minus_self size,
          )
          refl
    where
      minus_self : (n : ℕ) → n - n ≡ 0
      minus_self n = omega arith

  -- What is left over is the last piece.
  pub chunks_of-short :
      (size : ℕ) (a : List A) → 0 < length a → length a ≤ size → chunks_of size a ≡ a ∷ []
  chunks_of-short size [] p h = absurd (omega arith)
  chunks_of-short size (x ∷ a) p h =
      chunks_of-cons size x a (omega arith)
      ∙ rw (take-all size (x ∷ a) h, drop-all size (x ∷ a) h, chunks_of-nil size) refl

  concat-pieces :
      (f size : ℕ) (xs : List A) → 0 < size → length xs ≤ f → concat (pieces f size xs) ≡ xs
  unfolding pieces
  concat-pieces zero size [] p h = refl
  concat-pieces zero size (x ∷ xs) p h = absurd (omega arith)
  concat-pieces (suc f) size [] p h = refl
  concat-pieces (suc f) size (x ∷ xs) p h =
      rw (concat-pieces f size (drop size (x ∷ xs)) p (omega (arith, length-drop size (x ∷ xs))))
        (take-append-drop size (x ∷ xs))

  -- The pieces put together are the list.
  pub concat-chunks_of : (size : ℕ) (xs : List A) → 0 < size → concat (chunks_of size xs) ≡ xs
  unfolding chunks_of
  concat-chunks_of size xs p = concat-pieces (length xs) size xs p (omega arith)

  abbrev pub IsPiece : ℕ → List A → Type 0
  IsPiece size c = (0 < length c) × (length c ≤ size)

  pieces-IsPiece : (f size : ℕ) (xs : List A) → 0 < size → All (IsPiece size) (pieces f size xs)
  unfolding pieces
  pieces-IsPiece zero size xs p = tt
  pieces-IsPiece (suc f) size [] p = tt
  pieces-IsPiece (suc f) size (x ∷ xs) p =
      (omega (arith, length-take size (x ∷ xs)), pieces-IsPiece f size (drop size (x ∷ xs)) p)

  -- No piece is empty or longer than `size`.
  pub chunks_of-IsPiece :
      (size : ℕ) (xs : List A) → 0 < size → All (IsPiece size) (chunks_of size xs)
  unfolding chunks_of
  chunks_of-IsPiece size xs p = pieces-IsPiece (length xs) size xs p

  length-pieces :
      (f size : ℕ) (xs : List A)
      → 0 < size
      → length xs ≤ f
      → (length xs ≤ length (pieces f size xs) * size)
        × (length (pieces f size xs) * size < length xs + size)
  unfolding pieces
  length-pieces zero size [] p h = (omega arith, omega arith)
  length-pieces zero size (x ∷ xs) p h = absurd (omega arith)
  length-pieces (suc f) size [] p h = (omega arith, omega arith)
  length-pieces (suc f) size (x ∷ xs) p h =
      one_more (length (pieces f size (drop size (x ∷ xs)))) _ (suc (length xs)) size
        (length-drop size (x ∷ xs)) (omega arith)
        (length-pieces f size (drop size (x ∷ xs)) p (omega (arith, length-drop size (x ∷ xs))))

  -- There are as many pieces as the elements need, and no more: the quotient rounded up.
  pub length-chunks_of :
      (size : ℕ) (xs : List A)
      → 0 < size
      → (length xs ≤ length (chunks_of size xs) * size)
        × (length (chunks_of size xs) * size < length xs + size)
  unfolding chunks_of
  length-chunks_of size xs p = length-pieces (length xs) size xs p (omega arith)
