-- ===== src/Base/OrdSet/Count.antt =====
-- How often a number stands in a list: uniqueness and membership by counting.
use mult.Base.{
  map, concat, ℕ, ◌+◌, ◌≤◌, ◌≡◌, refl, ◌∙◌, ap, subst, sym, false, inl, inr, List, [], ◌∷◌, ◌++◌,
  arith, Bool-cases, ltb, ◌==◌, if◌then◌else◌, ==→eq, ==-self,
}
use mult.Base.OrdSet.{contains, IsUnique}

abbrev pub count : ℕ → List ℕ → ℕ
count k [] = 0
count k (x ∷ xs) = (if x == k then 1 else 0) + count k xs

pub count-append : (k : ℕ) (xs ys : List ℕ) → count k (xs ++ ys) ≡ count k xs + count k ys
count-append k [] ys = omega arith
count-append k (x ∷ xs) ys = omega (arith, count-append k xs ys)

pub contains-count : (k : ℕ) (xs : List ℕ) → contains k xs ≡ ltb 0 (count k xs)
unfolding contains
contains-count k [] = refl
contains-count k (x ∷ xs) = ground (arith, contains-count k xs)

pub IsUnique→count : (k : ℕ) (xs : List ℕ) → IsUnique xs → count k xs ≤ 1
IsUnique→count k [] u = omega arith
IsUnique→count k (x ∷ xs) u = elim (Bool-cases (x == k)) [
  | inl same ↦
      ground (arith, contains-count k xs, subst (λ n. contains n xs ≡ false) (==→eq x k same) u.0)
  | inr other ↦ ground (arith, IsUnique→count k xs u.1)
]

pub count→IsUnique : (xs : List ℕ) → ((k : ℕ) → count k xs ≤ 1) → IsUnique xs
count→IsUnique [] h = tt
count→IsUnique (x ∷ xs) h = (
  ground (arith, h x, contains-count x xs, ==-self x),
  count→IsUnique xs (λ k. ground (arith, h k)),
)

-- The numbers that stand in the lists of the items.
abbrev pub flat {ℓ} : {A : Type ℓ} → (A → List ℕ) → List A → List ℕ
flat f [] = []
flat f (x ∷ xs) = f x ++ flat f xs

pub flat_single {ℓ} : {A : Type ℓ} (f : A → ℕ) (xs : List A) → flat (λ x. f x ∷ []) xs ≡ map f xs
flat_single f [] = refl
flat_single f (x ∷ xs) = ap (λ l. f x ∷ l) (flat_single f xs)

pub flat-concat {ℓ} : {A : Type ℓ} (f : A → List ℕ) (xs : List A) → flat f xs ≡ concat (map f xs)
flat-concat f [] = refl
flat-concat f (x ∷ xs) = ap (λ l. f x ++ l) (flat-concat f xs)

-- What depends on a view of the items is the same when the views are.
pub map_view {ℓ κ μ} :
    {A : Type ℓ} {B : Type κ} {C : Type μ} (view : A → B) (f : B → C) (xs ys : List A)
    → map view ys ≡ map view xs
    → map (λ x. f (view x)) ys ≡ map (λ x. f (view x)) xs
map_view {A = A} view f xs ys e = sym (fuse ys) ∙ ap (map f) e ∙ fuse xs
  where
    fuse : (l : List A) → map f (map view l) ≡ map (λ x. f (view x)) l
    fuse [] = refl
    fuse (x ∷ l) = ap (λ t. f (view x) ∷ t) (fuse l)

pub flat_view {ℓ κ} :
    {A : Type ℓ} {B : Type κ} (view : A → B) (f : B → List ℕ) (xs ys : List A)
    → map view ys ≡ map view xs
    → flat (λ x. f (view x)) ys ≡ flat (λ x. f (view x)) xs
flat_view view f xs ys e =
    flat-concat (λ x. f (view x)) ys
    ∙ ap concat (map_view view f xs ys e)
    ∙ sym (flat-concat (λ x. f (view x)) xs)
