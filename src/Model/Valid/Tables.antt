-- ===== src/Model/Valid/Tables.antt =====
-- src/model.rs: the tables of tokens and generations under insertion and removal.
use mult.Base.{
  ℕ, ◌+◌, ◌≤◌, ◌≡◌, refl, true, false, List, [], ◌∷◌, arith, inl, inr, Bool-cases, ◌==◌,
  if◌then◌else◌,
}
use mult.Base.OrdSet.{contains, IsUnique}
use mult.Base.OrdSet.Count.{count, contains-count, IsUnique→count, count→IsUnique}
use mult.Base.OrdMap
use mult.Base.OrdMap.{OrdMap, put, remove, remove-IsSorted}
use mult.Model.State.{values}
use mult.Model.Validate.{keys}
use mult.Model.Sessions.{remove_all}
use mult.Model.Valid.{IsTableOf, AreDurable}

pub contains-keys-put :
    (k j v : ℕ) (m : OrdMap ℕ)
    → contains j (keys (put k v m)) ≡ (if k == j then true else contains j (keys m))
unfolding contains put
contains-keys-put k j v [] = ground arith
contains-keys-put k j v ((i, w) ∷ m) = ground (arith, contains-keys-put k j v m)

pub contains-keys-remove :
    (k j : ℕ) (m : OrdMap ℕ)
    → contains j (keys (remove k m)) ≡ (if k == j then false else contains j (keys m))
unfolding contains remove
contains-keys-remove k j [] = ground arith
contains-keys-remove k j ((i, w) ∷ m) = ground (arith, contains-keys-remove k j m)

pub contains-keys-remove_all :
    (ids : List ℕ) (j : ℕ) (m : OrdMap ℕ)
    → contains j (keys (remove_all ids m)) ≡ (if contains j ids then false else contains j (keys m))
unfolding contains remove_all
contains-keys-remove_all [] j m = refl
contains-keys-remove_all (id ∷ ids) j m =
    ground (arith, contains-keys-remove_all ids j (remove id m), contains-keys-remove id j m)

pub remove_all-IsSorted :
    (ids : List ℕ) (m : OrdMap ℕ) → OrdMap.IsSorted m → OrdMap.IsSorted (remove_all ids m)
unfolding remove_all
remove_all-IsSorted [] m s = s
remove_all-IsSorted (id ∷ ids) m s = remove_all-IsSorted ids (remove id m) (remove-IsSorted id m s)

-- A value counts once more when it is inserted under a new key.
pub count-values-put :
    (k v n : ℕ) (m : OrdMap ℕ)
    → contains k (keys m) ≡ false
    → count n (values (put k v m)) ≡ count n (values m) + (if v == n then 1 else 0)
unfolding contains put
count-values-put k v n [] fresh = omega arith
count-values-put k v n ((i, w) ∷ m) fresh = ground (arith, count-values-put k v n m)

pub count-values-put_le :
    (k v n : ℕ) (m : OrdMap ℕ)
    → count n (values (put k v m)) ≤ count n (values m) + (if v == n then 1 else 0)
unfolding put
count-values-put_le k v n [] = omega arith
count-values-put_le k v n ((i, w) ∷ m) = ground (arith, count-values-put_le k v n m)

pub count-values-remove_le :
    (k n : ℕ) (m : OrdMap ℕ) → count n (values (remove k m)) ≤ count n (values m)
unfolding remove
count-values-remove_le k n [] = omega arith
count-values-remove_le k n ((i, w) ∷ m) = ground (arith, count-values-remove_le k n m)

pub count-values-remove_all_le :
    (ids : List ℕ) (n : ℕ) (m : OrdMap ℕ) → count n (values (remove_all ids m)) ≤ count n (values m)
unfolding remove_all
count-values-remove_all_le [] n m = omega arith
count-values-remove_all_le (id ∷ ids) n m =
    omega (arith, count-values-remove_all_le ids n (remove id m), count-values-remove_le id n m)

-- How the numbers of a kind of session change: some are gone, some are new.
abbrev pub Changes : List ℕ → List ℕ → List ℕ → List ℕ → Type 0
Changes old gone new now = (k : ℕ) → count k now + count k gone ≡ count k old + count k new

-- New numbers that are fresh and not repeated keep the numbers unique.
pub Changes-IsUnique :
    (old gone new now : List ℕ)
    → Changes old gone new now
    → IsUnique old
    → IsUnique new
    → ((k : ℕ) → contains k new ≡ true → contains k old ≡ false)
    → IsUnique now
Changes-IsUnique old gone new now c u v fresh = count→IsUnique now (λ k. ground (
  arith,
  c k,
  IsUnique→count k old u,
  IsUnique→count k new v,
  fresh k,
  contains-count k old,
  contains-count k new,
))

-- What is there now was there before or is new.
pub Changes-member :
    (old gone new now : List ℕ) (k : ℕ)
    → Changes old gone new now
    → contains k now ≡ true
    → contains k new ≡ false
    → contains k old ≡ true
Changes-member old gone new now k c there other =
    ground (arith, c k, contains-count k now, contains-count k old, contains-count k new)

pub Changes-AreDurable :
    (old gone new now : List ℕ)
    → Changes old gone new now
    → AreDurable old
    → AreDurable new
    → AreDurable now
Changes-AreDurable old gone new now c d e k there = elim (Bool-cases (contains k new)) [
  | inl added ↦ e k added
  | inr other ↦ d k (Changes-member old gone new now k c there other)
]

-- The table without the numbers that are gone.
pub Changes-remove_all :
    (old gone now : List ℕ) (m : OrdMap ℕ)
    → Changes old gone [] now
    → IsUnique old
    → IsTableOf old m
    → IsTableOf now (remove_all gone m)
Changes-remove_all old gone now m c u t k = ground (
  arith,
  c k,
  IsUnique→count k old u,
  t k,
  contains-keys-remove_all gone k m,
  contains-count k now,
  contains-count k old,
  contains-count k gone,
)

-- The table with the one number that is new.
pub Changes-put :
    (old now : List ℕ) (id v : ℕ) (m : OrdMap ℕ)
    → Changes old [] (id ∷ []) now
    → IsTableOf old m
    → IsTableOf now (put id v m)
Changes-put old now id v m c t k =
    ground (arith, c k, t k, contains-keys-put id k v m, contains-count k now, contains-count k old)

-- Numbers that only change their places.
pub Changes-same :
    (old now : List ℕ) (k : ℕ) → Changes old [] [] now → contains k now ≡ contains k old
Changes-same old now k c = ground (arith, c k, contains-count k now, contains-count k old)
