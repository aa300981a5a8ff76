-- ===== src/Model/Ids/Free.antt =====
-- src/model.rs, `find_available_id`: which number the search finds.
use mult.Base.{
  ℕ, ◌+◌, ◌-◌, ◌≤◌, ◌<◌, ◌≡◌, refl, true, false, inl, inr, Option, none, some, List, [], ◌∷◌, arith,
  Bool-cases, All, ltb, ltb→lt, ==→eq, leb, ◌==◌,
}
use mult.Base.OrdSet.{
  contains, range, IsSorted, contains_above, contains-range, range-IsSorted, range-All, above_mono,
}
use mult.Model.Ids.{scan, first_available_in_range, find_available_id, start_of}

-- Every number of the interval is in use.
abbrev pub IsFull : List ℕ → ℕ → ℕ → Type 0
IsFull used first last = (k : ℕ) → first ≤ k → k ≤ last → contains k used ≡ true

-- The first number of the interval that is not in use.
pub record IsFirst (used : List ℕ) (first last id : ℕ) : Type 0 where
  pub low : first ≤ id
  pub high : id ≤ last
  pub free : contains id used ≡ false
  pub before : (k : ℕ) → first ≤ k → k < id → contains k used ≡ true

-- What a search of the interval answers.
pub data Found (used : List ℕ) (first last : ℕ) : Option ℕ → Type 0 where
  full : IsFull used first last → Found used first last none
  hit : (id : ℕ) → IsFirst used first last id → Found used first last (some id)

Found-skip :
    (j last candidate : ℕ) (used : List ℕ) {o : Option ℕ}
    → j ≡ candidate
    → Found used (candidate + 1) last o
    → Found (j ∷ used) candidate last o
unfolding contains
Found-skip j last candidate used e (full all) = full (λ k low high. ground (arith, all k))
Found-skip j last candidate used e (hit id f) = hit id (record {
  low = omega (arith, f.low);
  high = f.high;
  free = ground (arith, f.low, f.free);
  before = λ k low high. ground (arith, f.before k);
})

scan-Found :
    (last candidate : ℕ) (ids : List ℕ)
    → candidate ≤ last
    → IsSorted ids
    → All (λ k. (candidate ≤ k) × (k ≤ last)) ids
    → Found ids candidate last (scan last candidate ids)
unfolding scan
scan-Found last candidate [] h s a = hit candidate (record {
  low = omega arith;
  high = h;
  free = unfold contains in refl;
  before = λ k low high. absurd (omega arith);
})
scan-Found last candidate (j ∷ ids) h s a = elim (Bool-cases (ltb candidate j)) [
  | inl gap ↦
      rw (gap, scan)
        (hit candidate (record {
          low = omega arith;
          high = h;
          free =
              contains_above candidate (j ∷ ids) (
                ltb→lt candidate j gap,
                above_mono ids (omega (arith, ltb→lt candidate j gap)) s.0,
              );
          before = λ k low high. absurd (omega arith);
        }))
  | inr close ↦ elim (Bool-cases (candidate == last)) [
    | inl end ↦
        rw (close, same close, end, scan) (full (λ k low high. unfold contains in ground arith))
    | inr more ↦
        rw (close, same close, more, scan)
          (Found-skip j last candidate ids (==→eq j candidate (same close)) (
            scan-Found last (candidate + 1) ids (ground arith) s.1
              (above ids (==→eq j candidate (same close)) s.0 a.1)))
  ]
]
  where
    same : ltb candidate j ≡ false → (j == candidate) ≡ true
    same close = ground (arith, a.0)

    above :
        (s : List ℕ)
        → j ≡ candidate
        → All (λ k. j < k) s
        → All (λ k. (candidate ≤ k) × (k ≤ last)) s
        → All (λ k. (candidate + 1 ≤ k) × (k ≤ last)) s
    above [] e low both = tt
    above (k ∷ s) e low both = ((omega arith, both.0.1), above s e low.1 both.1)

-- Membership in the numbers of the interval, from membership in all.
Found-range :
    (used : List ℕ) (first last : ℕ) {o : Option ℕ}
    → Found (range first last used) first last o
    → Found used first last o
Found-range used first last (full all) =
    full (λ k low high. ground (arith, all k low high, contains-range first last k used))
Found-range used first last (hit id f) = hit id (record {
  low = f.low;
  high = f.high;
  free = ground (arith, f.low, f.high, f.free, contains-range first last id used);
  before =
      λ k low high. ground (arith, f.high, f.before k low high, contains-range first last k used);
})

pub first_available_in_range-Found :
    (used : List ℕ) (first last : ℕ)
    → IsSorted used
    → first ≤ last
    → Found used first last (first_available_in_range used first last)
unfolding first_available_in_range
first_available_in_range-Found used first last s h = Found-range used first last (
    scan-Found last first (range first last used) h (range-IsSorted first last used s)
      (range-All first last used))

-- The search from a start, then from 1 to before the start.
pub data Searched (used : List ℕ) (start max : ℕ) : Option ℕ → Type 0 where
  exhausted : IsFull used 1 max → Searched used start max none
  ahead : (id : ℕ) → IsFirst used start max id → Searched used start max (some id)
  wrapped :
      (id : ℕ)
      → IsFull used start max
      → IsFirst used 1 (start - 1) id
      → Searched used start max (some id)

pub start_of-bounds : (hint max : ℕ) → 1 ≤ max → (1 ≤ start_of hint max) × (start_of hint max ≤ max)
start_of-bounds hint max h = ground arith

search_all :
    (used : List ℕ) (start max : ℕ)
    → IsFull used start max
    → IsFull used 1 (start - 1)
    → IsFull used 1 max
search_all used start max late early k low high = elim (Bool-cases (leb start k)) [
  | inl after ↦ late k (ground arith) high
  | inr before ↦ early k low (ground arith)
]

wrap :
    (used : List ℕ) (start max : ℕ) {o : Option ℕ}
    → IsFull used start max
    → Found used 1 (start - 1) o
    → Searched used start max o
wrap used start max late (full early) = exhausted (search_all used start max late early)
wrap used start max late (hit id f) = wrapped id late f

zero_test : (m : ℕ) → 1 ≤ m → (m == 0) ≡ false
zero_test m h = ground arith

search :
    (used : List ℕ) (hint max : ℕ)
    → IsSorted used
    → 1 ≤ max
    → {o : Option ℕ} → first_available_in_range used (start_of hint max) max ≡ o
    → Found used (start_of hint max) max o
    → Searched used (start_of hint max) max (find_available_id used hint max)
unfolding find_available_id
search used hint max s h e (full late) = elim (Bool-cases (ltb 1 (start_of hint max))) [
  | inl more ↦
      rw (zero_test max h, e, more)
        (wrap used (start_of hint max) max late
          (first_available_in_range-Found used 1 (start_of hint max - 1) s (ground arith)))
  | inr none_left ↦
      rw (zero_test max h, e, none_left)
        (exhausted (λ k low high. late k (ground (arith, start_of-bounds hint max h)) high))
]
search used hint max s h e (hit id f) = rw (zero_test max h, e) (ahead id f)

-- On a set in order and a `max` of at least 1 the search finds the first number that is not in
-- use from the hint up to `max` and then from 1 up to before the hint, where a hint out of range
-- counts as 1; it finds none only if all are in use.
pub find_available_id-Searched :
    (used : List ℕ) (hint max : ℕ)
    → IsSorted used
    → 1 ≤ max
    → Searched used (start_of hint max) max (find_available_id used hint max)
find_available_id-Searched used hint max s h =
    search used hint max s h refl
      (first_available_in_range-Found used (start_of hint max) max s (start_of-bounds hint max h).1)
