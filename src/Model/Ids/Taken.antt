-- ===== src/Model/Ids/Taken.antt =====
-- src/model.rs, `take_available_id` and `normalized_allocator_hint`: the number taken is free, the
-- hint left is free too, and a number is refused only where none is left.
use mult.Base.{
  ℕ, ◌≤◌, ◌<◌, ◌≡◌, refl, false, ◌⊎◌, inl, inr, Option, none, some, List, arith, length,
}
use mult.Base.OrdSet.{contains, insert, IsSorted, insert-IsSorted}
use mult.Base.OrdSet.Pigeonhole.{length-interval}
use mult.Model.Ids.{
  find_available_id, start_of, successor, take_available_id, unwrap_or_zero,
  normalized_allocator_hint,
}
use mult.Model.Ids.Free.{
  IsFull, Searched, exhausted, ahead, wrapped, find_available_id-Searched, start_of-bounds,
}

-- A number from 1 to `max` that is not in use.
abbrev pub IsFree : List ℕ → ℕ → ℕ → Type 0
IsFree used max id = (1 ≤ id) × (id ≤ max) × (contains id used ≡ false)

-- A hint is a free number, and zero just where no number is left.
abbrev pub IsHint : List ℕ → ℕ → ℕ → Type 0
IsHint used max hint = ((hint ≡ 0) × IsFull used 1 max) ⊎ IsFree used max hint

Searched-IsHint :
    (used : List ℕ) (start max : ℕ) {o : Option ℕ}
    → (1 ≤ start) × (start ≤ max)
    → Searched used start max o
    → IsHint used max (unwrap_or_zero o)
Searched-IsHint used start max h (exhausted all) = inl (refl, all)
Searched-IsHint used start max h (ahead id f) = inr (omega (arith, h, f.low), f.high, f.free)
Searched-IsHint used start max h (wrapped id late f) = inr (f.low, omega (arith, h, f.high), f.free)

pub find_available_id-IsHint :
    (used : List ℕ) (hint max : ℕ)
    → IsSorted used
    → 1 ≤ max
    → IsHint used max (unwrap_or_zero (find_available_id used hint max))
find_available_id-IsHint used hint max s h =
    Searched-IsHint used (start_of hint max) max (start_of-bounds hint max h)
      (find_available_id-Searched used hint max s h)

full_length : (used : List ℕ) (max : ℕ) → IsFull used 1 max → max ≤ length used
full_length used max full = length-interval 1 max used (λ k low high. full k low (omega arith))

-- What taking a number answers.
pub data Taken (used : List ℕ) (max : ℕ) : Option (ℕ × ℕ × List ℕ) → Type 0 where
  refused : IsFull used 1 max → Taken used max none
  taken :
      (id next : ℕ)
      → IsFree used max id
      → IsHint (insert id used) max next
      → Taken used max (some (id, next, insert id used))

taken_id :
    (used : List ℕ) (hint max id : ℕ)
    → IsSorted used
    → 1 ≤ max
    → find_available_id used hint max ≡ some id
    → IsFree used max id
    → Taken used max (take_available_id used hint max)
unfolding take_available_id
taken_id used hint max id s h e free =
    rw (e, take_available_id)
      (taken id (unwrap_or_zero (find_available_id (insert id used) (successor id max) max)) free (
        find_available_id-IsHint (insert id used) (successor id max) max (insert-IsSorted id used s)
          h))

taken_of :
    (used : List ℕ) (hint max : ℕ) {o : Option ℕ}
    → IsSorted used
    → 1 ≤ max
    → find_available_id used hint max ≡ o
    → Searched used (start_of hint max) max o
    → Taken used max (take_available_id used hint max)
taken_of used hint max s h e (exhausted full) =
    unfold take_available_id in rw (e, take_available_id) (refused full)
taken_of used hint max s h e (ahead id f) =
    taken_id used hint max id s h e
      (omega (arith, start_of-bounds hint max h, f.low), f.high, f.free)
taken_of used hint max s h e (wrapped id late f) =
    taken_id used hint max id s h e
      (f.low, omega (arith, start_of-bounds hint max h, f.high), f.free)

-- On a set in order and a `max` of at least 1: a number from 1 to `max` that was not in use is
-- taken and added, and the next hint is a number that is then not in use, zero just where none is
-- left; it is refused only if all are in use.
pub take_available_id-Taken :
    (used : List ℕ) (hint max : ℕ)
    → IsSorted used
    → 1 ≤ max
    → Taken used max (take_available_id used hint max)
take_available_id-Taken used hint max s h =
    taken_of used hint max s h refl (find_available_id-Searched used hint max s h)

-- Fewer numbers in use than there are numbers: one is taken.
taken_some :
    (used : List ℕ) (max : ℕ) {o : Option (ℕ × ℕ × List ℕ)}
    → length used < max
    → Taken used max o
    → (id : ℕ) × (next : ℕ) × (o ≡ some (id, next, insert id used)) × IsFree used max id
taken_some used max h (refused full) = absurd (omega (arith, full_length used max full))
taken_some used max h (taken id next free hint) = (id, next, refl, free)

pub take_available_id_total :
    (used : List ℕ) (hint max : ℕ)
    → IsSorted used
    → length used < max
    → (id : ℕ) × (next : ℕ) × (take_available_id used hint max ≡ some (id, next, insert id used))
      × IsFree used max id
take_available_id_total used hint max s h =
    taken_some used max h (take_available_id-Taken used hint max s (omega arith))

pub normalized_allocator_hint-IsHint :
    (current max : ℕ) (used : List ℕ)
    → IsSorted used
    → 1 ≤ max
    → IsHint used max (normalized_allocator_hint current used max)
unfolding normalized_allocator_hint
normalized_allocator_hint-IsHint current max used s h = find_available_id-IsHint used _ max s h
