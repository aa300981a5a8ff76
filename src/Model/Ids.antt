-- ===== src/Model/Ids.antt =====
-- src/model.rs: the allocator of workspace, chat and terminal numbers. A set of numbers in use is
-- `OrdSet`; numbers stay below 2 ^ 64, since none is above the `max` that a caller names.
pub mod Free
pub mod Taken
use mult.Base.{
  ℕ, ◌+◌, ◌-◌, ◌^◌, ◌≤◌, ◌<◌, ◌≡◌, Bool, true, false, not, ◌&&◌, ◌||◌, Option, none, some, List, [],
  ◌∷◌, ltb, leb, ◌==◌, if◌then◌else◌,
}
use mult.Base.OrdSet.{contains, insert, range, next_back}

abbrev pub runtime_terminal_id_flag : ℕ
runtime_terminal_id_flag = 2 ^ 63

abbrev pub max_durable_session_id : ℕ
max_durable_session_id = 2 ^ 63 - 1

abbrev pub u64_max : ℕ
u64_max = 2 ^ 64 - 1

unfoldable pub is_valid_durable_session_id : ℕ → Bool
is_valid_durable_session_id id = leb 1 id && leb id max_durable_session_id

-- The loop of `first_available_in_range`, from a candidate, over the numbers in use.
unfoldable pub scan : ℕ → ℕ → List ℕ → Option ℕ
scan last candidate [] = some candidate
scan last candidate (id ∷ used) = elim (ltb candidate id) [
  | true ↦ some candidate
  | false ↦ elim (id == candidate) [
    | true ↦ elim (candidate == last) [ true ↦ none | false ↦ scan last (candidate + 1) used ]
    | false ↦ scan last candidate used
  ]
]

unfoldable pub first_available_in_range : List ℕ → ℕ → ℕ → Option ℕ
first_available_in_range used first last = scan last first (range first last used)

abbrev pub start_of : ℕ → ℕ → ℕ
start_of hint max = if leb 1 hint && leb hint max then hint else 1

unfoldable pub find_available_id : List ℕ → ℕ → ℕ → Option ℕ
find_available_id used hint max =
    if max == 0 then none else elim (first_available_in_range used (start_of hint max) max) [
      | some id ↦ some id
      | none ↦
          if ltb 1 (start_of hint max)
          then first_available_in_range used 1 (start_of hint max - 1)
          else none
    ]

unfoldable pub successor : ℕ → ℕ → ℕ
successor id max = if id == max then 1 else id + 1

abbrev pub unwrap_or_zero : Option ℕ → ℕ
unwrap_or_zero none = 0
unwrap_or_zero (some id) = id

-- The number taken, the next hint and the set with the number.
unfoldable pub take_available_id : List ℕ → ℕ → ℕ → Option (ℕ × ℕ × List ℕ)
take_available_id used hint max = elim (find_available_id used hint max) [
  | none ↦ none
  | some id ↦ some (
    id,
    unwrap_or_zero (find_available_id (insert id used) (successor id max) max),
    insert id used,
  )
]

unfoldable pub normalized_allocator_hint : ℕ → List ℕ → ℕ → ℕ
normalized_allocator_hint current used max =
    let highest = unwrap_or_zero (next_back (range 1 max used)) in
    let inside = leb 1 current && leb current max in
    unwrap_or_zero (
      find_available_id used
        (if ltb highest max && (not inside || leb current highest)
          then highest + 1
          else if inside
          then current
          else 1)
        max)
