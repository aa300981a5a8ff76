-- ===== src/Daemon/Registry/Allocate.antt =====
-- Session IDs and leases are handed out upwards, and reserving a session ends with a fresh ID.
use mult.Base.{
  ℕ, zero, suc, ◌+◌, ◌-◌, ◌≤◌, ◌<◌, ◌≡◌, refl, inl, inr, true, false, some, arith, Bool-cases, ltb,
  ltb→lt, sym, subst, ==→eq, ◌==◌,
}
use mult.Base.Equality.{nat_eq}
use mult.Base.Result.{ok, err}
use mult.Protocol.Ids.{identity_eq, u64_limit}
use mult.Protocol.Reject.{resource_exhausted}
use mult.Daemon.Registry.{ServerState, Handled, is_free, allocate_loop, allocate_session_id}

-- From the counter up to a bound, no ID is free.
abbrev pub AreTaken : ServerState → ℕ → Type 0
AreTaken s bound = (k : ℕ) → s.next_session_id ≤ k → k < bound → is_free s k ≡ false

-- What an allocation from `s` does; only the counter moves. The ID that is handed out is the first
-- free one from the counter on, and the counter then stands behind it; where there is none below
-- `u64::MAX`, the answer is that the IDs are used up, and the counter stands at `u64::MAX`.
pub data Allocates (s : ServerState) : Handled ℕ → Type 0 where
  allocated :
      (id : ℕ)
      → is_free s id ≡ true
      → s.next_session_id ≤ id
      → AreTaken s id
      → id + 1 < u64_limit
      → Allocates s (ok id, record s { next_session_id = id + 1 })
  exhausted :
      (last : ℕ)
      → s.next_session_id ≤ last
      → last + 1 ≡ u64_limit
      → AreTaken s last
      → Allocates s (err resource_exhausted, record s { next_session_id = last })

one_more :
    (s : ServerState) (bound : ℕ)
    → is_free s s.next_session_id ≡ false
    → AreTaken (record s { next_session_id = s.next_session_id + 1 }) bound
    → AreTaken s bound
unfolding is_free
one_more s bound first rest k low high = elim (Bool-cases (k == s.next_session_id)) [
  | inl same ↦ subst (λ n. is_free s n ≡ false) (sym (==→eq k s.next_session_id same)) first
  | inr other ↦ rest k (ground arith) high
]

-- A free ID does not depend on the counter.
skip :
    (s : ServerState) (r : Handled ℕ)
    → is_free s s.next_session_id ≡ false
    → Allocates (record s { next_session_id = s.next_session_id + 1 }) r
    → Allocates s r
unfolding is_free
skip s r first (allocated id free lo before top) =
    allocated id free (omega arith) (one_more s id first before) top
skip s r first (exhausted last lo top before) =
    exhausted last (omega arith) top (one_more s last first before)

allocate_loop-Allocates :
    (fuel : ℕ) (s : ServerState)
    → u64_limit - s.next_session_id ≤ fuel
    → s.next_session_id < u64_limit
    → (r : Handled ℕ) × (allocate_loop fuel s ≡ some r) × Allocates s r
unfolding allocate_loop
allocate_loop-Allocates zero s h v = absurd (omega arith)
allocate_loop-Allocates (suc fuel) s h v =
    elim (Bool-cases (ltb (s.next_session_id + 1) u64_limit)) [
      | inr last ↦ (
        (err resource_exhausted, s),
        rw (last, allocate_loop) refl,
        exhausted s.next_session_id (omega arith) (ground arith)
            (λ k low high. absurd (omega arith)),
      )
      | inl more ↦ elim (Bool-cases (is_free s s.next_session_id)) [
        | inl free ↦ (
          (ok s.next_session_id, record s { next_session_id = s.next_session_id + 1 }),
          rw (more, free, allocate_loop) refl,
          allocated s.next_session_id free (omega arith) (λ k low high. absurd (omega arith))
              (ltb→lt _ _ more),
        )
        | inr taken ↦
            let (r, runs, result) =
              allocate_loop-Allocates fuel (record s { next_session_id = s.next_session_id + 1 })
                (omega arith) (ltb→lt _ _ more) in
            (r, rw (more, taken, allocate_loop) runs, skip s r taken result)
      ]
    ]

pub allocate_session_id-Allocates :
    (s : ServerState)
    → s.next_session_id < u64_limit
    → (r : Handled ℕ) × (allocate_session_id s ≡ some r) × Allocates s r
unfolding allocate_session_id
allocate_session_id-Allocates s v =
    allocate_loop-Allocates (u64_limit - s.next_session_id) s (omega arith) v
