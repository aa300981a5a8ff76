-- ===== src/Daemon/Registry/Histories.antt =====
-- The registry through any history of creations, exits and a shutdown.
use mult.Base.{
  ℕ, ◌+◌, ◌<◌, ◌≡◌, refl, ap, inl, inr, Bool, true, not, ◌||◌, Option, none, some, List, [], ◌∷◌,
  arith, Bool-cases, Option-cases,
}
use mult.Base.Equality.{nat_eq}
use mult.Base.Map.{get, has, Map}
use mult.Base.Result.{err}
use mult.Protocol.Ids.{SessionIdentity, identity_eq, u64_limit}
use mult.Protocol.Agent.{AgentSessionMetadata, metadata_beq}
use mult.Protocol.Reject.{shutting_down, session_already_exists}
use mult.Daemon.Registry.{
  ServerState, SharedPane, Handled, DaemonAgentState, has_final, init, reserve, reserve_allocated,
  choose, reserve_session, contains_key, publish_reserved_session, release_session_reservation,
  remove_session_if_same, record_agent_exit, session_for_identity,
}
use mult.Daemon.Registry.Invariant.{
  IsConsistent, init-IsConsistent, reserve-IsConsistent, release-IsConsistent, publish-IsConsistent,
  remove-IsConsistent, absent,
}
use mult.Daemon.Registry.Allocate.{Allocates, allocated, exhausted, allocate_session_id-Allocates}

-- What the other threads rely on: the tables agree and the counter is in range.
pub record IsSound (s : ServerState) : Type 0 where
  pub consistent : IsConsistent s
  pub in_range : s.next_session_id < u64_limit

recount :
    (s : ServerState) (next : ℕ)
    → IsConsistent s
    → IsConsistent (record s { next_session_id = next })
recount s next c = record {
  unique = c.unique;
  indexed = c.indexed;
  owned = c.owned;
  fresh_sessions = c.fresh_sessions;
  fresh_identities = c.fresh_identities;
}

reserve-IsSound :
    (s : ServerState) (session : ℕ) (identity : SessionIdentity)
    → IsSound s
    → get identity s.session_by_identity ≡ none
    → IsSound (reserve s session identity).1
unfolding reserve
reserve-IsSound s session identity v fresh = record {
  consistent = reserve-IsConsistent s v.consistent session identity fresh;
  in_range = ground arith;
}

reserve_allocated-IsSound :
    (s : ServerState) (r : Handled ℕ) (identity : SessionIdentity)
    → IsSound s
    → get identity s.session_by_identity ≡ none
    → Allocates s r
    → IsSound (reserve_allocated r identity).1
unfolding reserve_allocated
reserve_allocated-IsSound s r identity v fresh (allocated id free lo before top) =
    reserve-IsSound (record s { next_session_id = id + 1 }) id identity
      (record { consistent = recount s (id + 1) v.consistent; in_range = top }) fresh
reserve_allocated-IsSound s r identity v fresh (exhausted last lo top before) = record {
  consistent = recount s last v.consistent;
  in_range = omega arith;
}

reserve_chosen :
    (s : ServerState) (requested : Option ℕ) (identity : SessionIdentity)
    → IsSound s
    → get identity s.session_by_identity ≡ none
    → (r : Handled ℕ) × (choose s requested identity ≡ some r) × IsSound r.1
unfolding choose
reserve_chosen s (some session) identity v fresh =
    (reserve s session identity, refl, reserve-IsSound s session identity v fresh)
reserve_chosen s none identity v fresh =
    let (r, runs, a) = allocate_session_id-Allocates s v.in_range in
    (
      reserve_allocated r identity,
      rw (runs, choose) refl,
      reserve_allocated-IsSound s r identity v fresh a,
    )

-- Reserving a session always ends, and a sound registry stays sound.
pub reserve_session-IsSound :
    (s : ServerState) (requested : Option ℕ) (identity : SessionIdentity)
    → IsSound s
    → (r : Handled ℕ) × (reserve_session s requested identity ≡ some r) × IsSound r.1
unfolding reserve_session
reserve_session-IsSound s requested identity v = elim (Bool-cases s.is_shutting_down) [
  | inl down ↦ ((err shutting_down, s), simp down refl, v)
  | inr up ↦
      elim (Bool-cases
        (contains_key (get identity s.session_by_identity) || has identity s.reserved_identities)) [
          | inl taken ↦ ((err session_already_exists, s), simp (up, taken) refl, v)
          | inr free ↦
              let (r, runs, sound) =
                reserve_chosen s requested identity v
                  (absent (get identity s.session_by_identity) (ground arith)) in
              (r, simp (up, free) runs, sound)
        ]
]

-- What other threads do to the registry.
pub data Event : Type 0 where
  reserves : Option ℕ → SessionIdentity → Event
  releases : ℕ → SessionIdentity → Event
  publishes : ℕ → SharedPane → Event
  removes : ℕ → SharedPane → Event
  exits : SessionIdentity → AgentSessionMetadata → ℕ → Event
  shuts_down : Event

unfoldable pub after : {A : Type 0} → ServerState → Option (Handled A) → ServerState
after s none = s
after s (some r) = r.1

unfoldable pub step : ServerState → Event → ServerState
step s (reserves requested identity) = after s (reserve_session s requested identity)
step s (releases session identity) = release_session_reservation s session identity
step s (publishes session pane) = (publish_reserved_session s session pane).1
step s (removes session pane) = (remove_session_if_same s session pane).1
step s (exits identity metadata code) = record_agent_exit s identity metadata code
step s shuts_down = record s { is_shutting_down = true }

unfoldable pub run : ServerState → List Event → ServerState
run s [] = s
run s (x ∷ xs) = run (step s x) xs

same_tables :
    (s : ServerState) (states : Map SessionIdentity DaemonAgentState) (down : Bool)
    → IsSound s
    → IsSound (record s { agent_states = states; is_shutting_down = down })
same_tables s states down v = record {
  consistent = record {
    unique = v.consistent.unique;
    indexed = v.consistent.indexed;
    owned = v.consistent.owned;
    fresh_sessions = v.consistent.fresh_sessions;
    fresh_identities = v.consistent.fresh_identities;
  };
  in_range = v.in_range;
}

exit-IsSound :
    (s : ServerState) (identity : SessionIdentity) (metadata : AgentSessionMetadata) (code : ℕ)
    → IsSound s
    → IsSound (record_agent_exit s identity metadata code)
unfolding record_agent_exit
exit-IsSound s identity metadata code v = elim (Option-cases (get identity s.agent_states)) [
  | inl missing ↦ rw (missing, record_agent_exit) v
  | inr (state, at) ↦
      elim (Bool-cases (not (metadata_beq state.metadata metadata) || has_final state.status)) [
        | inl ignored ↦ rw (at, ignored, record_agent_exit) v
        | inr taken ↦ rw (at, taken, record_agent_exit) (same_tables s _ s.is_shutting_down v)
      ]
]

-- Whatever happens, a sound registry stays sound.
pub step-IsSound : (s : ServerState) (x : Event) → IsSound s → IsSound (step s x)
unfolding step
step-IsSound s (reserves requested identity) v =
    let (r, runs, sound) = reserve_session-IsSound s requested identity v in
    unfold after in rw runs sound
step-IsSound s (releases session identity) v = record {
  consistent = release-IsConsistent s v.consistent session identity;
  in_range = unfold release_session_reservation in v.in_range;
}
step-IsSound s (publishes session pane) v = record {
  consistent = publish-IsConsistent s v.consistent session pane;
  in_range = unfold publish_reserved_session in ground arith;
}
step-IsSound s (removes session pane) v = record {
  consistent = remove-IsConsistent s v.consistent session pane;
  in_range = unfold remove_session_if_same in ground arith;
}
step-IsSound s (exits identity metadata code) v = exit-IsSound s identity metadata code v
step-IsSound s shuts_down v = same_tables s s.agent_states true v

run-IsSound : (s : ServerState) (xs : List Event) → IsSound s → IsSound (run s xs)
unfolding run
run-IsSound s [] v = v
run-IsSound s (x ∷ xs) v = run-IsSound (step s x) xs (step-IsSound s x v)

init-IsSound : IsSound init
init-IsSound = record { consistent = init-IsConsistent; in_range = unfold init in omega arith }

-- Whatever the history of a daemon, its session tables agree and its session counter is in range.
pub run-init-IsSound : (xs : List Event) → IsSound (run init xs)
run-init-IsSound xs = run-IsSound init xs init-IsSound

same_value :
    (i j : SessionIdentity) (table : Map SessionIdentity ℕ) (n m : ℕ)
    → i ≡ j
    → get i table ≡ some n
    → get j table ≡ some m
    → n ≡ m
same_value i j table n m e a b = cc (ap (λ k. get k table) e)

-- Whatever the history of a daemon, two sessions of one logical identity are the same session, and
-- looking up the identity of a session finds its pane.
pub one_session_per_identity :
    (xs : List Event) (n m : ℕ) (p q : SharedPane)
    → get n (run init xs).sessions ≡ some p
    → get m (run init xs).sessions ≡ some q
    → p.identity ≡ q.identity
    → (n ≡ m) × (session_for_identity (run init xs) p.identity ≡ some p)
unfolding session_for_identity
one_session_per_identity xs n m p q at_n at_m same =
    let c = (run-init-IsSound xs).consistent in
    let mine = c.owned n p at_n in
    (
      same_value p.identity q.identity (run init xs).session_by_identity n m same mine
          (c.owned m q at_m),
      rw (mine, session_for_identity) at_n,
    )
