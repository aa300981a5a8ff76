-- ===== src/Daemon/Registry/Create.antt =====
-- Creating a session: what is reserved is published, and is found.
use mult.Base.{
  ℕ, ◌+◌, ◌<◌, ◌≡◌, refl, inl, inr, true, false, not, ◌||◌, Option, none, some, arith, Bool-cases,
}
use mathlib.Core.Option.{some_inj}
use mult.Base.Equality.{nat_eq, =?-self}
use mult.Base.Map.{get, has, get-put_self, has-add}
use mult.Base.Result.{ok}
use mult.Protocol.Ids.{SessionIdentity, identity_eq, u64_limit}
use mult.Daemon.Registry.{
  ServerState, SharedPane, Handled, reserve, reserve_allocated, choose, reserve_session,
  contains_key, publish_reserved_session, session_for_identity,
}
use mult.Daemon.Registry.Invariant.{absent}
use mult.Daemon.Registry.Allocate.{Allocates, allocated, exhausted, allocate_session_id-Allocates}
use mult.Daemon.Registry.Histories.{IsSound}

-- A session and an identity that are reserved and exist in no table.
record IsReserved (t : ServerState) (session : ℕ) (identity : SessionIdentity) : Type 0 where
  up : t.is_shutting_down ≡ false
  no_session : get session t.sessions ≡ none
  no_identity : get identity t.session_by_identity ≡ none
  session_kept : has session t.reserved_sessions ≡ true
  identity_kept : has identity t.reserved_identities ≡ true

reserve-IsReserved :
    (s t : ServerState) (session n : ℕ) (identity : SessionIdentity)
    → s.is_shutting_down ≡ false
    → get identity s.session_by_identity ≡ none
    → reserve s session identity ≡ (ok n, t)
    → IsReserved t n identity
unfolding reserve
reserve-IsReserved s t session n identity up fresh e =
    elim (Bool-cases (contains_key (get session s.sessions) || has session s.reserved_sessions)) [
      | inl taken ↦ absurd (ground arith)
      | inr free ↦
          let no_session = absent (get session s.sessions) (ground arith) in
          record {
            up = ground arith;
            no_session = ground arith;
            no_identity = ground arith;
            session_kept =
                ground (arith, has-add session session s.reserved_sessions, =?-self session);
            identity_kept =
                ground (arith, has-add identity identity s.reserved_identities, =?-self identity);
          }
    ]

allocated-IsReserved :
    (s t : ServerState) (r : Handled ℕ) (session : ℕ) (identity : SessionIdentity)
    → s.is_shutting_down ≡ false
    → get identity s.session_by_identity ≡ none
    → Allocates s r
    → reserve_allocated r identity ≡ (ok session, t)
    → IsReserved t session identity
unfolding reserve_allocated
allocated-IsReserved s t r session identity up fresh (allocated id free lo before top) e =
    reserve-IsReserved (record s { next_session_id = id + 1 }) t id session identity up fresh e
allocated-IsReserved s t r session identity up fresh (exhausted last lo top before) e =
    absurd (ground arith)

choose-IsReserved :
    (s t : ServerState) (requested : Option ℕ) (session : ℕ) (identity : SessionIdentity)
    → s.is_shutting_down ≡ false
    → s.next_session_id < u64_limit
    → get identity s.session_by_identity ≡ none
    → choose s requested identity ≡ some (ok session, t)
    → IsReserved t session identity
unfolding choose
choose-IsReserved s t (some asked) session identity up range fresh e =
    reserve-IsReserved s t asked session identity up fresh (some_inj.0 e)
choose-IsReserved s t none session identity up range fresh e =
    let (r, runs, a) = allocate_session_id-Allocates s range in
    allocated-IsReserved s t r session identity up fresh a (some_inj.0 (rw (runs, choose) at e))

reserve_session-IsReserved :
    (s t : ServerState) (requested : Option ℕ) (session : ℕ) (identity : SessionIdentity)
    → IsSound s
    → s.is_shutting_down ≡ false
    → reserve_session s requested identity ≡ some (ok session, t)
    → IsReserved t session identity
unfolding reserve_session
reserve_session-IsReserved s t requested session identity v up e =
    elim (Bool-cases
      (contains_key (get identity s.session_by_identity) || has identity s.reserved_identities)) [
        | inl taken ↦ absurd (ground arith)
        | inr free ↦
            choose-IsReserved s t requested session identity up v.in_range
              (absent (get identity s.session_by_identity) (ground arith)) (simp (up, free) at e)
      ]

publish-session_for_identity :
    (t : ServerState) (session : ℕ) (pane : SharedPane)
    → IsReserved t session pane.identity
    → ((publish_reserved_session t session pane).0 ≡ ok tt)
      × (session_for_identity (publish_reserved_session t session pane).1 pane.identity ≡ some pane)
unfolding publish_reserved_session session_for_identity
publish-session_for_identity t session pane r =
    let free : (contains_key (get session t.sessions)
          || contains_key (get pane.identity t.session_by_identity)
          || not (has session t.reserved_sessions)
          || not (has pane.identity t.reserved_identities))
        ≡ false =
      ground arith in
    (
      simp (r.up, free) refl,
      simp (r.up, free)
          (rw (get-put_self pane.identity session t.session_by_identity, session_for_identity)
            (get-put_self session pane t.sessions)),
    )

-- In a sound registry that is not shutting down, a reservation followed by the publication of a
-- pane of that identity leaves a session that the identity finds.
pub create-session_for_identity :
    (s t : ServerState) (requested : Option ℕ) (session : ℕ) (pane : SharedPane)
    → IsSound s
    → s.is_shutting_down ≡ false
    → reserve_session s requested pane.identity ≡ some (ok session, t)
    → ((publish_reserved_session t session pane).0 ≡ ok tt)
      × (session_for_identity (publish_reserved_session t session pane).1 pane.identity ≡ some pane)
create-session_for_identity s t requested session pane v up e =
    publish-session_for_identity t session pane
      (reserve_session-IsReserved s t requested session pane.identity v up e)
