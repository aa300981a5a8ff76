-- ===== src/Daemon/AgentStatus/Kept.antt =====
-- A final status is kept: until its identity is created again, nothing changes it.
use mult.Base.{
  ℕ, zero, suc, ◌+◌, ◌-◌, ◌≡◌, refl, sym, ◌∙◌, subst, inl, inr, Bool, true, false, Option, none,
  some, List, [], ◌∷◌, arith, Bool-cases, Option-cases, All,
}
use mult.Base.Equality.{nat_eq, ◌=?◌, =?→eq}
use mult.Base.Map.{Map, get, put, get-put, get-remove}
use mult.Base.Result.{ok, err}
use mult.Protocol.Ids.{SessionIdentity, identity_eq, u64_limit}
use mult.Protocol.Agent.{AgentSessionMetadata, AgentStatusRecord, is_final}
use mult.Daemon.Registry.{
  ServerState, SharedPane, Handled, DaemonAgentState, allocate_loop, allocate_session_id, reserve,
  reserve_allocated, choose, reserve_session, publish_agent, publish_reserved_session,
  release_session_reservation, remove_session_if_same, record_agent_exit, exit_record,
}
use mult.Daemon.Registry.Histories
use mult.Daemon.Registry.Histories.{
  after, reserves, releases, publishes, removes, exits, shuts_down,
}
use mult.Daemon.AgentStatus.{update_agent_status, store_status}

pub data Event : Type 0 where
  registry : Histories.Event → Event
  updates : AgentStatusRecord → Event

unfoldable pub step : ServerState → Event → ServerState
step s (registry x) = Histories.step s x
step s (updates r) = (update_agent_status s r).1

unfoldable pub run : ServerState → List Event → ServerState
run s [] = s
run s (x ∷ xs) = run (step s x) xs

-- Whether the event creates a session of the identity.
unfoldable pub creates : SessionIdentity → Event → Bool
creates identity (registry (publishes session pane)) = pane.identity =? identity
creates identity _ = false

allocate_loop-agents :
    (fuel : ℕ) (s : ServerState) (r : Handled ℕ)
    → allocate_loop fuel s ≡ some r
    → r.1.agent_states ≡ s.agent_states
unfolding allocate_loop
allocate_loop-agents zero s r h = absurd (ground arith)
allocate_loop-agents (suc fuel) s r h =
    ground
      (arith, allocate_loop-agents fuel (record s { next_session_id = s.next_session_id + 1 }) r)

reserve_allocated-agents :
    (r : Handled ℕ) (identity : SessionIdentity)
    → (reserve_allocated r identity).1.agent_states ≡ r.1.agent_states
unfolding reserve_allocated reserve
reserve_allocated-agents (err code, s) identity = refl
reserve_allocated-agents (ok session, s) identity = ground arith

choose-agents :
    (s : ServerState) (requested : Option ℕ) (identity : SessionIdentity)
    → (after s (choose s requested identity)).agent_states ≡ s.agent_states
unfolding choose after
choose-agents s (some session) identity = unfold reserve in ground arith
choose-agents s none identity = elim (Option-cases (allocate_session_id s)) [
  | inl e ↦ rw (e, choose) refl
  | inr (r, e) ↦
      rw (e, choose)
        (reserve_allocated-agents r identity
          ∙ allocate_loop-agents (u64_limit - s.next_session_id) s r
              (unfold allocate_session_id in e))
]

pub reserve_session-agents :
    (s : ServerState) (requested : Option ℕ) (identity : SessionIdentity)
    → (after s (reserve_session s requested identity)).agent_states ≡ s.agent_states
unfolding reserve_session after
reserve_session-agents s requested identity = ground (arith, choose-agents s requested identity)

abbrev pub held : AgentSessionMetadata → AgentStatusRecord → Option DaemonAgentState
held metadata r = some (record { metadata = metadata; status = some r })

module _ (identity : SessionIdentity) (metadata : AgentSessionMetadata) (r : AgentStatusRecord)
    (final : is_final r.status ≡ true) where
  publish_agent-other :
      (agent : Option AgentSessionMetadata) (j : SessionIdentity)
      (states : Map SessionIdentity DaemonAgentState)
      → (j =? identity) ≡ false
      → get identity states ≡ held metadata r
      → get identity (publish_agent agent j states) ≡ held metadata r
  unfolding publish_agent
  publish_agent-other none j states other h = get-remove j identity states ∙ rw other h
  publish_agent-other (some m) j states other h = get-put j identity _ states ∙ rw other h

  publish-held :
      (s : ServerState) (session : ℕ) (pane : SharedPane)
      → (pane.identity =? identity) ≡ false
      → get identity s.agent_states ≡ held metadata r
      → get identity (publish_reserved_session s session pane).1.agent_states ≡ held metadata r
  unfolding publish_reserved_session
  publish-held s session pane other h =
      ground (arith, publish_agent-other pane.agent pane.identity s.agent_states other h)

  put-other :
      (j : SessionIdentity) (a : DaemonAgentState) (states : Map SessionIdentity DaemonAgentState)
      → (j =? identity) ≡ false
      → get identity states ≡ held metadata r
      → get identity (put j a states) ≡ held metadata r
  put-other j a states other h = get-put j identity a states ∙ rw other h

  exit-held :
      (s : ServerState) (j : SessionIdentity) (m : AgentSessionMetadata) (code : ℕ)
      → get identity s.agent_states ≡ held metadata r
      → get identity (record_agent_exit s j m code).agent_states ≡ held metadata r
  unfolding record_agent_exit
  exit-held s j m code h = elim (Bool-cases (j =? identity)) [
    | inl same ↦
        let mine =
          subst (λ k. get k s.agent_states ≡ held metadata r) (sym (=?→eq j identity same)) h in
        ground arith
    | inr other ↦ elim (Option-cases (get j s.agent_states)) [
      | inl e ↦ rw (e, record_agent_exit) h
      | inr (a, e) ↦ ground (
        arith,
        put-other j (record a { status = some (exit_record j m code) }) s.agent_states other h,
      )
    ]
  ]

  update-held :
      (s : ServerState) (q : AgentStatusRecord)
      → get identity s.agent_states ≡ held metadata r
      → get identity (update_agent_status s q).1.agent_states ≡ held metadata r
  unfolding update_agent_status store_status
  update-held s q h = elim (Bool-cases (q.identity =? identity)) [
    | inl same ↦
        let mine =
          subst (λ k. get k s.agent_states ≡ held metadata r) (sym (=?→eq q.identity identity same))
            h in
        ground arith
    | inr other ↦ elim (Option-cases (get q.identity s.agent_states)) [
      | inl e ↦ ground arith
      | inr (a, e) ↦
          ground (arith, put-other q.identity (record a { status = some q }) s.agent_states other h)
    ]
  ]

  step-held :
      (s : ServerState) (x : Event)
      → creates identity x ≡ false
      → get identity s.agent_states ≡ held metadata r
      → get identity (step s x).agent_states ≡ held metadata r
  unfolding step creates
  step-held s (updates q) c h = update-held s q h
  step-held s (registry (reserves requested j)) c h =
      unfold Histories.step in rw (reserve_session-agents s requested j) h
  step-held s (registry (releases session j)) c h =
      unfold Histories.step release_session_reservation in h
  step-held s (registry (publishes session pane)) c h =
      unfold Histories.step in publish-held s session pane c h
  step-held s (registry (removes session pane)) c h =
      unfold Histories.step remove_session_if_same in ground arith
  step-held s (registry (exits j m code)) c h = unfold Histories.step in exit-held s j m code h
  step-held s (registry shuts_down) c h = unfold Histories.step in h

-- Until a session of its identity is created again, a final status of an agent is the one that the
-- daemon keeps, whatever status updates, exits and other registry operations follow.
pub final_status_kept :
    (s : ServerState) (xs : List Event) (identity : SessionIdentity)
    (metadata : AgentSessionMetadata) (r : AgentStatusRecord)
    → get identity s.agent_states ≡ held metadata r
    → is_final r.status ≡ true
    → All (λ x. creates identity x ≡ false) xs
    → get identity (run s xs).agent_states ≡ held metadata r
unfolding run
final_status_kept s [] identity metadata r h final all = h
final_status_kept s (x ∷ xs) identity metadata r h final (c, all) =
    final_status_kept (step s x) xs identity metadata r
      (step-held identity metadata r final s x c h) final all
