-- ===== src/Daemon/AgentStatus/Faithful.antt =====
-- A status that the daemon keeps is of the session that it is kept for.
use mathlib.Core.Option.{some_inj}
use mult.Base.{
  ℕ, ◌≡◌, refl, sym, ap, ◌∙◌, subst, inl, inr, not, ◌||◌, Option, none, some, List, [], ◌∷◌, arith,
  Bool-cases, Option-cases, Option-clash,
}
use mult.Base.Equality.{nat_eq, ◌=?◌}
use mult.Base.Map.{Map, get, put, remove, put_inv, get-remove}
use mult.Protocol.Ids.{SessionIdentity, identity_eq}
use mult.Protocol.Agent.{
  AgentSessionMetadata, AgentStatusRecord, AgentStatusOutcome, metadata_beq, metadata_beq_iff,
}
use mult.Daemon.Registry.{
  ServerState, DaemonAgentState, init, publish_agent, publish_reserved_session,
  release_session_reservation, remove_session_if_same, record_agent_exit, exit_record, has_final,
}
use mult.Daemon.Registry.Histories
use mult.Daemon.Registry.Histories.{reserves, releases, publishes, removes, exits, shuts_down}
use mult.Daemon.AgentStatus.{update_agent_status}
use mult.Daemon.AgentStatus.Refusals.{IsCurrent}
use mult.Daemon.AgentStatus.Answers.{
  Updates, stores, repeats, conflicts, differs, is_missing, is_foreign, update_agent_status-Updates,
}
use mult.Daemon.AgentStatus.Kept.{Event, registry, updates, step, run, reserve_session-agents}

-- A record is of the agent session of an identity.
pub record IsOf (identity : SessionIdentity) (state : DaemonAgentState) (r : AgentStatusRecord)
    : Type 0 where
  pub same_identity : r.identity ≡ identity
  pub same_session : IsCurrent state r.chat_id r.agent r.generation

abbrev pub IsFaithful : Map SessionIdentity DaemonAgentState → Type 0
IsFaithful states =
    (identity : SessionIdentity) (state : DaemonAgentState) (r : AgentStatusRecord)
    → get identity states ≡ some state
    → state.status ≡ some r
    → IsOf identity state r

put-IsFaithful :
    (states : Map SessionIdentity DaemonAgentState) (j : SessionIdentity) (a : DaemonAgentState)
    → IsFaithful states
    → ((r : AgentStatusRecord) → a.status ≡ some r → IsOf j a r)
    → IsFaithful (put j a states)
put-IsFaithful states j a f new identity state r at kept =
    elim (put_inv j identity a state states at) [
      | inl (same, value) ↦
          subst (λ k. IsOf k state r) same
            (subst (λ b. IsOf j b r) value (new r (ap (λ b. b.status) value ∙ kept)))
      | inr (other, old) ↦ f identity state r old kept
    ]

remove-IsFaithful :
    (states : Map SessionIdentity DaemonAgentState) (j : SessionIdentity)
    → IsFaithful states
    → IsFaithful (remove j states)
remove-IsFaithful states j f identity state r at kept = elim (Bool-cases (j =? identity)) [
  | inl same ↦ absurd (Option-clash (get-remove j identity states ∙ rw same refl) at)
  | inr other ↦ f identity state r (sym (get-remove j identity states ∙ rw other refl) ∙ at) kept
]

publish-IsFaithful :
    (states : Map SessionIdentity DaemonAgentState) (agent : Option AgentSessionMetadata)
    (identity : SessionIdentity)
    → IsFaithful states
    → IsFaithful (publish_agent agent identity states)
unfolding publish_agent
publish-IsFaithful states none identity f = remove-IsFaithful states identity f
publish-IsFaithful states (some m) identity f =
    put-IsFaithful states identity (record { metadata = m; status = none }) f
      (λ r e. absurd (Option-clash refl e))

exit-IsFaithful :
    (s : ServerState) (identity : SessionIdentity) (metadata : AgentSessionMetadata) (code : ℕ)
    → IsFaithful s.agent_states
    → IsFaithful (record_agent_exit s identity metadata code).agent_states
unfolding record_agent_exit exit_record
exit-IsFaithful s identity metadata code f = elim (Option-cases (get identity s.agent_states)) [
  | inl gone ↦ rw (gone, record_agent_exit) f
  | inr (a, there) ↦
      elim (Bool-cases (not (metadata_beq a.metadata metadata) || has_final a.status)) [
        | inl ignored ↦ rw (there, ignored, record_agent_exit) f
        | inr taken ↦
            let same : metadata ≡ a.metadata =
              sym ((metadata_beq_iff a.metadata metadata).0 (ground arith)) in
            rw (there, taken, record_agent_exit)
              (put-IsFaithful s.agent_states identity _ f (λ r e.
                subst (IsOf identity _) (some_inj.0 e) (record {
                  same_identity = refl;
                  same_session = record {
                    same_chat = ap (λ m. m.chat_id) same;
                    same_agent = ap (λ m. m.agent) same;
                    same_generation = ap (λ m. m.generation) same;
                  };
                })))
      ]
]

Updates-IsFaithful :
    (s : ServerState) (r : AgentStatusRecord) (o : AgentStatusOutcome × ServerState)
    {answer : AgentStatusOutcome}
    → Updates s r o answer
    → IsFaithful s.agent_states
    → IsFaithful o.1.agent_states
Updates-IsFaithful s r _ (stores state schema there c free answer) f =
    put-IsFaithful s.agent_states r.identity (record state { status = some r }) f
      (λ q e. subst (IsOf r.identity _) (some_inj.0 e) (record {
        same_identity = refl;
        same_session = record {
          same_chat = c.same_chat;
          same_agent = c.same_agent;
          same_generation = c.same_generation;
        };
      }))
Updates-IsFaithful s r _ (repeats state p schema there c kept final same answer) f = f
Updates-IsFaithful s r _ (conflicts state p schema there c kept final other answer) f = f
Updates-IsFaithful s r _ (differs state schema there other answer) f = f
Updates-IsFaithful s r _ (is_missing schema gone why answer) f = f
Updates-IsFaithful s r _ (is_foreign other answer) f = f

step-IsFaithful :
    (s : ServerState) (x : Event) → IsFaithful s.agent_states → IsFaithful (step s x).agent_states
unfolding step
step-IsFaithful s (updates r) f =
    Updates-IsFaithful s r (update_agent_status s r) (update_agent_status-Updates s r) f
step-IsFaithful s (registry (reserves requested j)) f =
    unfold Histories.step in subst IsFaithful (sym (reserve_session-agents s requested j)) f
step-IsFaithful s (registry (releases session j)) f =
    unfold Histories.step release_session_reservation in f
step-IsFaithful s (registry (publishes session pane)) f =
    unfold Histories.step publish_reserved_session in
    ground (arith, publish-IsFaithful s.agent_states pane.agent pane.identity f)
step-IsFaithful s (registry (removes session pane)) f =
    unfold Histories.step remove_session_if_same in ground arith
step-IsFaithful s (registry (exits j m code)) f =
    unfold Histories.step in exit-IsFaithful s j m code f
step-IsFaithful s (registry shuts_down) f = unfold Histories.step in f

run-IsFaithful :
    (s : ServerState) (xs : List Event)
    → IsFaithful s.agent_states
    → IsFaithful (run s xs).agent_states
unfolding run
run-IsFaithful s [] f = f
run-IsFaithful s (x ∷ xs) f = run-IsFaithful (step s x) xs (step-IsFaithful s x f)

-- Whatever the history of a daemon, a status that it keeps carries the identity, chat, kind and
-- generation of the agent session that it is kept for.
pub kept_status-IsOf :
    (xs : List Event) (identity : SessionIdentity) (state : DaemonAgentState)
    (r : AgentStatusRecord)
    → get identity (run init xs).agent_states ≡ some state
    → state.status ≡ some r
    → IsOf identity state r
kept_status-IsOf xs identity state r at kept =
    run-IsFaithful init xs (unfold init get in λ i a q there e. absurd (ground arith)) identity
      state r at kept
