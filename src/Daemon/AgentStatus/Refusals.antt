-- ===== src/Daemon/AgentStatus/Refusals.antt =====
-- Why a status update or a query is refused.
use mult.Base.{
  ℕ, ◌≡◌, ◌≢◌, inl, inr, Bool, true, false, ◌&&◌, any, none, some, arith, Bool-cases, Option-cases,
  Bool-clash, subst, ◌==◌,
}
use mathlib.Core.Option.{some_inj}
use mult.Base.Map.{get}
use mult.Protocol.Ids.{SessionIdentity, identity_eq}
use mult.Protocol.Agent.{
  AgentStatusError, wrong_chat, wrong_agent, stale_generation, not_agent_session, mismatch,
  session_not_found, namespace_differs, token_differs, kind_beq, kind_beq_iff, AgentKind,
}
use mult.Daemon.Registry.{ServerState, DaemonAgentState}
use mult.Daemon.AgentStatus.{missing_agent_identity_error, metadata_error}

-- A record is of a session: the daemon has an agent of this identity, chat, kind and generation.
pub record IsCurrent (state : DaemonAgentState) (chat_id : ℕ) (agent : AgentKind) (generation : ℕ)
    : Type 0 where
  pub same_chat : chat_id ≡ state.metadata.chat_id
  pub same_agent : agent ≡ state.metadata.agent
  pub same_generation : generation ≡ state.metadata.generation

pub metadata_error-none :
    (state : DaemonAgentState) (chat_id : ℕ) (agent : AgentKind) (generation : ℕ)
    → metadata_error state.metadata chat_id agent generation ≡ none
    → IsCurrent state chat_id agent generation
unfolding metadata_error
metadata_error-none state chat_id agent generation h =
    let same_agent = kind_beq_iff agent state.metadata.agent in
    record {
      same_chat = ground arith;
      same_agent = ground (arith, same_agent);
      same_generation = ground arith;
    }

pub none-metadata_error :
    (state : DaemonAgentState) (chat_id : ℕ) (agent : AgentKind) (generation : ℕ)
    → IsCurrent state chat_id agent generation
    → metadata_error state.metadata chat_id agent generation ≡ none
unfolding metadata_error
none-metadata_error state chat_id agent generation c =
    ground
      (arith, c.same_chat, c.same_agent, c.same_generation, kind_beq_iff agent state.metadata.agent)

-- How a report differs from the session that it names: the first of chat, kind and generation that is
-- another one, with what was expected and what came.
pub data Differs (state : DaemonAgentState) (chat_id : ℕ) (agent : AgentKind) (generation : ℕ)
    : AgentStatusError → Type 0 where
  other_chat :
      chat_id ≢ state.metadata.chat_id
      → Differs state chat_id agent generation (wrong_chat state.metadata.chat_id chat_id)
  other_agent :
      chat_id ≡ state.metadata.chat_id
      → agent ≢ state.metadata.agent
      → Differs state chat_id agent generation (wrong_agent state.metadata.agent agent)
  other_generation :
      chat_id ≡ state.metadata.chat_id
      → agent ≡ state.metadata.agent
      → generation ≢ state.metadata.generation
      → Differs state chat_id agent generation
          (stale_generation state.metadata.generation generation)

pub metadata_error-Differs :
    (state : DaemonAgentState) (chat_id : ℕ) (agent : AgentKind) (generation : ℕ)
    (e : AgentStatusError)
    → metadata_error state.metadata chat_id agent generation ≡ some e
    → Differs state chat_id agent generation e
unfolding metadata_error
metadata_error-Differs state chat_id agent generation e h =
    elim (Bool-cases (chat_id == state.metadata.chat_id)) [
      | inr chat ↦
          subst (Differs state chat_id agent generation) (some_inj.0 (rw chat at h))
            (other_chat (ground arith))
      | inl same ↦ elim (Bool-cases (kind_beq agent state.metadata.agent)) [
        | inr kind ↦
            subst (Differs state chat_id agent generation) (some_inj.0 (rw (same, kind) at h)) (
              other_agent (ground arith)
                (λ x. Bool-clash ((kind_beq_iff agent state.metadata.agent).1 x) kind))
        | inl kind ↦ elim (Bool-cases (generation == state.metadata.generation)) [
          | inr stale ↦
              subst (Differs state chat_id agent generation)
                (some_inj.0 (rw (same, kind, stale) at h))
                (other_generation (ground arith) ((kind_beq_iff agent state.metadata.agent).0 kind)
                  (ground arith))
          | inl fits ↦ absurd (let none_left = rw (same, kind, fits) at h in cc)
        ]
      ]
    ]

abbrev pub same_token : SessionIdentity → SessionIdentity × DaemonAgentState → Bool
same_token identity entry = entry.0.token == identity.token

abbrev pub same_chat : SessionIdentity → ℕ → SessionIdentity × DaemonAgentState → Bool
same_chat identity chat_id entry =
    (entry.0.namespace == identity.namespace) && (entry.1.metadata.chat_id == chat_id)

-- Why no agent of an identity is known: its session has none; or an agent is known with this token in
-- another namespace, or with this namespace and chat under another token; or none of these.
pub data Unknown (s : ServerState) (identity : SessionIdentity) (chat_id : ℕ)
    : AgentStatusError → Type 0 where
  no_agent :
      (session : ℕ)
      → get identity s.session_by_identity ≡ some session
      → Unknown s identity chat_id (not_agent_session identity)
  elsewhere :
      get identity s.session_by_identity ≡ none
      → any (same_token identity) s.agent_states ≡ true
      → Unknown s identity chat_id (mismatch namespace_differs)
  renewed :
      get identity s.session_by_identity ≡ none
      → any (same_token identity) s.agent_states ≡ false
      → any (same_chat identity chat_id) s.agent_states ≡ true
      → Unknown s identity chat_id (mismatch token_differs)
  unheard_of :
      get identity s.session_by_identity ≡ none
      → any (same_token identity) s.agent_states ≡ false
      → any (same_chat identity chat_id) s.agent_states ≡ false
      → Unknown s identity chat_id (session_not_found identity)

pub missing-Unknown :
    (s : ServerState) (identity : SessionIdentity) (chat_id : ℕ)
    → Unknown s identity chat_id (missing_agent_identity_error s identity chat_id)
unfolding missing_agent_identity_error
missing-Unknown s identity chat_id = elim (Option-cases (get identity s.session_by_identity)) [
  | inr (session, there) ↦ rw (there, missing_agent_identity_error) (no_agent session there)
  | inl gone ↦ elim (Bool-cases (any (same_token identity) s.agent_states)) [
    | inl token ↦ rw (gone, token, missing_agent_identity_error) (elsewhere gone token)
    | inr no_token ↦ elim (Bool-cases (any (same_chat identity chat_id) s.agent_states)) [
      | inl chat ↦
          rw (gone, no_token, chat, missing_agent_identity_error) (renewed gone no_token chat)
      | inr no_chat ↦
          rw (gone, no_token, no_chat, missing_agent_identity_error)
            (unheard_of gone no_token no_chat)
    ]
  ]
]
