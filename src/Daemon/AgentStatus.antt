-- ===== src/Daemon/AgentStatus.antt =====
-- src/bin/mult-server.rs: the status that agents report, which the daemon keeps beside their session.
-- The tables are those of the registry.
pub mod Kept
pub mod Refusals
pub mod Answers
pub mod Faithful
pub mod Tests
use mult.Base.{
  ℕ, ◌≡◌, Bool, true, false, not, ◌&&◌, Option, none, some, List, ◌==◌, any, if◌then◌else◌,
}
use mult.Base.Equality.{nat_eq}
use mult.Base.Map.{Map, get, put}
use mult.Protocol.Ids.{SessionIdentity, identity_eq}
use mult.Protocol.Agent.{
  AgentSessionMetadata, AgentStatusRecord, AgentStatusQuery, AgentStatusOutcome, updated, current,
  error, AgentStatusError, wrong_schema, session_not_found, mismatch, not_agent_session, wrong_chat,
  wrong_agent, stale_generation, final_status_conflict, IdentityMismatch, namespace_differs,
  token_differs, AgentKind, kind_beq, status_beq, is_final, agent_status_schema_version,
}
use mult.Daemon.Registry.{ServerState, DaemonAgentState, contains_key}

-- What a `CreateAgent` request may carry.
unfoldable pub validate_agent_metadata : AgentSessionMetadata → Option AgentStatusError
validate_agent_metadata metadata =
    if not (metadata.schema_version == agent_status_schema_version)
    then some (wrong_schema agent_status_schema_version metadata.schema_version)
    else if metadata.chat_id == 0
    then some (wrong_chat 1 0)
    else none

pub identity_mismatch : SessionIdentity → SessionIdentity → IdentityMismatch
identity_mismatch expected received =
    if not (expected.namespace == received.namespace) then namespace_differs else token_differs

pub missing_agent_identity_error : ServerState → SessionIdentity → ℕ → AgentStatusError
missing_agent_identity_error s identity chat_id =
    if contains_key (get identity s.session_by_identity)
    then not_agent_session identity
    else if any (λ entry. entry.0.token == identity.token) s.agent_states
    then mismatch namespace_differs
    else if any
        (λ entry.
          (entry.0.namespace == identity.namespace) && (entry.1.metadata.chat_id == chat_id))
        s.agent_states
    then mismatch token_differs
    else session_not_found identity

-- The three checks that a record and a query share.
unfoldable pub metadata_error : AgentSessionMetadata → ℕ → AgentKind → ℕ → Option AgentStatusError
metadata_error metadata chat_id agent generation =
    if not (chat_id == metadata.chat_id)
    then some (wrong_chat metadata.chat_id chat_id)
    else if not (kind_beq agent metadata.agent)
    then some (wrong_agent metadata.agent agent)
    else if not (generation == metadata.generation)
    then some (stale_generation metadata.generation generation)
    else none

-- The status that is kept, if it is final.
abbrev pub final_status : Option AgentStatusRecord → Option AgentStatusRecord
final_status none = none
final_status (some r) = if is_final r.status then some r else none

-- The end of `update_agent_status`, where the record is of this session.
unfoldable pub store_status :
    ServerState → DaemonAgentState → AgentStatusRecord → AgentStatusOutcome × ServerState
store_status s state r = elim (final_status state.status) [
  | some kept ↦
      if not (status_beq kept.status r.status)
      then (error (final_status_conflict kept.status r.status), s)
      else (updated kept, s)
  | none ↦ (
    updated r,
    record s { agent_states = put r.identity (record state { status = some r }) s.agent_states },
  )
]

unfoldable pub update_agent_status :
    ServerState → AgentStatusRecord → AgentStatusOutcome × ServerState
unfolding missing_agent_identity_error
update_agent_status s r =
    if not (r.schema_version == agent_status_schema_version)
    then (error (wrong_schema agent_status_schema_version r.schema_version), s)
    else elim (get r.identity s.agent_states) [
      | none ↦ (error (missing_agent_identity_error s r.identity r.chat_id), s)
      | some state ↦ elim (metadata_error state.metadata r.chat_id r.agent r.generation) [
        | some e ↦ (error e, s)
        | none ↦ store_status s state r
      ]
    ]

unfoldable pub query_agent_status : ServerState → AgentStatusQuery → AgentStatusOutcome
unfolding missing_agent_identity_error
query_agent_status s query =
    if not (query.schema_version == agent_status_schema_version)
    then error (wrong_schema agent_status_schema_version query.schema_version)
    else elim (get query.identity s.agent_states) [
      | none ↦ error (missing_agent_identity_error s query.identity query.chat_id)
      | some state ↦
          elim (metadata_error state.metadata query.chat_id query.agent query.generation) [
            | some e ↦ error e
            | none ↦ current state.status
          ]
    ]
