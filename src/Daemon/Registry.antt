-- ===== src/Daemon/Registry.antt =====
-- src/bin/mult-server.rs, `ServerState`: which sessions exist, which are being created, and who they
-- belong to. A pane is opaque to the registry but for its identity and its agent: `SharedPane` is an
-- `Arc`, here the number `handle` by which `Arc::ptr_eq` tells panes apart.
pub mod Invariant
pub mod Allocate
pub mod Histories
pub mod Create
pub mod Tests
use mult.Base.{
  ℕ, zero, suc, ◌+◌, ◌-◌, ◌≡◌, Bool, true, false, not, ◌&&◌, ◌||◌, Option, none, some, List, [],
  ◌∷◌, ltb, ◌==◌, if◌then◌else◌,
}
use mult.Base.Equality.{Eq, ◌=?◌, nat_eq}
use mult.Base.Map.{Map, get, put, remove, retain, has, add, delete}
use mult.Base.Result.{Result, ok, err, ok_or, ◌>>=◌}
use mult.Protocol.Ids.{SessionIdentity, identity_eq, checked_add, checked_next, u64_limit, min_id}
use mult.Protocol.Reject.{RejectCode, resource_exhausted, shutting_down, session_already_exists}
use mult.Protocol.Agent.{
  AgentSessionMetadata, AgentStatusRecord, AgentStatus, is_final, exited, failed, metadata_beq,
}

abbrev pub contains_key {ℓ} : {V : Type ℓ} → Option V → Bool
contains_key none = false
contains_key (some v) = true

-- The fields of `PaneState` that the registry reads.
pub record SharedPane : Type 0 where
  pub handle : ℕ
  pub identity : SessionIdentity
  pub agent : Option AgentSessionMetadata

pub record DaemonAgentState : Type 0 where
  pub metadata : AgentSessionMetadata
  pub status : Option AgentStatusRecord

pub record ServerState : Type 0 where
  pub sessions : Map ℕ SharedPane
  pub session_by_identity : Map SessionIdentity ℕ
  pub reserved_sessions : List ℕ
  pub reserved_identities : List SessionIdentity
  pub agent_states : Map SessionIdentity DaemonAgentState
  pub next_session_id : ℕ
  pub next_client_id : ℕ
  pub next_lease : Option ℕ
  pub is_shutting_down : Bool

unfoldable pub init : ServerState
init = record {
  sessions = [];
  session_by_identity = [];
  reserved_sessions = [];
  reserved_identities = [];
  agent_states = [];
  next_session_id = 1;
  next_client_id = 1;
  next_lease = some min_id;
  is_shutting_down = false;
}

abbrev pub Handled : Type 0 → Type 0
Handled A = Result RejectCode A × ServerState

unfoldable pub allocate_client_id : ServerState → Handled ℕ
allocate_client_id s = elim (checked_add s.next_client_id 1) [
  | none ↦ (err resource_exhausted, s)
  | some next ↦ (ok s.next_client_id, record s { next_client_id = next })
]

unfoldable pub allocate_lease : ServerState → Handled ℕ
allocate_lease s = elim s.next_lease [
  | none ↦ (err resource_exhausted, s)
  | some lease ↦ (ok lease, record s { next_lease = checked_next lease })
]

unfoldable pub is_free : ServerState → ℕ → Bool
is_free s session =
    not (contains_key (get session s.sessions)) && not (has session s.reserved_sessions)

-- The loop of `allocate_session_id`. Each round raises `next_session_id`, which ends at `u64::MAX`,
-- so the numbers left are fuel enough; `none` means that the fuel ran out.
unfoldable pub allocate_loop : ℕ → ServerState → Option (Handled ℕ)
allocate_loop zero s = none
allocate_loop (suc fuel) s = elim (checked_add s.next_session_id 1) [
  | none ↦ some (err resource_exhausted, s)
  | some next ↦ elim (is_free s s.next_session_id) [
    | true ↦ some (ok s.next_session_id, record s { next_session_id = next })
    | false ↦ allocate_loop fuel (record s { next_session_id = next })
  ]
]

unfoldable pub allocate_session_id : ServerState → Option (Handled ℕ)
unfolding allocate_loop
allocate_session_id s = allocate_loop (u64_limit - s.next_session_id) s

-- The end of `reserve_session`, with the session chosen.
unfoldable pub reserve : ServerState → ℕ → SessionIdentity → Handled ℕ
reserve s session identity =
    if contains_key (get session s.sessions) || has session s.reserved_sessions
    then (err session_already_exists, s)
    else (
      ok session,
      record s {
        reserved_sessions = add session s.reserved_sessions;
        reserved_identities = add identity s.reserved_identities;
      },
    )

unfoldable pub reserve_allocated : Handled ℕ → SessionIdentity → Handled ℕ
reserve_allocated (err code, s) identity = (err code, s)
reserve_allocated (ok session, s) identity = reserve s session identity

-- The session that was asked for, or an allocated one.
unfoldable pub choose : ServerState → Option ℕ → SessionIdentity → Option (Handled ℕ)
choose s (some session) identity = some (reserve s session identity)
choose s none identity = elim (allocate_session_id s) [
  | none ↦ none
  | some r ↦ some (reserve_allocated r identity)
]

unfoldable pub reserve_session : ServerState → Option ℕ → SessionIdentity → Option (Handled ℕ)
reserve_session s requested_id identity =
    if s.is_shutting_down
    then some (err shutting_down, s)
    else if contains_key (get identity s.session_by_identity) || has identity s.reserved_identities
    then some (err session_already_exists, s)
    else choose s requested_id identity

unfoldable pub release_session_reservation : ServerState → ℕ → SessionIdentity → ServerState
release_session_reservation s session identity = record s {
  reserved_sessions = delete session s.reserved_sessions;
  reserved_identities = delete identity s.reserved_identities;
}

-- The agent table after a session of this identity is published.
unfoldable pub publish_agent :
    Option AgentSessionMetadata
    → SessionIdentity
    → Map SessionIdentity DaemonAgentState
    → Map SessionIdentity DaemonAgentState
publish_agent none identity states = remove identity states
publish_agent (some metadata) identity states =
    put identity (record { metadata = metadata; status = none }) states

unfoldable pub publish_reserved_session : ServerState → ℕ → SharedPane → Handled (Unit {0})
unfolding release_session_reservation publish_agent
publish_reserved_session s session pane =
    if s.is_shutting_down
    then (err shutting_down, s)
    else if contains_key (get session s.sessions)
        || contains_key (get pane.identity s.session_by_identity)
        || not (has session s.reserved_sessions)
        || not (has pane.identity s.reserved_identities)
    then (err session_already_exists, s)
    else let released = release_session_reservation s session pane.identity in
      (
        ok tt,
        record released {
          session_by_identity = put pane.identity session s.session_by_identity;
          agent_states = publish_agent pane.agent pane.identity s.agent_states;
          sessions = put session pane s.sessions;
        },
      )

-- The session is removed only if it still holds the same pane.
unfoldable pub remove_session_if_same : ServerState → ℕ → SharedPane → Bool × ServerState
remove_session_if_same s session pane = elim (get session s.sessions) [
  | none ↦ (false, s)
  | some existing ↦
      if existing.handle == pane.handle
      then (
        true,
        record s {
          sessions = remove session s.sessions;
          session_by_identity = retain (λ id. not (id == session)) s.session_by_identity;
        },
      )
      else (false, s)
]

unfoldable pub session_for_identity : ServerState → SessionIdentity → Option SharedPane
session_for_identity s identity = elim (get identity s.session_by_identity) [
  | none ↦ none
  | some session ↦ get session s.sessions
]

unfoldable pub exit_record : SessionIdentity → AgentSessionMetadata → ℕ → AgentStatusRecord
exit_record identity metadata code = record {
  schema_version = metadata.schema_version;
  identity = identity;
  chat_id = metadata.chat_id;
  agent = metadata.agent;
  generation = metadata.generation;
  status = if code == 0 then exited else failed;
}

abbrev pub has_final : Option AgentStatusRecord → Bool
has_final none = false
has_final (some r) = is_final r.status

unfoldable pub record_agent_exit :
    ServerState → SessionIdentity → AgentSessionMetadata → ℕ → ServerState
unfolding exit_record
record_agent_exit s identity metadata code = elim (get identity s.agent_states) [
  | none ↦ s
  | some state ↦
      if not (metadata_beq state.metadata metadata) || has_final state.status then s else record s {
        agent_states =
            put identity (record state { status = some (exit_record identity metadata code) })
              s.agent_states;
      }
]
