-- ===== src/Protocol/Agent.antt =====
-- crates/protocol/src/lib.rs: agent sessions, their status, and the errors of status requests.
use mult.Base.{ℕ, ◌≡◌, ◌↔◌, Bool, true, false, ◌&&◌, Option, arith, ◌==◌}
use mult.Base.Equality.{Eq}
use mult.Protocol.Ids.{SessionIdentity}
use mult.Protocol.Reject.{
  RejectCode, request_collision, retry_expired, unknown_session, identity_mismatch,
  agent_status_rejected,
}

abbrev pub agent_status_schema_version : ℕ
agent_status_schema_version = 1

pub data AgentKind : Type 0 where
  pi claude_code codex : AgentKind

pub data AgentStatus : Type 0 where
  idle running waiting finished failed exited : AgentStatus

unfoldable pub is_final : AgentStatus → Bool
is_final failed = true
is_final exited = true
is_final _ = false

kind_index : AgentKind → ℕ
kind_index pi = 0
kind_index claude_code = 1
kind_index codex = 2

status_index : AgentStatus → ℕ
status_index idle = 0
status_index running = 1
status_index waiting = 2
status_index finished = 3
status_index failed = 4
status_index exited = 5

unfoldable pub kind_beq : AgentKind → AgentKind → Bool
unfolding kind_index
kind_beq a b = kind_index a == kind_index b

unfoldable pub status_beq : AgentStatus → AgentStatus → Bool
unfolding status_index
status_beq a b = status_index a == status_index b

pub kind_beq_iff : (a b : AgentKind) → (kind_beq a b ≡ true) ↔ (a ≡ b)
unfolding kind_beq
kind_beq_iff a b = ground arith

pub status_beq_iff : (a b : AgentStatus) → (status_beq a b ≡ true) ↔ (a ≡ b)
unfolding status_beq
status_beq_iff a b = ground arith

instance abbrev pub kind_eq : Eq AgentKind
kind_eq = record { beq = kind_beq; beq_iff = kind_beq_iff }

instance abbrev pub status_eq : Eq AgentStatus
status_eq = record { beq = status_beq; beq_iff = status_beq_iff }

pub record AgentSessionMetadata : Type 0 where
  pub schema_version : ℕ
  pub chat_id : ℕ
  pub agent : AgentKind
  pub generation : ℕ

unfoldable pub metadata_beq : AgentSessionMetadata → AgentSessionMetadata → Bool
metadata_beq a b =
    (a.schema_version == b.schema_version)
    && (a.chat_id == b.chat_id)
    && kind_beq a.agent b.agent
    && (a.generation == b.generation)

pub metadata_beq_iff : (a b : AgentSessionMetadata) → (metadata_beq a b ≡ true) ↔ (a ≡ b)
unfolding metadata_beq
metadata_beq_iff a b = ground (arith, kind_beq_iff a.agent b.agent)

instance abbrev pub metadata_eq : Eq AgentSessionMetadata
metadata_eq = record { beq = metadata_beq; beq_iff = metadata_beq_iff }

pub record AgentStatusRecord : Type 0 where
  pub schema_version : ℕ
  pub identity : SessionIdentity
  pub chat_id : ℕ
  pub agent : AgentKind
  pub generation : ℕ
  pub status : AgentStatus

pub record AgentStatusQuery : Type 0 where
  pub schema_version : ℕ
  pub identity : SessionIdentity
  pub chat_id : ℕ
  pub agent : AgentKind
  pub generation : ℕ

pub data IdentityMismatch : Type 0 where
  namespace_differs token_differs : IdentityMismatch

pub data AgentStatusError : Type 0 where
  request_collides : AgentStatusError
  retry_too_old : AgentStatusError
  wrong_schema : ℕ → ℕ → AgentStatusError
  session_not_found : SessionIdentity → AgentStatusError
  mismatch : IdentityMismatch → AgentStatusError
  not_agent_session : SessionIdentity → AgentStatusError
  wrong_chat : ℕ → ℕ → AgentStatusError
  wrong_agent : AgentKind → AgentKind → AgentStatusError
  stale_generation : ℕ → ℕ → AgentStatusError
  final_status_conflict : AgentStatus → AgentStatus → AgentStatusError
  status_failed : RejectCode → AgentStatusError

pub data AgentStatusOutcome : Type 0 where
  updated : AgentStatusRecord → AgentStatusOutcome
  current : Option AgentStatusRecord → AgentStatusOutcome
  error : AgentStatusError → AgentStatusOutcome

pub agent_status_code : AgentStatusError → RejectCode
agent_status_code request_collides = request_collision
agent_status_code retry_too_old = retry_expired
agent_status_code (session_not_found identity) = unknown_session
agent_status_code (mismatch m) = identity_mismatch
agent_status_code (status_failed code) = code
agent_status_code _ = agent_status_rejected
