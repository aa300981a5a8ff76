-- ===== src/Storage.antt =====
-- src/storage.rs: what is decoded from a state file, its migration to the current version, and the
-- repair of a loaded state. The bytes on disk and their decoding are not modelled.
pub mod Migrate
pub mod Load
pub mod Sound
pub mod Tests
use mult.Base.{ℕ, Bool, true, false, Option, List}
use mult.Base.OrdMap.{OrdMap}
use mult.Model.Data.{
  Text, SessionIdentities, ChatStatus, AgentKind, ChatMessage, ChatSession, TerminalLaunch,
  TerminalSession, ProjectState, IdAllocationError,
}
use mult.Model.Validate.{InvalidState}

-- `TerminalStatusV2`
pub data TerminalStatus : Type 0 where
  stopped : TerminalStatus
  running : TerminalStatus

unfoldable pub into_restore_intent : TerminalStatus → Bool
into_restore_intent running = true
into_restore_intent stopped = false

pub record ChatV1 : Type 0 where
  pub id : ℕ
  pub name : Text
  pub status : ChatStatus
  pub agent : AgentKind
  pub messages : List ChatMessage

-- `TerminalV1`, and `TerminalV2`, which has the same fields.
pub record TerminalV2 : Type 0 where
  pub id : ℕ
  pub name : Text
  pub status : TerminalStatus
  pub launch : TerminalLaunch

pub record WorkspaceV1 : Type 0 where
  pub id : ℕ
  pub name : Text
  pub cwd : Option Text
  pub environment : List (Text × Text)
  pub chats : List ChatV1
  pub terminals : List TerminalV2

pub record WorkspaceV2 : Type 0 where
  pub id : ℕ
  pub name : Text
  pub cwd : Option Text
  pub environment : List (Text × Text)
  pub chats : List ChatSession
  pub terminals : List TerminalV2

pub record WorkspaceV3 : Type 0 where
  pub id : ℕ
  pub name : Text
  pub cwd : Option Text
  pub environment : List (Text × Text)
  pub chats : List ChatSession
  pub terminals : List TerminalSession

pub record StateV1 : Type 0 where
  pub version : ℕ
  pub next_workspace_id : ℕ
  pub next_chat_id : ℕ
  pub next_terminal_id : ℕ
  pub workspaces : List WorkspaceV1

-- `StateV2` and `StateV3`, by their workspaces.
pub record StateOf (W : Type 0) : Type 0 where
  pub version : ℕ
  pub namespace : ℕ
  pub session_identities : SessionIdentities
  pub agent_generations : OrdMap ℕ
  pub next_workspace_id : ℕ
  pub next_chat_id : ℕ
  pub next_terminal_id : ℕ
  pub workspaces : List W

abbrev pub StateV2 : Type 0
StateV2 = StateOf WorkspaceV2

abbrev pub StateV3 : Type 0
StateV3 = StateOf WorkspaceV3

pub data DecodedState : Type 0 where
  v1 : StateV1 → DecodedState
  v2 : StateV2 → DecodedState
  v3 : StateV3 → DecodedState
  v4 : ProjectState → DecodedState
  v5 : ProjectState → DecodedState

-- `StateError::Invalid`, by the version or by the check that fails, and `StateError::Io` for an
-- allocation that fails.
pub data StateError (F : Type 0) : Type 0 where
  wrong_version : ℕ → StateError F
  invalid : InvalidState → StateError F
  allocation_failed : IdAllocationError F → StateError F

pub record LoadedState : Type 0 where
  pub state : ProjectState
  pub needs_save : Bool
