-- ===== src/Model/Data.antt =====
-- src/model.rs: the data types of the project state. Text is its UTF-8 bytes, an identity the
-- number of its 16 bytes, an ID the number inside. `Vec` is a list, `BTreeMap` by ID an `OrdMap`.
use mult.Base.{ℕ, Bool, true, false, Option, List, map}
use mult.Base.OrdMap.{OrdMap}
use mult.Model.Random.{IoError}

abbrev pub Text : Type 0
Text = List ℕ

abbrev pub state_version : ℕ
state_version = 5

pub data IdAllocationError (Failure : Type 0) : Type 0 where
  workspace_ids : IdAllocationError Failure
  chat_ids_spent : IdAllocationError Failure
  terminal_ids_spent : IdAllocationError Failure
  identity_error : IoError Failure → IdAllocationError Failure

pub record SessionIdentities : Type 0 where
  pub chats : OrdMap ℕ
  pub terminals : OrdMap ℕ

pub data AgentKind : Type 0 where
  pi : AgentKind
  claude_code : AgentKind
  codex : AgentKind

pub data ChatMessageRole : Type 0 where
  user : ChatMessageRole
  assistant : ChatMessageRole
  system : ChatMessageRole
  tool : ChatMessageRole
  failure : ChatMessageRole

pub record ChatMessage : Type 0 where
  pub role : ChatMessageRole
  pub text : Text

pub data ChatStatus : Type 0 where
  idle : ChatStatus
  thinking : ChatStatus
  waiting : ChatStatus
  failed : ChatStatus
  done : ChatStatus
  done_seen : ChatStatus

pub data TerminalLaunch : Type 0 where
  shell : TerminalLaunch
  command : Text → TerminalLaunch

pub record ChatSession : Type 0 where
  pub id : ℕ
  pub name : Text
  pub status : ChatStatus
  pub agent : AgentKind
  pub messages : List ChatMessage

pub record TerminalSession : Type 0 where
  pub id : ℕ
  pub name : Text
  pub restore_on_launch : Bool
  pub launch : TerminalLaunch

pub record RemoteTarget : Type 0 where
  pub host : Text
  pub path : Text
  pub session : Text

pub record Workspace : Type 0 where
  pub id : ℕ
  pub name : Text
  pub cwd : Option Text
  pub remote : Option RemoteTarget
  pub environment : List (Text × Text)
  pub chats : List ChatSession
  pub terminals : List TerminalSession

pub record ProjectState : Type 0 where
  pub version : ℕ
  pub namespace : ℕ
  pub session_identities : SessionIdentities
  pub agent_generations : OrdMap ℕ
  pub next_workspace_id : ℕ
  pub next_chat_id : ℕ
  pub next_terminal_id : ℕ
  pub workspaces : List Workspace

-- `PtyKey`
pub data PtyKey : Type 0 where
  terminal_key : ℕ → PtyKey
  chat_agent_key : ℕ → PtyKey

-- The derived `PartialEq` of a role.
unfoldable pub role_beq : ChatMessageRole → ChatMessageRole → Bool
role_beq user user = true
role_beq assistant assistant = true
role_beq system system = true
role_beq tool tool = true
role_beq failure failure = true
role_beq a b = false

unfoldable pub is_done : ChatStatus → Bool
is_done done = true
is_done done_seen = true
is_done other = false

-- `done_seen`
unfoldable pub is_done_seen : ChatStatus → Bool
is_done_seen done_seen = true
is_done_seen other = false

unfoldable pub with_done_seen : ChatStatus → Bool → ChatStatus
with_done_seen done true = done_seen
with_done_seen done_seen true = done_seen
with_done_seen done false = done
with_done_seen done_seen false = done
with_done_seen other seen = other

-- The numbers of a workspace's sessions.
abbrev pub chat_numbers : Workspace → List ℕ
chat_numbers w = map (λ (c : ChatSession). c.id) w.chats

abbrev pub terminal_numbers : Workspace → List ℕ
terminal_numbers w = map (λ (t : TerminalSession). t.id) w.terminals

abbrev pub workspace_numbers : List Workspace → List ℕ
workspace_numbers ws = map (λ (w : Workspace). w.id) ws
