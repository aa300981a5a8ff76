-- ===== src/Storage/Migrate.antt =====
-- src/storage.rs: the migrations, one hop per version.
use mult.Base.{ℕ, none, List, [], map}
use mult.Model.Data.{ChatSession, TerminalSession, Workspace, ProjectState, state_version}
use mult.Storage.{
  ChatV1, TerminalV2, WorkspaceV1, WorkspaceV2, WorkspaceV3, StateV1, StateV2, StateV3,
  into_restore_intent,
}

abbrev pub chat_of_v1 : ChatV1 → ChatSession
chat_of_v1 c = record {
  id = c.id;
  name = c.name;
  status = c.status;
  agent = c.agent;
  messages = c.messages;
}

abbrev pub workspace_of_v1 : WorkspaceV1 → WorkspaceV2
workspace_of_v1 w = record {
  id = w.id;
  name = w.name;
  cwd = w.cwd;
  environment = w.environment;
  chats = map chat_of_v1 w.chats;
  terminals = w.terminals;
}

unfoldable pub migrate_v1_to_v2 : StateV1 → List WorkspaceV2
migrate_v1_to_v2 old = map workspace_of_v1 old.workspaces

-- The version-2 state that a version-1 state becomes, with its new namespace.
unfoldable pub state_of_v1 : StateV1 → ℕ → StateV2
state_of_v1 old fresh = record {
  version = 2;
  namespace = fresh;
  session_identities = record { chats = []; terminals = [] };
  agent_generations = [];
  next_workspace_id = old.next_workspace_id;
  next_chat_id = old.next_chat_id;
  next_terminal_id = old.next_terminal_id;
  workspaces = migrate_v1_to_v2 old;
}

abbrev pub terminal_of_v2 : TerminalV2 → TerminalSession
terminal_of_v2 t = record {
  id = t.id;
  name = t.name;
  restore_on_launch = into_restore_intent t.status;
  launch = t.launch;
}

abbrev pub workspace_of_v2 : WorkspaceV2 → WorkspaceV3
workspace_of_v2 w = record {
  id = w.id;
  name = w.name;
  cwd = w.cwd;
  environment = w.environment;
  chats = w.chats;
  terminals = map terminal_of_v2 w.terminals;
}

unfoldable pub migrate_v2_to_v3 : StateV2 → StateV3
migrate_v2_to_v3 old = record {
  version = 3;
  namespace = old.namespace;
  session_identities = old.session_identities;
  agent_generations = old.agent_generations;
  next_workspace_id = old.next_workspace_id;
  next_chat_id = old.next_chat_id;
  next_terminal_id = old.next_terminal_id;
  workspaces = map workspace_of_v2 old.workspaces;
}

abbrev pub workspace_of_v3 : WorkspaceV3 → Workspace
workspace_of_v3 w = record {
  id = w.id;
  name = w.name;
  cwd = w.cwd;
  remote = none;
  environment = w.environment;
  chats = w.chats;
  terminals = w.terminals;
}

-- The version-4 state before its repair.
unfoldable pub state_of_v3 : StateV3 → ProjectState
state_of_v3 old = record {
  version = 4;
  namespace = old.namespace;
  session_identities = old.session_identities;
  agent_generations = old.agent_generations;
  next_workspace_id = old.next_workspace_id;
  next_chat_id = old.next_chat_id;
  next_terminal_id = old.next_terminal_id;
  workspaces = map workspace_of_v3 old.workspaces;
}

unfoldable pub migrate_v4_to_v5 : ProjectState → ProjectState
migrate_v4_to_v5 s = record s { version = state_version }
