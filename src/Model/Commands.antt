-- ===== src/Model/Commands.antt =====
-- src/model.rs: the operations as commands, run one after another on a state and a source of random
-- bytes.
pub mod Runs
use mult.Base.{ℕ, Option, List, [], ◌∷◌}
use mult.Base.Result.{Result}
use mult.Model.Data.{
  Text, ChatStatus, AgentKind, TerminalLaunch, ChatMessageRole, RemoteTarget, ProjectState,
}
use mult.Model.State.{add_workspace, add_remote_workspace}
use mult.Model.Sessions.{
  add_chat_with_source, add_terminal_with_source, begin_agent_generation_with_source,
  clear_agent_generation, remove_workspace, remove_chat, remove_terminal,
}
use mult.Model.Messages.{append_chat_message, append_chat_delta}

pub data Command : Type 0 where
  workspace_command : Text → Option Text → Command
  remote_workspace_command : Text → RemoteTarget → Command
  chat_command : ℕ → Text → ChatStatus → AgentKind → Command
  terminal_command : ℕ → Text → TerminalLaunch → Command
  begin_command : ℕ → Command
  clear_command : ℕ → ℕ → Command
  remove_workspace_command : ℕ → Command
  remove_chat_command : ℕ → ℕ → Command
  remove_terminal_command : ℕ → ℕ → Command
  message_command : ℕ → ℕ → ChatMessageRole → Text → Command
  delta_command : ℕ → ℕ → ChatMessageRole → Text → Command

module _ {Source F : Type 0} (fill_bytes : Source → Result F ℕ × Source) where
  -- The state that a command leaves.
  unfoldable pub state_after : Command → ProjectState → Source → ProjectState
  state_after (workspace_command n dir) s source = (add_workspace {F = F} s n dir).0
  state_after (remote_workspace_command n target) s source =
      (add_remote_workspace {F = F} s n target).0
  state_after (chat_command wid n st kind) s source =
      (add_chat_with_source fill_bytes s wid n st kind source).0
  state_after (terminal_command wid n start) s source =
      (add_terminal_with_source fill_bytes s wid n start source).0
  state_after (begin_command cid) s source =
      (begin_agent_generation_with_source fill_bytes s cid source).0
  state_after (clear_command cid generation) s source = (clear_agent_generation s cid generation).0
  state_after (remove_workspace_command wid) s source = (remove_workspace s wid).0
  state_after (remove_chat_command wid cid) s source = (remove_chat s wid cid).0
  state_after (remove_terminal_command wid tid) s source = (remove_terminal s wid tid).0
  state_after (message_command wid cid author words) s source =
      (append_chat_message s wid cid author words).0
  state_after (delta_command wid cid author words) s source =
      (append_chat_delta s wid cid author words).0

  -- What is left of the source; a command that draws nothing leaves it as it is.
  unfoldable pub source_after : Command → ProjectState → Source → Source
  source_after (chat_command wid n st kind) s source =
      (add_chat_with_source fill_bytes s wid n st kind source).2
  source_after (terminal_command wid n start) s source =
      (add_terminal_with_source fill_bytes s wid n start source).2
  source_after (begin_command cid) s source =
      (begin_agent_generation_with_source fill_bytes s cid source).2
  source_after other s source = source

  unfoldable pub run : List Command → ProjectState → Source → ProjectState
  run [] s source = s
  run (c ∷ commands) s source = run commands (state_after c s source) (source_after c s source)
