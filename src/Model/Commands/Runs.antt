-- ===== src/Model/Commands/Runs.antt =====
-- src/model.rs: what holds of every run of commands.
use mult.Base.{ℕ, ◌≡◌, ◌≢◌, refl, subst, false, none, some, List, [], ◌∷◌, arith, inl, inr}
use mult.Base.Result.{Result, ok, Result-cases}
use mult.Model.Random.{generate_identity, IoError}
use mult.Model.Random.Drawn.{generate_identity-ok}
use mult.Base.OrdSet.{contains}
use mult.Model.Data.{ProjectState, PtyKey, state_version}
use mult.Model.State.{add_workspace, add_remote_workspace, token_of}
use mult.Model.Sessions.{try_default_with}
use mult.Model.Valid.{IsWellFormed}
use mult.Model.Valid.Kept.{assemble}
use mult.Model.Steps.{Change, sessions_kept, new_chat, new_terminal, sessions_lost, Step}
use mult.Model.Steps.Sound.{Step-IsWellFormed}
use mult.Model.Steps.Made.{
  workspace_change, push_workspace-Step, clear_agent_generation-Step, remove_workspace-Step,
  remove_chat-Step, remove_terminal-Step, append_chat_message-Step, append_chat_delta-Step,
  add_chat-Step, add_terminal-Step, begin_agent_generation-Step,
}
use mult.Model.Table.{Table, TableStep, table}
use mult.Model.Table.Refined.{Step-TableStep, TableStep-stable}
use mult.Model.Commands.{
  Command, workspace_command, remote_workspace_command, chat_command, terminal_command,
  begin_command, clear_command, remove_workspace_command, remove_chat_command,
  remove_terminal_command, message_command, delta_command, state_after, source_after, run,
}

-- Steps of the abstract map, one for each change in turn.
pub data TableSteps : List Change → Table → Table → Type 0 where
  done : {t : Table} → TableSteps [] t t
  more :
      {c : Change} {changes : List Change} {before between now : Table}
      → TableStep before between c
      → TableSteps changes between now
      → TableSteps (c ∷ changes) before now

-- What a command means for the sessions of a state: one that adds a chat or a terminal brings a new
-- one, one that removes a chat, a terminal or a workspace loses it, or the sessions in it, and all
-- others keep the sessions.
unfoldable pub change_of : Command → ProjectState → Change
change_of (chat_command wid n st kind) s = new_chat
change_of (terminal_command wid n start) s = new_terminal
change_of (remove_workspace_command wid) s = workspace_change s wid
change_of (remove_chat_command wid cid) s = sessions_lost (cid ∷ []) []
change_of (remove_terminal_command wid tid) s = sessions_lost [] (tid ∷ [])
change_of (workspace_command n dir) s = sessions_kept
change_of (remote_workspace_command n target) s = sessions_kept
change_of (begin_command cid) s = sessions_kept
change_of (clear_command cid generation) s = sessions_kept
change_of (message_command wid cid author words) s = sessions_kept
change_of (delta_command wid cid author words) s = sessions_kept

module _ {Source F : Type 0} (fill_bytes : Source → Result F ℕ × Source) where
  -- The changes of a run.
  unfoldable pub changes_of : List Command → ProjectState → Source → List Change
  changes_of [] s source = []
  changes_of (c ∷ commands) s source =
      change_of c s
      ∷ changes_of commands (state_after fill_bytes c s source) (source_after fill_bytes c s source)

  pub state_after-Step :
      (c : Command) (s : ProjectState) (source : Source)
      → Step s (change_of c s) (state_after fill_bytes c s source)
  unfolding change_of state_after add_workspace add_remote_workspace
  state_after-Step (workspace_command n dir) s source = push_workspace-Step F s n dir none
  state_after-Step (remote_workspace_command n target) s source =
      push_workspace-Step F s n none (some target)
  state_after-Step (chat_command wid n st kind) s source =
      add_chat-Step fill_bytes s wid n st kind source
  state_after-Step (terminal_command wid n start) s source =
      add_terminal-Step fill_bytes s wid n start source
  state_after-Step (begin_command cid) s source =
      begin_agent_generation-Step fill_bytes s cid source
  state_after-Step (clear_command cid generation) s source =
      clear_agent_generation-Step s cid generation
  state_after-Step (remove_workspace_command wid) s source = remove_workspace-Step s wid
  state_after-Step (remove_chat_command wid cid) s source = remove_chat-Step s wid cid
  state_after-Step (remove_terminal_command wid tid) s source = remove_terminal-Step s wid tid
  state_after-Step (message_command wid cid author words) s source =
      append_chat_message-Step s wid cid author words
  state_after-Step (delta_command wid cid author words) s source =
      append_chat_delta-Step s wid cid author words

  -- A well-formed state stays well formed under every list of commands (adding, removing,
  -- generations, messages), from every source of random bytes, also where a command fails.
  pub run-IsWellFormed :
      (commands : List Command) (s : ProjectState) (source : Source)
      → IsWellFormed s
      → IsWellFormed (run fill_bytes commands s source)
  unfolding run
  run-IsWellFormed [] s source good = good
  run-IsWellFormed (c ∷ commands) s source good =
      run-IsWellFormed commands _ _ (Step-IsWellFormed s (state_after-Step c s source) good)

  -- The commands refine the abstract map from sessions to tokens: from a well-formed state a run is
  -- a run of its steps, one for each command. A command that adds a chat or a terminal issues a
  -- non-zero token that no session has, for a session of that kind that has none; one that removes a
  -- chat, a terminal or a workspace revokes the token of that session, or of those in the
  -- workspace, and of no other; or these leave every token as it is. Any other command changes no
  -- token.
  pub run-TableSteps :
      (commands : List Command) (s : ProjectState) (source : Source)
      → IsWellFormed s
      → TableSteps
          (changes_of commands s source)
          (table s)
          (table (run fill_bytes commands s source))
  unfolding run changes_of
  run-TableSteps [] s source good = done
  run-TableSteps (c ∷ commands) s source good =
      let step = state_after-Step c s source in
      more (Step-TableStep s step good)
        (run-TableSteps commands _ _ (Step-IsWellFormed s step good))

  -- A session with a token in a well-formed state that still has one after a command has the same
  -- one.
  pub state_after-stable :
      (c : Command) (s : ProjectState) (source : Source) (key : PtyKey) (a b : ℕ)
      → IsWellFormed s
      → token_of s key ≡ some a
      → token_of (state_after fill_bytes c s source) key ≡ some b
      → a ≡ b
  state_after-stable c s source key a b good =
      TableStep-stable (table s) (table (state_after fill_bytes c s source)) key a b
        (Step-TableStep s (state_after-Step c s source) good)

unfoldable pub fresh_state : ℕ → ProjectState
fresh_state fresh = record {
  version = state_version;
  namespace = fresh;
  session_identities = record { chats = []; terminals = [] };
  agent_generations = [];
  next_workspace_id = 1;
  next_chat_id = 1;
  next_terminal_id = 1;
  workspaces = [];
}

pub fresh_state-IsWellFormed : (fresh : ℕ) → IsWellFormed (fresh_state fresh)
unfolding fresh_state contains
fresh_state-IsWellFormed fresh =
    assemble _ tt refl
      (record {
        unique = tt;
        durable = λ k e. absurd (ground arith);
        table = λ k. refl;
        sorted = tt;
      })
      (record {
        unique = tt;
        durable = λ k e. absurd (ground arith);
        table = λ k. refl;
        sorted = tt;
      })
      tt (record { known = λ k e. absurd (ground arith); apart = tt; sorted = tt })

module _ {Source F : Type 0} (fill_bytes : Source → Result F ℕ × Source) where
  -- The first state of all is well formed, and its namespace is not zero.
  pub try_default_with-IsWellFormed :
      (source : Source) (s : ProjectState)
      → (try_default_with fill_bytes source).0 ≡ ok s
      → IsWellFormed s × (s.namespace ≢ 0)
  unfolding try_default_with fresh_state
  try_default_with-IsWellFormed source s e =
      elim (Result-cases (generate_identity fill_bytes (λ candidate. false) source).0) [
        | inl (fresh, drawn) ↦
            subst (λ x. IsWellFormed x × (x.namespace ≢ 0))
              (same (fresh_state fresh) s (simp (drawn, try_default_with) at e))
              (
                fresh_state-IsWellFormed fresh,
                (generate_identity-ok fill_bytes (λ candidate. false) source fresh drawn).0,
              )
        | inr (failure, drawn) ↦ absurd (ground (arith, drawn, e))
      ]
    where
      same : (a b : ProjectState) → ◌≡◌ {A = Result (IoError F) ProjectState} (ok a) (ok b) → a ≡ b
      same a b h = ground arith
