-- ===== src/Model/Steps.antt =====
-- src/model.rs: the changes that one operation on the project state can make, as a relation on
-- states. Every operation makes one of them.
pub mod Sound
pub mod Made
use mult.Base.{ℕ, ◌≤◌, ◌≡◌, ◌≢◌, Bool, true, false, Option, none, some, List, [], ◌∷◌}
use mult.Base.OrdSet.{contains}
use mult.Base.Find.{find, remove_first, push}
use mult.Base.OrdMap.{put, remove, get}
use mult.Model.Ids.{is_valid_durable_session_id}
use mult.Model.Data.{
  Text, ChatSession, TerminalSession, RemoteTarget, Workspace, ProjectState, workspace_numbers,
  chat_numbers, terminal_numbers,
}
use mult.Model.State.{
  values, chat_ids, terminal_ids, tokens, is_workspace, is_chat, is_terminal, workspace,
  new_workspace,
}
use mult.Model.Sessions.{remove_all, insert_chat, insert_terminal, without_chat, without_terminal}
use mult.Model.Messages.{update_chat}

-- What a change means for the sessions: they stay, a chat or a terminal comes, or the chats and the
-- terminals with these numbers go.
pub data Change : Type 0 where
  sessions_kept new_chat new_terminal : Change
  sessions_lost : List ℕ → List ℕ → Change

pub data Step (s : ProjectState) : Change → ProjectState → Type 0 where
  unchanged : {c : Change} → Step s c s
  workspace_added :
      (id next : ℕ) (name : Text) (dir : Option Text) (target : Option RemoteTarget)
      → 1 ≤ id
      → contains id (workspace_numbers s.workspaces) ≡ false
      → Step s sessions_kept (record s {
        next_workspace_id = next;
        workspaces = push (new_workspace id name dir target) s.workspaces;
      })
  chat_added :
      (next wid token : ℕ) (w : Workspace) (added : ChatSession)
      → workspace s wid ≡ some w
      → contains added.id (chat_ids s) ≡ false
      → is_valid_durable_session_id added.id ≡ true
      → token ≢ 0
      → contains token (tokens s) ≡ false
      → Step s new_chat (insert_chat wid added token (record s { next_chat_id = next }))
  terminal_added :
      (next wid token : ℕ) (w : Workspace) (added : TerminalSession)
      → workspace s wid ≡ some w
      → contains added.id (terminal_ids s) ≡ false
      → is_valid_durable_session_id added.id ≡ true
      → token ≢ 0
      → contains token (tokens s) ≡ false
      → Step s new_terminal (insert_terminal wid added token (record s { next_terminal_id = next }))
  generation_begun :
      (chat_id generation : ℕ)
      → contains chat_id (chat_ids s) ≡ true
      → contains generation (values s.agent_generations) ≡ false
      → Step s sessions_kept
          (record s { agent_generations = put chat_id generation s.agent_generations })
  generation_cleared :
      (chat_id : ℕ)
      → Step s sessions_kept (record s { agent_generations = remove chat_id s.agent_generations })
  workspace_removed :
      (wid : ℕ) (w : Workspace)
      → workspace s wid ≡ some w
      → Step s (sessions_lost (chat_numbers w) (terminal_numbers w)) (record s {
        workspaces = remove_first (is_workspace wid) s.workspaces;
        session_identities = record {
          chats = remove_all (chat_numbers w) s.session_identities.chats;
          terminals = remove_all (terminal_numbers w) s.session_identities.terminals;
        };
        agent_generations = remove_all (chat_numbers w) s.agent_generations;
      })
  chat_removed :
      (wid chat_id : ℕ) (w : Workspace) (c : ChatSession)
      → workspace s wid ≡ some w
      → find (is_chat chat_id) w.chats ≡ some c
      → Step s (sessions_lost (chat_id ∷ []) []) (without_chat s wid chat_id)
  terminal_removed :
      (wid terminal_id : ℕ) (w : Workspace) (t : TerminalSession)
      → workspace s wid ≡ some w
      → find (is_terminal terminal_id) w.terminals ≡ some t
      → Step s (sessions_lost [] (terminal_id ∷ [])) (without_terminal s wid terminal_id)
  chat_edited :
      (wid chat_id : ℕ) (f : ChatSession → ChatSession)
      → ((c : ChatSession) → (f c).id ≡ c.id)
      → Step s sessions_kept (update_chat s wid chat_id f)
