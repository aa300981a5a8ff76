-- ===== src/Model/State.antt =====
-- src/model.rs, `impl ProjectState`: the views of a state, the allocation of numbers, and adding
-- workspaces.
use mult.Base.{ℕ, Bool, Option, none, some, List, [], ◌∷◌, ◌++◌, map, ◌==◌, if◌then◌else◌}
use mult.Base.OrdSet.{of_list}
use mult.Base.OrdSet.Count.{flat}
use mult.Base.Find.{find, push}
use mult.Base.OrdMap.{OrdMap, get}
use mult.Base.Result.{Result, ok, err}
use mult.Protocol.Ids.{SessionIdentity}
use mult.Model.Ids.{take_available_id, is_valid_durable_session_id, max_durable_session_id, u64_max}
use mult.Model.Data.{
  Text, IdAllocationError, workspace_ids, chat_ids_spent, terminal_ids_spent, ChatSession,
  TerminalSession, RemoteTarget, Workspace, ProjectState, PtyKey, terminal_key, chat_agent_key,
  chat_numbers, terminal_numbers, workspace_numbers,
}

abbrev pub chat_ids : ProjectState → List ℕ
chat_ids s = flat chat_numbers s.workspaces

abbrev pub terminal_ids : ProjectState → List ℕ
terminal_ids s = flat terminal_numbers s.workspaces

-- `retain` of the durable numbers.
unfoldable pub durable : List ℕ → List ℕ
durable [] = []
durable (id ∷ ids) =
    let rest = durable ids in if is_valid_durable_session_id id then id ∷ rest else rest

abbrev pub values : OrdMap ℕ → List ℕ
values m = map (λ (p : ℕ × ℕ). p.1) m

abbrev pub is_workspace : ℕ → Workspace → Bool
is_workspace id w = w.id == id

abbrev pub is_chat : ℕ → ChatSession → Bool
is_chat id c = c.id == id

abbrev pub is_terminal : ℕ → TerminalSession → Bool
is_terminal id t = t.id == id

unfoldable pub workspace : ProjectState → ℕ → Option Workspace
workspace s id = find (is_workspace id) s.workspaces

-- The token of a key's session.
unfoldable pub token_of : ProjectState → PtyKey → Option ℕ
token_of s (terminal_key id) = get id s.session_identities.terminals
token_of s (chat_agent_key id) = get id s.session_identities.chats

unfoldable pub session_identity : ProjectState → PtyKey → Option SessionIdentity
session_identity s key = elim (token_of s key) [
  | none ↦ none
  | some t ↦ some (record { namespace = s.namespace; token = t })
]

-- All tokens of the state.
abbrev pub tokens : ProjectState → List ℕ
tokens s = values s.session_identities.chats ++ values s.session_identities.terminals

-- What `take_available_id` gives: the number, and the state with the next hint.
unfoldable pub grant :
    {F : Type 0}
    → IdAllocationError F
    → (ℕ → ProjectState)
    → Option (ℕ × ℕ × List ℕ)
    → Result (IdAllocationError F) (ℕ × ProjectState)
grant e with_next none = err e
grant e with_next (some (id, next, used)) = ok (id, with_next next)

unfoldable pub allocate_workspace_id :
    {F : Type 0} → ProjectState → Result (IdAllocationError F) (ℕ × ProjectState)
allocate_workspace_id s =
    grant workspace_ids (λ next. record s { next_workspace_id = next })
      (take_available_id (of_list (workspace_numbers s.workspaces)) s.next_workspace_id u64_max)

unfoldable pub allocate_chat_id :
    {F : Type 0} → ProjectState → Result (IdAllocationError F) (ℕ × ProjectState)
allocate_chat_id s =
    grant chat_ids_spent (λ next. record s { next_chat_id = next })
      (take_available_id (of_list (durable (chat_ids s))) s.next_chat_id max_durable_session_id)

unfoldable pub allocate_terminal_id :
    {F : Type 0} → ProjectState → Result (IdAllocationError F) (ℕ × ProjectState)
allocate_terminal_id s =
    grant terminal_ids_spent (λ next. record s { next_terminal_id = next })
      (take_available_id (of_list (durable (terminal_ids s))) s.next_terminal_id
        max_durable_session_id)

-- A new workspace, empty.
abbrev pub new_workspace : ℕ → Text → Option Text → Option RemoteTarget → Workspace
new_workspace i n dir target = record {
  id = i;
  name = n;
  cwd = dir;
  remote = target;
  environment = [];
  chats = [];
  terminals = [];
}

unfoldable pub push_workspace :
    {F : Type 0}
    → ProjectState
    → Text
    → Option Text
    → Option RemoteTarget
    → ProjectState × Result (IdAllocationError F) ℕ
push_workspace {F = F} s n dir target = elim (allocate_workspace_id {F = F} s) [
  | err e ↦ (s, err e)
  | ok p ↦
      (record p.1 { workspaces = push (new_workspace p.0 n dir target) p.1.workspaces }, ok p.0)
]

unfoldable pub add_workspace :
    {F : Type 0} → ProjectState → Text → Option Text → ProjectState × Result (IdAllocationError F) ℕ
add_workspace s n dir = push_workspace s n dir none

unfoldable pub add_remote_workspace :
    {F : Type 0}
    → ProjectState
    → Text
    → RemoteTarget
    → ProjectState × Result (IdAllocationError F) ℕ
add_remote_workspace s n target = push_workspace s n none (some target)
