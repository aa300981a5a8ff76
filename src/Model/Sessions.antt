-- ===== src/Model/Sessions.antt =====
-- src/model.rs, `impl ProjectState`: adding and removing chats and terminals, removing a workspace,
-- and the agent generations. An operation returns the state it leaves, also where it fails, and
-- what is left of the source of random bytes where it draws.
use mult.Base.{ℕ, Bool, true, false, Option, none, some, List, [], ◌∷◌, ◌==◌, if◌then◌else◌}
use mult.Base.OrdSet.{contains}
use mult.Base.Find.{find, update_first, remove_first, push}
use mult.Base.OrdMap.{OrdMap, get, put, remove}
use mult.Base.Result.{Result, ok, err}
use mult.Model.Random.{IoError, generate_identity}
use mult.Model.Data.{
  Text, state_version, IdAllocationError, identity_error, AgentKind, ChatStatus, TerminalLaunch,
  ChatSession, TerminalSession, Workspace, ProjectState, chat_numbers, terminal_numbers,
}
use mult.Model.State.{
  chat_ids, values, is_workspace, is_chat, is_terminal, workspace, tokens, allocate_chat_id,
  allocate_terminal_id,
}

-- The part of adding a session that follows the two allocations.
abbrev pub insert_chat : ℕ → ChatSession → ℕ → ProjectState → ProjectState
insert_chat workspace_id chat token s = record s {
  workspaces =
      update_first (is_workspace workspace_id) (λ w. record w { chats = push chat w.chats })
        s.workspaces;
  session_identities = record s.session_identities {
    chats = put chat.id token s.session_identities.chats;
  };
}

abbrev pub insert_terminal : ℕ → TerminalSession → ℕ → ProjectState → ProjectState
insert_terminal workspace_id terminal token s = record s {
  workspaces =
      update_first (is_workspace workspace_id)
        (λ w. record w { terminals = push terminal w.terminals }) s.workspaces;
  session_identities = record s.session_identities {
    terminals = put terminal.id token s.session_identities.terminals;
  };
}

-- The rest of adding a session, once a token was asked for: a number is allocated, and the session
-- is inserted under it.
unfoldable pub settle_session :
    {F Source : Type 0}
    → ProjectState
    → Result (IdAllocationError F) (ℕ × ProjectState)
    → (ℕ → ℕ → ProjectState → ProjectState)
    → Result (IdAllocationError F) ℕ × Source
    → ProjectState × Result (IdAllocationError F) (Option ℕ) × Source
settle_session s allocated insert_session (err e, rest) = (s, err e, rest)
settle_session s (err e) insert_session (ok token, rest) = (s, err e, rest)
settle_session s (ok (id, s1)) insert_session (ok token, rest) =
    (insert_session id token s1, ok (some id), rest)

-- `clear_agent_generation`
unfoldable pub clear_agent_generation : ProjectState → ℕ → ℕ → ProjectState × Bool
clear_agent_generation s chat_id generation = elim (get chat_id s.agent_generations) [
  | none ↦ (s, false)
  | some current ↦
      if current == generation
      then (record s { agent_generations = remove chat_id s.agent_generations }, true)
      else (s, false)
]

-- `identity_allocation_error` of a draw that failed.
unfoldable pub identity_allocation_error :
    {F Source : Type 0} → Result (IoError F) ℕ × Source → Result (IdAllocationError F) ℕ × Source
identity_allocation_error (ok identity, rest) = (ok identity, rest)
identity_allocation_error (err e, rest) = (err (identity_error e), rest)

-- The end of `begin_agent_generation_with_source`.
unfoldable pub settle_generation :
    {F Source : Type 0}
    → ProjectState
    → ℕ
    → Result (IdAllocationError F) ℕ × Source
    → ProjectState × Result (IdAllocationError F) (Option ℕ) × Source
settle_generation s chat_id (err e, rest) = (s, err e, rest)
settle_generation s chat_id (ok generation, rest) = (
  record s { agent_generations = put chat_id generation s.agent_generations },
  ok (some generation),
  rest,
)

module _ {Source F : Type 0} (fill_bytes : Source → Result F ℕ × Source) where
  unfoldable pub allocate_session_token :
      ProjectState → Source → Result (IdAllocationError F) ℕ × Source
  allocate_session_token s source =
      identity_allocation_error
        (generate_identity fill_bytes (λ candidate. contains candidate (tokens s)) source)

  unfoldable pub add_chat_with_source :
      ProjectState
      → ℕ
      → Text
      → ChatStatus
      → AgentKind
      → Source
      → ProjectState × Result (IdAllocationError F) (Option ℕ) × Source
  add_chat_with_source s workspace_id n st kind source = elim (workspace s workspace_id) [
    | none ↦ (s, ok none, source)
    | some w ↦
        settle_session s (allocate_chat_id s)
          (λ i token.
            insert_chat workspace_id
              (record { id = i; name = n; status = st; agent = kind; messages = [] }) token)
          (allocate_session_token s source)
  ]

  unfoldable pub add_terminal_with_source :
      ProjectState
      → ℕ
      → Text
      → TerminalLaunch
      → Source
      → ProjectState × Result (IdAllocationError F) (Option ℕ) × Source
  add_terminal_with_source s workspace_id n start source = elim (workspace s workspace_id) [
    | none ↦ (s, ok none, source)
    | some w ↦
        settle_session s (allocate_terminal_id s)
          (λ i token.
            insert_terminal workspace_id
              (record { id = i; name = n; restore_on_launch = false; launch = start }) token)
          (allocate_session_token s source)
  ]

  unfoldable pub begin_agent_generation_with_source :
      ProjectState → ℕ → Source → ProjectState × Result (IdAllocationError F) (Option ℕ) × Source
  begin_agent_generation_with_source s chat_id source =
      if contains chat_id (chat_ids s)
      then settle_generation s chat_id (
          identity_allocation_error (
            generate_identity fill_bytes
              (λ candidate. contains candidate (values s.agent_generations)) source))
      else (s, ok none, source)

  unfoldable pub try_default_with : Source → Result (IoError F) ProjectState × Source
  try_default_with source = elim (generate_identity fill_bytes (λ candidate. false) source).0 [
    | err e ↦ (err e, (generate_identity fill_bytes (λ candidate. false) source).1)
    | ok fresh ↦ (
      ok (record {
        version = state_version;
        namespace = fresh;
        session_identities = record { chats = []; terminals = [] };
        agent_generations = [];
        next_workspace_id = 1;
        next_chat_id = 1;
        next_terminal_id = 1;
        workspaces = [];
      }),
      (generate_identity fill_bytes (λ candidate. false) source).1,
    )
  ]

-- The removal of the entries of many sessions.
unfoldable pub remove_all : List ℕ → OrdMap ℕ → OrdMap ℕ
remove_all [] m = m
remove_all (id ∷ ids) m = remove_all ids (remove id m)

unfoldable pub remove_workspace : ProjectState → ℕ → ProjectState × Option Workspace
remove_workspace s workspace_id = elim (workspace s workspace_id) [
  | none ↦ (s, none)
  | some w ↦ (
    record s {
      workspaces = remove_first (is_workspace workspace_id) s.workspaces;
      session_identities = record {
        chats = remove_all (chat_numbers w) s.session_identities.chats;
        terminals = remove_all (terminal_numbers w) s.session_identities.terminals;
      };
      agent_generations = remove_all (chat_numbers w) s.agent_generations;
    },
    some w,
  )
]

-- The state without a chat that its workspace holds.
abbrev pub without_chat : ProjectState → ℕ → ℕ → ProjectState
without_chat s workspace_id chat_id = record s {
  workspaces =
      update_first (is_workspace workspace_id)
        (λ w. record w { chats = remove_first (is_chat chat_id) w.chats }) s.workspaces;
  session_identities = record s.session_identities {
    chats = remove chat_id s.session_identities.chats;
  };
  agent_generations = remove chat_id s.agent_generations;
}

unfoldable pub remove_chat : ProjectState → ℕ → ℕ → ProjectState × Option ChatSession
remove_chat s workspace_id chat_id = elim (workspace s workspace_id) [
  | none ↦ (s, none)
  | some w ↦ elim (find (is_chat chat_id) w.chats) [
    | none ↦ (s, none)
    | some c ↦ (without_chat s workspace_id chat_id, some c)
  ]
]

abbrev pub without_terminal : ProjectState → ℕ → ℕ → ProjectState
without_terminal s workspace_id terminal_id = record s {
  workspaces =
      update_first (is_workspace workspace_id)
        (λ w. record w { terminals = remove_first (is_terminal terminal_id) w.terminals })
        s.workspaces;
  session_identities = record s.session_identities {
    terminals = remove terminal_id s.session_identities.terminals;
  };
}

unfoldable pub remove_terminal : ProjectState → ℕ → ℕ → ProjectState × Option TerminalSession
remove_terminal s workspace_id terminal_id = elim (workspace s workspace_id) [
  | none ↦ (s, none)
  | some w ↦ elim (find (is_terminal terminal_id) w.terminals) [
    | none ↦ (s, none)
    | some t ↦ (without_terminal s workspace_id terminal_id, some t)
  ]
]
