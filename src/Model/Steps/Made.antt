-- ===== src/Model/Steps/Made.antt =====
-- src/model.rs: every operation makes one of the changes, or leaves the state.
use mult.Base.{
  ℕ, ◌≤◌, ◌≡◌, ◌≢◌, refl, sym, ◌∙◌, true, false, Option, none, some, List, [], ◌∷◌, arith, inl, inr,
  Bool-cases, Option-cases, ◌==◌, is_empty,
}
use mult.Base.OrdSet.{contains, of_list, contains-of_list, of_list-IsSorted}
use mult.Base.Find.{find}
use mult.Base.OrdMap.{get}
use mult.Base.Result.{Result, ok, err}
use mult.Model.Ids.{is_valid_durable_session_id, max_durable_session_id, u64_max}
use mult.Model.Ids.Free.{IsFull}
use mult.Model.Ids.Taken.{Taken, refused, taken, take_available_id-Taken}
use mult.Model.Random.{generate_identity, IoError}
use mult.Model.Random.Drawn.{generate_identity-ok}
use mult.Model.Data.{
  Text, IdAllocationError, workspace_ids, chat_ids_spent, terminal_ids_spent, ChatStatus, AgentKind,
  TerminalLaunch, ChatMessageRole, RemoteTarget, ProjectState, workspace_numbers, chat_numbers,
  terminal_numbers,
}
use mult.Model.State.{
  values, durable, chat_ids, terminal_ids, tokens, workspace, grant, allocate_workspace_id,
  allocate_chat_id, allocate_terminal_id, push_workspace, is_chat, is_terminal,
}
use mult.Model.Sessions.{
  settle_session, clear_agent_generation, identity_allocation_error, settle_generation,
  allocate_session_token, add_chat_with_source, add_terminal_with_source,
  begin_agent_generation_with_source, remove_workspace, remove_chat, remove_terminal,
}
use mult.Model.Messages.{chat, append_chat_message, append_chat_delta}
use mult.Model.Steps.{
  Change, sessions_kept, new_chat, new_terminal, sessions_lost, Step, unchanged, workspace_added,
  chat_added, terminal_added, generation_begun, generation_cleared, workspace_removed, chat_removed,
  terminal_removed, chat_edited,
}

-- What an allocation answers, by the numbers in use.
pub data Allocated {F : Type 0} (ids : List ℕ) (max : ℕ) (with_next : ℕ → ProjectState)
    : Result (IdAllocationError F) (ℕ × ProjectState) → Type 0 where
  denied : (e : IdAllocationError F) → IsFull ids 1 max → Allocated ids max with_next (err e)
  granted :
      (id next : ℕ)
      → 1 ≤ id
      → id ≤ max
      → contains id ids ≡ false
      → Allocated ids max with_next (ok (id, with_next next))

grant-Allocated :
    {F : Type 0} (e : IdAllocationError F) (with_next : ℕ → ProjectState) (used ids : List ℕ)
    (max : ℕ) {o : Option (ℕ × ℕ × List ℕ)}
    → ((k : ℕ) → 1 ≤ k → k ≤ max → contains k used ≡ contains k ids)
    → Taken used max o
    → Allocated ids max with_next (grant e with_next o)
unfolding grant
grant-Allocated e with_next used ids max same (refused full) =
    denied e (λ k low high. sym (same k low high) ∙ full k low high)
grant-Allocated e with_next used ids max same (taken id next (low, high, free) hint) =
    granted id next low high (sym (same id low high) ∙ free)

durable_kept :
    (k : ℕ) (ids : List ℕ)
    → 1 ≤ k
    → k ≤ max_durable_session_id
    → contains k (durable ids) ≡ contains k ids
unfolding contains durable is_valid_durable_session_id
durable_kept k [] low high = refl
durable_kept k (id ∷ ids) low high = ground (arith, durable_kept k ids low high)

contains-durable :
    (k : ℕ) (ids : List ℕ)
    → 1 ≤ k
    → k ≤ max_durable_session_id
    → contains k (of_list (durable ids)) ≡ contains k ids
contains-durable k ids low high = contains-of_list k (durable ids) ∙ durable_kept k ids low high

pub allocate_workspace_id-Allocated :
    {F : Type 0} (s : ProjectState)
    → Allocated {F = F}
        (workspace_numbers s.workspaces)
        u64_max
        (λ next. record s { next_workspace_id = next })
        (allocate_workspace_id s)
unfolding allocate_workspace_id
allocate_workspace_id-Allocated s =
    grant-Allocated workspace_ids _ _ (workspace_numbers s.workspaces) u64_max
      (λ k low high. contains-of_list k (workspace_numbers s.workspaces))
      (take_available_id-Taken _ s.next_workspace_id u64_max (of_list-IsSorted _) (omega arith))

pub allocate_chat_id-Allocated :
    {F : Type 0} (s : ProjectState)
    → Allocated {F = F}
        (chat_ids s)
        max_durable_session_id
        (λ next. record s { next_chat_id = next })
        (allocate_chat_id s)
unfolding allocate_chat_id
allocate_chat_id-Allocated s =
    grant-Allocated chat_ids_spent _ _ (chat_ids s) max_durable_session_id
      (λ k low high. contains-durable k (chat_ids s) low high)
      (take_available_id-Taken _ s.next_chat_id max_durable_session_id (of_list-IsSorted _)
        (omega arith))

pub allocate_terminal_id-Allocated :
    {F : Type 0} (s : ProjectState)
    → Allocated {F = F}
        (terminal_ids s)
        max_durable_session_id
        (λ next. record s { next_terminal_id = next })
        (allocate_terminal_id s)
unfolding allocate_terminal_id
allocate_terminal_id-Allocated s =
    grant-Allocated terminal_ids_spent _ _ (terminal_ids s) max_durable_session_id
      (λ k low high. contains-durable k (terminal_ids s) low high)
      (take_available_id-Taken _ s.next_terminal_id max_durable_session_id (of_list-IsSorted _)
        (omega arith))

abbrev pub IsUnused : List ℕ → ℕ → Type 0
IsUnused used token = (token ≢ 0) × (contains token used ≡ false)

pub push_workspace-Step :
    (F : Type 0) (s : ProjectState) (name : Text) (dir : Option Text) (target : Option RemoteTarget)
    → Step s sessions_kept (push_workspace {F = F} s name dir target).0
unfolding push_workspace
push_workspace-Step F s name dir target =
    made (allocate_workspace_id {F = F} s) refl (allocate_workspace_id-Allocated s)
  where
    made :
        (r : Result (IdAllocationError F) (ℕ × ProjectState))
        → allocate_workspace_id {F = F} s ≡ r
        → Allocated
            (workspace_numbers s.workspaces)
            u64_max
            (λ next. record s { next_workspace_id = next })
            r
        → Step s sessions_kept (push_workspace {F = F} s name dir target).0
    made _ e (denied _ full) = rw (e, push_workspace) unchanged
    made _ e (granted id next low high free) =
        rw (e, push_workspace) (workspace_added id next name dir target low free)

settle_session-Step :
    {F Source : Type 0} {c : Change} (s : ProjectState) (ids : List ℕ) (max : ℕ)
    (with_next : ℕ → ProjectState) (allocated : Result (IdAllocationError F) (ℕ × ProjectState))
    (insert_session : ℕ → ℕ → ProjectState → ProjectState)
    (drawn : Result (IdAllocationError F) ℕ × Source)
    → Allocated ids max with_next allocated
    → ((token : ℕ) → drawn.0 ≡ ok token → IsUnused (tokens s) token)
    → ((id next token : ℕ)
        → 1 ≤ id
        → id ≤ max
        → contains id ids ≡ false
        → IsUnused (tokens s) token
        → Step s c (insert_session id token (with_next next)))
    → Step s c (settle_session s allocated insert_session drawn).0
unfolding settle_session
settle_session-Step s ids max with_next allocated insert_session (err e, rest) a fresh step =
    unchanged
settle_session-Step s ids max with_next _ insert_session (ok token, rest) (denied e full) fresh
      step =
    unchanged
settle_session-Step s ids max with_next _ insert_session (ok token, rest)
      (granted id next low high free) fresh step =
    step id next token low high free (fresh token refl)

pub clear_agent_generation-Step :
    (s : ProjectState) (chat_id generation : ℕ)
    → Step s sessions_kept (clear_agent_generation s chat_id generation).0
unfolding clear_agent_generation
clear_agent_generation-Step s chat_id generation =
    elim (Option-cases (get chat_id s.agent_generations)) [
      | inl nothing ↦ rw (nothing, clear_agent_generation) unchanged
      | inr (current, there) ↦ elim (Bool-cases (current == generation)) [
        | inl same ↦ rw (there, same, clear_agent_generation) (generation_cleared chat_id)
        | inr other ↦ rw (there, other, clear_agent_generation) unchanged
      ]
    ]

-- The sessions that go with a workspace.
unfoldable pub workspace_change : ProjectState → ℕ → Change
workspace_change s wid = elim (workspace s wid) [
  | none ↦ sessions_kept
  | some w ↦ sessions_lost (chat_numbers w) (terminal_numbers w)
]

pub remove_workspace-Step :
    (s : ProjectState) (wid : ℕ) → Step s (workspace_change s wid) (remove_workspace s wid).0
unfolding remove_workspace workspace_change
remove_workspace-Step s wid = elim (Option-cases (workspace s wid)) [
  | inl missing ↦ rw (missing, remove_workspace, workspace_change) unchanged
  | inr (w, found) ↦ rw (found, remove_workspace, workspace_change) (workspace_removed wid w found)
]

pub remove_chat-Step :
    (s : ProjectState) (wid chat_id : ℕ)
    → Step s (sessions_lost (chat_id ∷ []) []) (remove_chat s wid chat_id).0
unfolding remove_chat
remove_chat-Step s wid chat_id = elim (Option-cases (workspace s wid)) [
  | inl missing ↦ rw (missing, remove_chat) unchanged
  | inr (w, found) ↦ elim (Option-cases (find (is_chat chat_id) w.chats)) [
    | inl nothing ↦ rw (found, nothing, remove_chat) unchanged
    | inr (c, there) ↦ rw (found, there, remove_chat) (chat_removed wid chat_id w c found there)
  ]
]

pub remove_terminal-Step :
    (s : ProjectState) (wid terminal_id : ℕ)
    → Step s (sessions_lost [] (terminal_id ∷ [])) (remove_terminal s wid terminal_id).0
unfolding remove_terminal
remove_terminal-Step s wid terminal_id = elim (Option-cases (workspace s wid)) [
  | inl missing ↦ rw (missing, remove_terminal) unchanged
  | inr (w, found) ↦ elim (Option-cases (find (is_terminal terminal_id) w.terminals)) [
    | inl nothing ↦ rw (found, nothing, remove_terminal) unchanged
    | inr (t, there) ↦
        rw (found, there, remove_terminal) (terminal_removed wid terminal_id w t found there)
  ]
]

pub append_chat_message-Step :
    (s : ProjectState) (wid cid : ℕ) (author : ChatMessageRole) (words : Text)
    → Step s sessions_kept (append_chat_message s wid cid author words).0
unfolding append_chat_message
append_chat_message-Step s wid cid author words = elim (Bool-cases (is_empty words)) [
  | inl nothing ↦ rw (nothing, append_chat_message) unchanged
  | inr more ↦ elim (Option-cases (chat s wid cid)) [
    | inl missing ↦ rw (more, missing, append_chat_message) unchanged
    | inr (c, there) ↦ rw (more, there, append_chat_message) (chat_edited wid cid _ (λ c. refl))
  ]
]

pub append_chat_delta-Step :
    (s : ProjectState) (wid cid : ℕ) (author : ChatMessageRole) (words : Text)
    → Step s sessions_kept (append_chat_delta s wid cid author words).0
unfolding append_chat_delta
append_chat_delta-Step s wid cid author words = elim (Bool-cases (is_empty words)) [
  | inl nothing ↦ rw (nothing, append_chat_delta) unchanged
  | inr more ↦ elim (Option-cases (chat s wid cid)) [
    | inl missing ↦ rw (more, missing, append_chat_delta) unchanged
    | inr (c, there) ↦ rw (more, there, append_chat_delta) (chat_edited wid cid _ (λ c. refl))
  ]
]

-- What was drawn is what was generated.
drawn_generated :
    {F Source : Type 0} (r : Result (IoError F) ℕ × Source) (token : ℕ)
    → (identity_allocation_error r).0 ≡ ok token
    → r.0 ≡ ok token
unfolding identity_allocation_error
drawn_generated (ok identity, rest) token e = ground arith
drawn_generated (err failure, rest) token e = absurd (ground arith)

settle_generation-Step :
    {F Source : Type 0} (s : ProjectState) (chat_id : ℕ)
    (drawn : Result (IdAllocationError F) ℕ × Source)
    → contains chat_id (chat_ids s) ≡ true
    → ((generation : ℕ)
        → drawn.0 ≡ ok generation
        → IsUnused (values s.agent_generations) generation)
    → Step s sessions_kept (settle_generation s chat_id drawn).0
unfolding settle_generation
settle_generation-Step s chat_id (err e, rest) there fresh = unchanged
settle_generation-Step s chat_id (ok generation, rest) there fresh =
    generation_begun chat_id generation there (fresh generation refl).1

durable_valid :
    (id : ℕ) → 1 ≤ id → id ≤ max_durable_session_id → is_valid_durable_session_id id ≡ true
unfolding is_valid_durable_session_id
durable_valid id low high = ground arith

module _ {Source F : Type 0} (fill_bytes : Source → Result F ℕ × Source) where
  pub drawn-IsUnused :
      (used : List ℕ) (source : Source) (token : ℕ)
      → (identity_allocation_error
          (generate_identity fill_bytes (λ candidate. contains candidate used) source)).0
        ≡ ok token
      → IsUnused used token
  drawn-IsUnused used source token e =
      generate_identity-ok fill_bytes (λ candidate. contains candidate used) source token
        (drawn_generated _ token e)

  pub add_chat-Step :
      (s : ProjectState) (wid : ℕ) (name : Text) (status : ChatStatus) (agent : AgentKind)
      (source : Source)
      → Step s new_chat (add_chat_with_source fill_bytes s wid name status agent source).0
  unfolding add_chat_with_source allocate_session_token
  add_chat-Step s wid name status agent source = elim (Option-cases (workspace s wid)) [
    | inl missing ↦ rw (missing, add_chat_with_source) unchanged
    | inr (w, found) ↦
        rw (found, add_chat_with_source)
          (settle_session-Step s (chat_ids s) max_durable_session_id
            (λ next. record s { next_chat_id = next }) (allocate_chat_id s) _ _
            (allocate_chat_id-Allocated s) (drawn-IsUnused (tokens s) source)
            (λ id next token low high free unused.
              chat_added next wid token w _ found free (durable_valid id low high) unused.0
                unused.1))
  ]

  pub add_terminal-Step :
      (s : ProjectState) (wid : ℕ) (name : Text) (launch : TerminalLaunch) (source : Source)
      → Step s new_terminal (add_terminal_with_source fill_bytes s wid name launch source).0
  unfolding add_terminal_with_source allocate_session_token
  add_terminal-Step s wid name launch source = elim (Option-cases (workspace s wid)) [
    | inl missing ↦ rw (missing, add_terminal_with_source) unchanged
    | inr (w, found) ↦
        rw (found, add_terminal_with_source)
          (settle_session-Step s (terminal_ids s) max_durable_session_id
            (λ next. record s { next_terminal_id = next }) (allocate_terminal_id s) _ _
            (allocate_terminal_id-Allocated s) (drawn-IsUnused (tokens s) source)
            (λ id next token low high free unused.
              terminal_added next wid token w _ found free (durable_valid id low high) unused.0
                unused.1))
  ]

  pub begin_agent_generation-Step :
      (s : ProjectState) (chat_id : ℕ) (source : Source)
      → Step s sessions_kept (begin_agent_generation_with_source fill_bytes s chat_id source).0
  unfolding begin_agent_generation_with_source
  begin_agent_generation-Step s chat_id source = elim (Bool-cases (contains chat_id (chat_ids s))) [
    | inl there ↦
        rw (there, begin_agent_generation_with_source)
          (settle_generation-Step s chat_id _ there
            (drawn-IsUnused (values s.agent_generations) source))
    | inr missing ↦ rw (missing, begin_agent_generation_with_source) unchanged
  ]
