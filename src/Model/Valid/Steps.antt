-- ===== src/Model/Valid/Steps.antt =====
-- src/model.rs: the changes that the operations make keep a state well formed.
use mult.Base.{
  ℕ, ◌+◌, ◌≡◌, refl, ◌∙◌, ap, true, false, some, List, [], ◌∷◌, arith, inl, inr, Bool-cases, ◌==◌,
  map,
}
use mult.Base.OrdSet.{contains}
use mult.Base.OrdSet.Count.{count, count-append, flat}
use mult.Base.Find.{find, update_first, remove_first, push, count-update_first}
use mult.Base.OrdMap.{put, remove}
use mult.Model.Ids.{is_valid_durable_session_id}
use mult.Model.Data.{
  ChatSession, TerminalSession, Workspace, ProjectState, workspace_numbers, chat_numbers,
  terminal_numbers,
}
use mult.Model.State.{
  values, chat_ids, terminal_ids, tokens, is_workspace, is_chat, is_terminal, workspace,
}
use mult.Model.Sessions.{remove_all, insert_chat, insert_terminal, without_chat, without_terminal}
use mult.Model.Valid.{IsWellFormed}
use mult.Model.Valid.Kept.{
  IsKept-add, IsKept-remove, IsKept-same, AreKnown-remove, AreKnown-more, apart_more, apart_fewer,
  chats_part, terminals_part, generations_part, assemble,
}
use mult.Model.Valid.Tables.{count-values-put, count-values-remove_le, Changes}

pub count-push :
    {A : Type 0} (f : A → ℕ) (k : ℕ) (x : A) (xs : List A)
    → count k (map f (push x xs)) ≡ count k (map f xs) + count k (f x ∷ [])
count-push f k x [] = omega arith
count-push f k x (y ∷ xs) = omega (arith, count-push f k x xs)

pub count-numbers-remove_first :
    {A : Type 0} (f : A → ℕ) (k id : ℕ) (x : A) (xs : List A)
    → find (λ y. f y == id) xs ≡ some x
    → count k (map f (remove_first (λ y. f y == id) xs)) + count k (id ∷ []) ≡ count k (map f xs)
unfolding find remove_first
count-numbers-remove_first f k id x [] e = absurd (ground arith)
count-numbers-remove_first f k id x (y ∷ xs) e =
    ground (arith, count-numbers-remove_first f k id x xs)

module _ (s : ProjectState) (wid : ℕ) (w : Workspace) (found : workspace s wid ≡ some w) where
  -- A change of one workspace's sessions is a change of all sessions.
  update-Changes :
      (numbers : Workspace → List ℕ) (f : Workspace → Workspace) (gone new : List ℕ)
      → ((k : ℕ) → count k (numbers (f w)) + count k gone ≡ count k (numbers w) + count k new)
      → Changes
          (flat numbers s.workspaces)
          gone
          new
          (flat numbers (update_first (is_workspace wid) f s.workspaces))
  unfolding workspace
  update-Changes numbers f gone new h k =
      omega (arith, h k, count-update_first numbers (is_workspace wid) f k w s.workspaces found)

  same_workspaces :
      (f : Workspace → Workspace)
      → ((x : Workspace) → (f x).id ≡ x.id)
      → (ws : List Workspace)
      → workspace_numbers (update_first (is_workspace wid) f ws) ≡ workspace_numbers ws
  unfolding update_first
  same_workspaces f h [] = refl
  same_workspaces f h (x ∷ ws) = elim (Bool-cases (x.id == wid)) [
    | inl hit ↦ rw hit (ap (λ i. i ∷ workspace_numbers ws) (h x))
    | inr miss ↦ rw miss (ap (λ l. x.id ∷ l) (same_workspaces f h ws))
  ]

  pub insert_chat-IsWellFormed :
      (chat : ChatSession) (token : ℕ)
      → contains chat.id (chat_ids s) ≡ false
      → is_valid_durable_session_id chat.id ≡ true
      → contains token (tokens s) ≡ false
      → IsWellFormed s
      → IsWellFormed (insert_chat wid chat token s)
  insert_chat-IsWellFormed chat token fresh fine unused good =
      assemble (insert_chat wid chat token s) (rw ids good.1.workspaces_unique)
        (rw ids good.1.workspaces_nonzero)
        (IsKept-add _ _ chat.id token _ changes fresh fine (chats_part s good))
        (IsKept-same _ _ _
          (update-Changes terminal_numbers (λ w. record w { chats = push chat w.chats }) [] []
            (λ k. refl))
          (terminals_part s good))
        (apart_more (tokens s) _ token
          (λ n. omega (
            arith,
            count-append n (values s.session_identities.chats)
                (values s.session_identities.terminals),
            count-append n (values (put chat.id token s.session_identities.chats))
                (values s.session_identities.terminals),
            count-values-put chat.id token n s.session_identities.chats
                (good.1.chat_table chat.id ∙ fresh),
          ))
          unused good.1.tokens_unique)
        (AreKnown-more _ (chat.id ∷ []) _ _ changes (generations_part s good))
    where
      ids :
          workspace_numbers (insert_chat wid chat token s).workspaces
          ≡ workspace_numbers s.workspaces
      ids = same_workspaces (λ w. record w { chats = push chat w.chats }) (λ x. refl) s.workspaces

      changes : Changes (chat_ids s) [] (chat.id ∷ []) (chat_ids (insert_chat wid chat token s))
      changes =
          update-Changes chat_numbers (λ w. record w { chats = push chat w.chats }) []
            (chat.id ∷ [])
            (λ k. omega (arith, count-push (λ (c : ChatSession). c.id) k chat w.chats))

  pub insert_terminal-IsWellFormed :
      (terminal : TerminalSession) (token : ℕ)
      → contains terminal.id (terminal_ids s) ≡ false
      → is_valid_durable_session_id terminal.id ≡ true
      → contains token (tokens s) ≡ false
      → IsWellFormed s
      → IsWellFormed (insert_terminal wid terminal token s)
  insert_terminal-IsWellFormed terminal token fresh fine unused good =
      assemble (insert_terminal wid terminal token s) (rw ids good.1.workspaces_unique)
        (rw ids good.1.workspaces_nonzero) (IsKept-same _ _ _ others (chats_part s good))
        (IsKept-add _ _ terminal.id token _ changes fresh fine (terminals_part s good))
        (apart_more (tokens s) _ token
          (λ n. omega (
            arith,
            count-append n (values s.session_identities.chats)
                (values s.session_identities.terminals),
            count-append n (values s.session_identities.chats)
                (values (put terminal.id token s.session_identities.terminals)),
            count-values-put terminal.id token n s.session_identities.terminals
                (good.1.terminal_table terminal.id ∙ fresh),
          ))
          unused good.1.tokens_unique)
        (AreKnown-more _ [] _ _ others (generations_part s good))
    where
      ids :
          workspace_numbers (insert_terminal wid terminal token s).workspaces
          ≡ workspace_numbers s.workspaces
      ids =
          same_workspaces (λ w. record w { terminals = push terminal w.terminals }) (λ x. refl)
            s.workspaces

      others : Changes (chat_ids s) [] [] (chat_ids (insert_terminal wid terminal token s))
      others =
          update-Changes chat_numbers (λ w. record w { terminals = push terminal w.terminals }) []
            [] (λ k. refl)

      changes :
          Changes
            (terminal_ids s)
            []
            (terminal.id ∷ [])
            (terminal_ids (insert_terminal wid terminal token s))
      changes =
          update-Changes terminal_numbers (λ w. record w { terminals = push terminal w.terminals })
            [] (terminal.id ∷ [])
            (λ k. omega (arith, count-push (λ (t : TerminalSession). t.id) k terminal w.terminals))

  pub without_chat-IsWellFormed :
      (chat_id : ℕ) (c : ChatSession)
      → find (is_chat chat_id) w.chats ≡ some c
      → IsWellFormed s
      → IsWellFormed (without_chat s wid chat_id)
  unfolding remove_all
  without_chat-IsWellFormed chat_id c there good =
      assemble (without_chat s wid chat_id) (rw ids good.1.workspaces_unique)
        (rw ids good.1.workspaces_nonzero)
        (IsKept-remove _ (chat_id ∷ []) _ s.session_identities.chats changes (chats_part s good))
        (IsKept-same _ _ _
          (update-Changes terminal_numbers
            (λ w. record w { chats = remove_first (is_chat chat_id) w.chats }) [] [] (λ k. refl))
          (terminals_part s good))
        (apart_fewer (tokens s) _
          (λ n. omega (
            arith,
            count-append n (values s.session_identities.chats)
                (values s.session_identities.terminals),
            count-append n (values (remove chat_id s.session_identities.chats))
                (values s.session_identities.terminals),
            count-values-remove_le chat_id n s.session_identities.chats,
          ))
          good.1.tokens_unique)
        (AreKnown-remove _ (chat_id ∷ []) _ s.agent_generations changes good.1.chats_unique
          (generations_part s good))
    where
      ids :
          workspace_numbers (without_chat s wid chat_id).workspaces ≡ workspace_numbers s.workspaces
      ids =
          same_workspaces (λ w. record w { chats = remove_first (is_chat chat_id) w.chats })
            (λ x. refl) s.workspaces

      changes : Changes (chat_ids s) (chat_id ∷ []) [] (chat_ids (without_chat s wid chat_id))
      changes =
          update-Changes chat_numbers
            (λ w. record w { chats = remove_first (is_chat chat_id) w.chats }) (chat_id ∷ []) []
            (λ k. omega (
              arith,
              count-numbers-remove_first (λ (c : ChatSession). c.id) k chat_id c w.chats there,
            ))

  pub without_terminal-IsWellFormed :
      (terminal_id : ℕ) (t : TerminalSession)
      → find (is_terminal terminal_id) w.terminals ≡ some t
      → IsWellFormed s
      → IsWellFormed (without_terminal s wid terminal_id)
  unfolding remove_all
  without_terminal-IsWellFormed terminal_id t there good =
      assemble (without_terminal s wid terminal_id) (rw ids good.1.workspaces_unique)
        (rw ids good.1.workspaces_nonzero) (IsKept-same _ _ _ others (chats_part s good))
        (IsKept-remove _ (terminal_id ∷ []) _ s.session_identities.terminals changes
          (terminals_part s good))
        (apart_fewer (tokens s) _
          (λ n. omega (
            arith,
            count-append n (values s.session_identities.chats)
                (values s.session_identities.terminals),
            count-append n (values s.session_identities.chats)
                (values (remove terminal_id s.session_identities.terminals)),
            count-values-remove_le terminal_id n s.session_identities.terminals,
          ))
          good.1.tokens_unique)
        (AreKnown-more _ [] _ _ others (generations_part s good))
    where
      ids :
          workspace_numbers (without_terminal s wid terminal_id).workspaces
          ≡ workspace_numbers s.workspaces
      ids =
          same_workspaces
            (λ w. record w { terminals = remove_first (is_terminal terminal_id) w.terminals })
            (λ x. refl) s.workspaces

      others : Changes (chat_ids s) [] [] (chat_ids (without_terminal s wid terminal_id))
      others =
          update-Changes chat_numbers
            (λ w. record w { terminals = remove_first (is_terminal terminal_id) w.terminals }) [] []
            (λ k. refl)

      changes :
          Changes
            (terminal_ids s)
            (terminal_id ∷ [])
            []
            (terminal_ids (without_terminal s wid terminal_id))
      changes =
          update-Changes terminal_numbers
            (λ w. record w { terminals = remove_first (is_terminal terminal_id) w.terminals })
            (terminal_id ∷ []) []
            (λ k. omega (
              arith,
              count-numbers-remove_first (λ (t : TerminalSession). t.id) k terminal_id t w.terminals
                  there,
            ))
