-- ===== src/Model/Repair/Numbers.antt =====
-- src/model.rs, `normalize_existing_ids`: the three loops, each over the numbers of one kind.
use mult.Base.{ℕ, ◌≤◌, ◌≡◌, refl, sym, ap, subst, true, [], ◌∷◌, ◌++◌, arith, map}
use mult.Base.OrdSet.Count.{flat_single}
use mult.Model.Ids.{is_valid_durable_session_id, max_durable_session_id, u64_max}
use mult.Model.Data.{
  workspace_ids, chat_ids_spent, terminal_ids_spent, ChatSession, TerminalSession, Workspace,
  chat_numbers, terminal_numbers,
}
use mult.Model.Repair.{is_nonzero, repair_workspace, repair_chats, repair_terminals}
use mult.Model.Repair.Rounds.{
  IsRound, IsNumbered, IsRepair, for_each-IsRepair, repair_item-IsRepair,
}

-- The views that the loops keep: all but the numbers that they change.
abbrev pub erase_chat : ChatSession → ChatSession
erase_chat c = record c { id = 0 }

abbrev pub erase_terminal : TerminalSession → TerminalSession
erase_terminal t = record t { id = 0 }

abbrev pub but_number : Workspace → Workspace
but_number w = record w { id = 0 }

abbrev pub but_chats : Workspace → Workspace
but_chats w = record w { chats = map erase_chat w.chats }

abbrev pub but_terminals : Workspace → Workspace
but_terminals w = record w { terminals = map erase_terminal w.terminals }

-- A workspace without the numbers in it.
abbrev pub erase : Workspace → Workspace
erase w = but_number (but_chats (but_terminals w))

module _ (F : Type 0) where
  pub repair_workspace-IsRepair :
      IsRepair is_nonzero u64_max
        (λ (w : Workspace). w.id ∷ [])
        but_number
        (repair_workspace {F = F})
  unfolding repair_workspace
  repair_workspace-IsRepair =
      repair_item-IsRepair is_nonzero u64_max workspace_ids (λ (w : Workspace). w.id)
        (λ i w. record w { id = i }) but_number (λ k low high. ground arith) (λ k w. refl)
        (λ k w. refl)

  durable_inside :
      (k : ℕ) → 1 ≤ k → k ≤ max_durable_session_id → is_valid_durable_session_id k ≡ true
  unfolding is_valid_durable_session_id
  durable_inside k low high = ground arith

  pub repair_chats-IsRepair :
      IsRepair is_valid_durable_session_id max_durable_session_id chat_numbers but_chats
        (repair_chats {F = F})
  unfolding repair_chats
  repair_chats-IsRepair w rest r round =
      let (cs, now, ran, same, numbered, after) =
        for_each-IsRepair is_valid_durable_session_id max_durable_session_id
          (λ (c : ChatSession). c.id ∷ []) erase_chat _
          (repair_item-IsRepair is_valid_durable_session_id max_durable_session_id {F = F}
            chat_ids_spent (λ (c : ChatSession). c.id) (λ i c. record c { id = i }) erase_chat
            durable_inside (λ k c. refl) (λ k c. refl))
          w.chats rest r
          (subst (λ l. IsRound is_valid_durable_session_id max_durable_session_id r (l ++ rest))
            (sym (flat_single (λ (c : ChatSession). c.id) w.chats)) round) in
      (
        record w { chats = cs },
        now,
        rw (ran, repair_chats) refl,
        ap (λ l. record w { chats = l }) same,
        subst (λ l. IsNumbered is_valid_durable_session_id max_durable_session_id r now l)
            (flat_single (λ (c : ChatSession). c.id) cs) numbered,
        after,
      )

  pub repair_terminals-IsRepair :
      IsRepair is_valid_durable_session_id max_durable_session_id terminal_numbers but_terminals
        (repair_terminals {F = F})
  unfolding repair_terminals
  repair_terminals-IsRepair w rest r round =
      let (ts, now, ran, same, numbered, after) =
        for_each-IsRepair is_valid_durable_session_id max_durable_session_id
          (λ (t : TerminalSession). t.id ∷ []) erase_terminal _
          (repair_item-IsRepair is_valid_durable_session_id max_durable_session_id {F = F}
            terminal_ids_spent (λ (t : TerminalSession). t.id) (λ i t. record t { id = i })
            erase_terminal durable_inside (λ k t. refl) (λ k t. refl))
          w.terminals rest r
          (subst (λ l. IsRound is_valid_durable_session_id max_durable_session_id r (l ++ rest))
            (sym (flat_single (λ (t : TerminalSession). t.id) w.terminals)) round) in
      (
        record w { terminals = ts },
        now,
        rw (ran, repair_terminals) refl,
        ap (λ l. record w { terminals = l }) same,
        subst (λ l. IsNumbered is_valid_durable_session_id max_durable_session_id r now l)
            (flat_single (λ (t : TerminalSession). t.id) ts) numbered,
        after,
      )
