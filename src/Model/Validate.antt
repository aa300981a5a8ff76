-- ===== src/Model/Validate.antt =====
-- src/model.rs, `validate_session_identities`: the check of a state that was loaded or is to be
-- saved.
pub mod Checks
pub mod Sound
use mult.Base.{ℕ, ◌+◌, Bool, true, false, not, ◌&&◌, List, [], ◌∷◌, ◌++◌, any, map, ◌==◌, length}
use mult.Base.OrdSet.{contains, of_list}
use mult.Base.OrdMap.{OrdMap}
use mult.Base.Result.{Result, ok, err}
use mult.Model.Ids.{is_valid_durable_session_id}
use mult.Model.Data.{ChatSession, TerminalSession, Workspace, ProjectState, workspace_numbers}
use mult.Model.State.{chat_ids, terminal_ids, values, tokens}

-- One constructor for each of the messages.
pub data InvalidState : Type 0 where
  workspace_ids_invalid : InvalidState
  chat_ids_invalid : InvalidState
  terminal_ids_invalid : InvalidState
  chat_table_mismatch : InvalidState
  terminal_table_mismatch : InvalidState
  tokens_repeated : InvalidState
  generation_of_missing_chat : InvalidState
  generations_repeated : InvalidState

abbrev pub keys : OrdMap ℕ → List ℕ
keys m = map (λ (p : ℕ × ℕ). p.0) m

-- `map(…).sum()` over the workspaces.
unfoldable pub sum_of : (Workspace → ℕ) → List Workspace → ℕ
sum_of count [] = 0
sum_of count (w ∷ ws) = count w + sum_of count ws

-- A chain of `if … { return Err(…) }`: the first test that fails names the error.
unfoldable pub ensure_all : List (Bool × InvalidState) → Result InvalidState (Unit {0})
ensure_all [] = ok tt
ensure_all ((true, e) ∷ tests) = ensure_all tests
ensure_all ((false, e) ∷ tests) = err e

abbrev pub has_all_keys : List ℕ → OrdMap ℕ → Bool
has_all_keys ids m = not (any (λ id. not (contains id (keys m))) ids)

abbrev pub are_durable : List ℕ → Bool
are_durable ids = not (any (λ id. not (is_valid_durable_session_id id)) ids)

unfoldable pub checks : ProjectState → List (Bool × InvalidState)
checks s =
    let workspace_set = of_list (workspace_numbers s.workspaces) in
    let chat_set = of_list (chat_ids s) in
    let terminal_set = of_list (terminal_ids s) in
    let chats = s.session_identities.chats in
    let terminals = s.session_identities.terminals in
    (
      (length workspace_set == length s.workspaces) && not (contains 0 workspace_set),
      workspace_ids_invalid,
    )
    ∷ (
      (length chat_set == sum_of (λ w. length w.chats) s.workspaces) && are_durable chat_set,
      chat_ids_invalid,
    )
    ∷ (
      (length terminal_set == sum_of (λ w. length w.terminals) s.workspaces)
          && are_durable terminal_set,
      terminal_ids_invalid,
    )
    ∷ ((length chat_set == length chats) && has_all_keys chat_set chats, chat_table_mismatch)
    ∷ (
      (length terminal_set == length terminals) && has_all_keys terminal_set terminals,
      terminal_table_mismatch,
    )
    ∷ (length (of_list (tokens s)) == length chats + length terminals, tokens_repeated)
    ∷ (
      not (any (λ id. not (contains id chat_set)) (keys s.agent_generations)),
      generation_of_missing_chat,
    )
    ∷ (
      length (of_list (values s.agent_generations)) == length s.agent_generations,
      generations_repeated,
    )
    ∷ []

unfoldable pub validate_session_identities : ProjectState → Result InvalidState (Unit {0})
validate_session_identities s = ensure_all (checks s)
