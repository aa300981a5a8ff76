-- ===== src/Model/Valid.antt =====
-- src/model.rs: what makes a project state well formed: the invariant of the operations, and what
-- `validate_session_identities` tests.
pub mod Tables
pub mod Kept
pub mod Steps
pub mod Workspaces
use mult.Base.{
  ℕ, ◌+◌, ◌≡◌, ◌↔◌, refl, sym, ◌∙◌, Bool, true, false, not, ◌&&◌, inl, inr, List, [], ◌∷◌, ◌++◌,
  any, map, ◌==◌, length, arith, All, Bool-cases, ==→eq, ==-self, suc, length-append, ap, subst,
  ◌≤◌, ◌<◌,
}
use mult.Base.OrdSet.{
  contains, of_list, IsSorted, IsUnique, IsWithin, contains-of_list, of_list-IsSorted,
  IsSorted-IsUnique, length-of_list→IsUnique, IsUnique→length-of_list,
}
use mult.Base.OrdSet.Pigeonhole.{length-IsWithin}
use mult.Base.OrdSet.Count.{flat}
use mult.Base.OrdMap
use mult.Base.OrdMap.{OrdMap}
use mult.Base.Result.{Result, ok, err}
use mult.Model.Ids.{is_valid_durable_session_id}
use mult.Model.Data.{
  ChatSession, TerminalSession, Workspace, ProjectState, workspace_numbers, chat_numbers,
  terminal_numbers,
}
use mult.Model.State.{chat_ids, terminal_ids, values, tokens}
use mult.Model.Validate.{keys}

-- A table holds one entry for each of the sessions, and no other.
abbrev pub IsTableOf : List ℕ → OrdMap ℕ → Type 0
IsTableOf ids m = (k : ℕ) → contains k (keys m) ≡ contains k ids

abbrev pub AreDurable : List ℕ → Type 0
AreDurable ids = (k : ℕ) → contains k ids ≡ true → is_valid_durable_session_id k ≡ true

-- The tables are kept by `BTreeMap`: ascending.
pub record IsStored (s : ProjectState) : Type 0 where
  pub chats_sorted : OrdMap.IsSorted s.session_identities.chats
  pub terminals_sorted : OrdMap.IsSorted s.session_identities.terminals
  pub generations_sorted : OrdMap.IsSorted s.agent_generations

pub record IsValid (s : ProjectState) : Type 0 where
  pub workspaces_unique : IsUnique (workspace_numbers s.workspaces)
  pub workspaces_nonzero : contains 0 (workspace_numbers s.workspaces) ≡ false
  pub chats_unique : IsUnique (chat_ids s)
  pub chats_durable : AreDurable (chat_ids s)
  pub terminals_unique : IsUnique (terminal_ids s)
  pub terminals_durable : AreDurable (terminal_ids s)
  pub chat_table : IsTableOf (chat_ids s) s.session_identities.chats
  pub terminal_table : IsTableOf (terminal_ids s) s.session_identities.terminals
  pub tokens_unique : IsUnique (tokens s)
  pub generations_known : IsWithin (keys s.agent_generations) (chat_ids s)
  pub generations_unique : IsUnique (values s.agent_generations)

abbrev pub IsWellFormed : ProjectState → Type 0
IsWellFormed s = IsStored s × IsValid s
