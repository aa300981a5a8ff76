-- ===== src/Model/Table.antt =====
-- src/model.rs: what the other components rely on. The token tables are, in the abstract, one map
-- from the key of a session to its token, which grows by fresh tokens and shrinks, no more.
pub mod Refined
use mult.Base.{ℕ, ◌≡◌, ◌≢◌, Bool, true, false, Option, none, some, List, ◌==◌, if◌then◌else◌}
use mult.Model.Data.{PtyKey, terminal_key, chat_agent_key, ProjectState}
use mult.Base.OrdSet.{contains}
use mult.Model.State.{token_of}
use mult.Model.Steps.{Change, new_chat, new_terminal, sessions_lost}

abbrev pub Table : Type 0
Table = PtyKey → Option ℕ

-- The derived `PartialEq` of a key.
unfoldable pub key_beq : PtyKey → PtyKey → Bool
key_beq (terminal_key a) (terminal_key b) = a == b
key_beq (chat_agent_key a) (chat_agent_key b) = a == b
key_beq a b = false

-- The sessions with these numbers.
abbrev pub gone_sessions : List ℕ → List ℕ → PtyKey → Bool
gone_sessions cs ts (terminal_key id) = contains id ts
gone_sessions cs ts (chat_agent_key id) = contains id cs

-- The map with one more token: a non-zero one that no session has, for a session that has none.
pub record Issues (key : PtyKey) (token : ℕ) (before now : Table) : Type 0 where
  pub absent : before key ≡ none
  pub nonzero : token ≢ 0
  pub fresh : (j : PtyKey) → before j ≢ some token
  pub after : (j : PtyKey) → now j ≡ (if key_beq key j then some token else before j)

-- What a change does to the map, unless it fails and leaves the map as it is.
pub data TableStep (before now : Table) : Change → Type 0 where
  kept : {c : Change} → ((j : PtyKey) → now j ≡ before j) → TableStep before now c
  chat_issued :
      (id token : ℕ) → Issues (chat_agent_key id) token before now → TableStep before now new_chat
  terminal_issued :
      (id token : ℕ) → Issues (terminal_key id) token before now → TableStep before now new_terminal
  revoked :
      (cs ts : List ℕ)
      → ((j : PtyKey) → now j ≡ (if gone_sessions cs ts j then none else before j))
      → TableStep before now (sessions_lost cs ts)

-- The map of a state.
abbrev pub table : ProjectState → Table
table s = λ key. token_of s key
