-- ===== src/Model/Identities.antt =====
-- src/model.rs, `normalize_session_identities`: the repair of the token tables of a state that was
-- loaded. An error of the source is left as it is; the state that was reached is returned with it.
pub mod Retained
pub mod Minted
use mult.Base.{
  ℕ, ◌+◌, Bool, true, false, not, ◌&&◌, ◌||◌, List, [], ◌∷◌, ◌==◌, length, if◌then◌else◌,
}
use mult.Base.OrdSet.{contains, insert, of_list}
use mult.Base.OrdMap.{OrdMap, put}
use mult.Base.Result.{Result, ok, err}
use mult.Model.Data.{IdAllocationError, SessionIdentities, ProjectState}
use mult.Model.State.{chat_ids, terminal_ids}
use mult.Model.Validate.{keys}
use mult.Model.Sessions.{allocate_session_token}

-- `retain` of the entries of known sessions whose value was not seen, with the values seen.
unfoldable pub retain_fresh : List ℕ → OrdMap ℕ → List ℕ → OrdMap ℕ × List ℕ
retain_fresh ids [] seen = ([], seen)
retain_fresh ids ((id, t) ∷ m) seen = elim (contains id ids && not (contains t seen)) [
  | true ↦
      ((id, t) ∷ (retain_fresh ids m (insert t seen)).0, (retain_fresh ids m (insert t seen)).1)
  | false ↦ retain_fresh ids m seen
]

abbrev pub entries : SessionIdentities → ℕ
entries i = length i.chats + length i.terminals

abbrev pub retained_identities : ProjectState → SessionIdentities
retained_identities s = record {
  chats = (retain_fresh (of_list (chat_ids s)) s.session_identities.chats []).0;
  terminals =
      (retain_fresh (of_list (terminal_ids s)) s.session_identities.terminals
        (retain_fresh (of_list (chat_ids s)) s.session_identities.chats []).1).0;
}

abbrev pub retained_generations : ProjectState → OrdMap ℕ
retained_generations s = (retain_fresh (of_list (chat_ids s)) s.agent_generations []).0

-- Whether a table lost an entry.
unfoldable pub retained_changed : ProjectState → Bool
retained_changed s =
    not (entries (retained_identities s) == entries s.session_identities)
    || not (length (retained_generations s) == length s.agent_generations)

abbrev pub with_identities : ProjectState → SessionIdentities → ProjectState
with_identities s i = record s { session_identities = i }

-- The tables, the answer and what is left of the source.
abbrev pub Minting : Type 0 → Type 0 → Type 0
Minting F Source = SessionIdentities × Result (IdAllocationError F) Bool × Source

-- After a draw: the error, or the rest of the loop on the tables with the token.
unfoldable pub minted :
    {F Source : Type 0}
    → SessionIdentities
    → (ℕ → Source → Minting F Source)
    → Result (IdAllocationError F) ℕ × Source
    → Minting F Source
minted i next (err e, rest) = (i, err e, rest)
minted i next (ok token, rest) = next token rest

module _ {Source F : Type 0} (fill_bytes : Source → Result F ℕ × Source) (s : ProjectState) where
  unfoldable pub mint_chats : List ℕ → SessionIdentities → Bool → Source → Minting F Source
  mint_chats [] i changed source = (i, ok changed, source)
  mint_chats (id ∷ ids) i changed source = elim (contains id (keys i.chats)) [
    | true ↦ mint_chats ids i changed source
    | false ↦
        minted i
          (λ token rest. mint_chats ids (record i { chats = put id token i.chats }) true rest)
          (allocate_session_token fill_bytes (with_identities s i) source)
  ]

  unfoldable pub mint_terminals : List ℕ → SessionIdentities → Bool → Source → Minting F Source
  mint_terminals [] i changed source = (i, ok changed, source)
  mint_terminals (id ∷ ids) i changed source = elim (contains id (keys i.terminals)) [
    | true ↦ mint_terminals ids i changed source
    | false ↦
        minted i
          (λ token rest.
            mint_terminals ids (record i { terminals = put id token i.terminals }) true rest)
          (allocate_session_token fill_bytes (with_identities s i) source)
  ]

  -- The terminals' loop runs after that of the chats, unless it failed.
  unfoldable pub then_terminals : Minting F Source → Minting F Source
  then_terminals (i, err e, rest) = (i, err e, rest)
  then_terminals (i, ok changed, rest) = mint_terminals (of_list (terminal_ids s)) i changed rest

  unfoldable pub mint_all : Source → Minting F Source
  mint_all source =
      then_terminals
        (mint_chats (of_list (chat_ids s)) (retained_identities s) (retained_changed s) source)

  unfoldable pub normalize_session_identities :
      Source → ProjectState × Result (IdAllocationError F) Bool × Source
  normalize_session_identities source = (
    record s {
      session_identities = (mint_all source).0;
      agent_generations = retained_generations s;
    },
    (mint_all source).1,
    (mint_all source).2,
  )
