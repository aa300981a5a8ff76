-- ===== src/Model/Validate/Sound.antt =====
-- src/model.rs, `validate_session_identities`: what a state satisfies that passes.
use mult.Base.{ℕ, ◌+◌, ◌≡◌, ◌↔◌, sym, Bool, true, length, arith, All, length-append}
use mult.Base.Result.{ok}
use mult.Model.Data.{ChatSession, TerminalSession, ProjectState, chat_numbers, terminal_numbers}
use mult.Model.State.{chat_ids, terminal_ids, values, tokens}
use mult.Model.Validate.{sum_of, checks, validate_session_identities, InvalidState}
use mult.Model.Valid.{IsStored, IsValid}
use mult.Model.Validate.Checks.{
  ensure_all-ok, length-map, sum_of-flat, table_iff, numbers_iff, apart_test, known_iff,
  workspaces_iff,
}

pub chats_length :
    (s : ProjectState) → sum_of (λ w. length w.chats) s.workspaces ≡ length (chat_ids s)
chats_length s =
    sum_of-flat chat_numbers (λ w. length w.chats) s.workspaces
      (λ w. length-map (λ (c : ChatSession). c.id) w.chats)

pub terminals_length :
    (s : ProjectState) → sum_of (λ w. length w.terminals) s.workspaces ≡ length (terminal_ids s)
terminals_length s =
    sum_of-flat terminal_numbers (λ w. length w.terminals) s.workspaces
      (λ w. length-map (λ (t : TerminalSession). t.id) w.terminals)

length-tokens :
    (s : ProjectState)
    → length s.session_identities.chats + length s.session_identities.terminals ≡ length (tokens s)
length-tokens s = omega (
  arith,
  length-append (values s.session_identities.chats) (values s.session_identities.terminals),
  length-map (λ (p : ℕ × ℕ). p.1) s.session_identities.chats,
  length-map (λ (p : ℕ × ℕ). p.1) s.session_identities.terminals,
)

generations_length :
    (s : ProjectState) → length s.agent_generations ≡ length (values s.agent_generations)
generations_length s = sym (length-map (λ (p : ℕ × ℕ). p.1) s.agent_generations)

checks→IsValid :
    (s : ProjectState)
    → IsStored s
    → All (λ (p : Bool × InvalidState). p.0 ≡ true) (checks s)
    → IsValid s
unfolding checks
checks→IsValid s stored h =
    let (numbered, nonzero) = (workspaces_iff s.workspaces).0 h.0 in
    let (chats, chats_fine) = (numbers_iff (chat_ids s) _ (chats_length s)).0 h.1.0 in
    let (terminals, terminals_fine) =
      (numbers_iff (terminal_ids s) _ (terminals_length s)).0 h.1.1.0 in
    record {
      workspaces_unique = numbered;
      workspaces_nonzero = nonzero;
      chats_unique = chats;
      chats_durable = chats_fine;
      terminals_unique = terminals;
      terminals_durable = terminals_fine;
      chat_table =
          (table_iff (chat_ids s) s.session_identities.chats stored.chats_sorted).0 h.1.1.1.0;
      terminal_table =
          (table_iff (terminal_ids s) s.session_identities.terminals stored.terminals_sorted).0
            h.1.1.1.1.0;
      tokens_unique = (apart_test (tokens s) _ (length-tokens s)).0 h.1.1.1.1.1.0;
      generations_known = (known_iff s.agent_generations (chat_ids s)).0 h.1.1.1.1.1.1.0;
      generations_unique =
          (apart_test (values s.agent_generations) _ (generations_length s)).0 h.1.1.1.1.1.1.1.0;
    }

IsValid→checks :
    (s : ProjectState)
    → IsStored s
    → IsValid s
    → All (λ (p : Bool × InvalidState). p.0 ≡ true) (checks s)
unfolding checks
IsValid→checks s stored v = (
  (workspaces_iff s.workspaces).1 (v.workspaces_unique, v.workspaces_nonzero),
  (
    (numbers_iff (chat_ids s) _ (chats_length s)).1 (v.chats_unique, v.chats_durable),
    (
      (numbers_iff (terminal_ids s) _ (terminals_length s)).1
          (v.terminals_unique, v.terminals_durable),
      (
        (table_iff (chat_ids s) s.session_identities.chats stored.chats_sorted).1 v.chat_table,
        (
          (table_iff (terminal_ids s) s.session_identities.terminals stored.terminals_sorted).1
              v.terminal_table,
          (
            (apart_test (tokens s) _ (length-tokens s)).1 v.tokens_unique,
            (
              (known_iff s.agent_generations (chat_ids s)).1 v.generations_known,
              (
                (apart_test (values s.agent_generations) _ (generations_length s)).1
                    v.generations_unique,
                tt,
              ),
            ),
          ),
        ),
      ),
    ),
  ),
)

-- Where the tables are in order, as `BTreeMap` keeps them, the check passes just the valid
-- states: numbers unique and in range, a token for each session and no other, tokens and
-- generations unique, generations of chats that exist.
pub validate-ok-iff-IsValid :
    (s : ProjectState) → IsStored s → (validate_session_identities s ≡ ok tt) ↔ IsValid s
unfolding validate_session_identities
validate-ok-iff-IsValid s stored = (
  λ h. checks→IsValid s stored ((ensure_all-ok (checks s)).0 h),
  λ v. (ensure_all-ok (checks s)).1 (IsValid→checks s stored v),
)
