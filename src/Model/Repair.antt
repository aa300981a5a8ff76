-- ===== src/Model/Repair.antt =====
-- src/model.rs, `normalize_existing_ids` and `normalize_next_ids`: the repair of the numbers of a
-- state that was loaded.
pub mod Rounds
pub mod Numbers
pub mod Total
use mult.Base.{
  ℕ, zero, suc, ◌+◌, ◌-◌, ◌*◌, ◌^◌, Bool, true, false, not, ◌&&◌, ◌||◌, Option, none, some, List,
  [], ◌∷◌, length, ltb, leb, ◌==◌, if◌then◌else◌, min,
}
use mult.Base.OrdSet.{contains, insert, of_list}
use mult.Base.Result.{Result, ok, err, ◌>>=◌}
use mult.Model.Ids.{
  take_available_id, normalized_allocator_hint, is_valid_durable_session_id, max_durable_session_id,
  u64_max,
}
use mult.Model.Data.{
  IdAllocationError, workspace_ids, chat_ids_spent, terminal_ids_spent, ChatSession,
  TerminalSession, Workspace, ProjectState, workspace_numbers,
}
use mult.Model.State.{chat_ids, terminal_ids, durable}

-- The local variables of a round over the numbers of one kind.
pub record Round : Type 0 where
  pub used : List ℕ
  pub seen : List ℕ
  pub next : ℕ
  pub changed : Bool

abbrev pub is_nonzero : ℕ → Bool
is_nonzero id = not (id == 0)

unfoldable pub nonzero_only : List ℕ → List ℕ
nonzero_only [] = []
nonzero_only (id ∷ ids) = let rest = nonzero_only ids in if is_nonzero id then id ∷ rest else rest

unfoldable pub replaced :
    {F : Type 0}
    → IdAllocationError F
    → Round
    → Option (ℕ × ℕ × List ℕ)
    → Result (IdAllocationError F) (ℕ × Round)
replaced e r none = err e
replaced e r (some (id, n, u)) =
    ok (id, record { used = u; seen = insert id r.seen; next = n; changed = true })

-- One number: kept when it is valid and new, else replaced by one that is available.
unfoldable pub repair_id :
    {F : Type 0}
    → (ℕ → Bool)
    → ℕ
    → IdAllocationError F
    → ℕ
    → Round
    → Result (IdAllocationError F) (ℕ × Round)
repair_id valid max e id r =
    if valid id && not (contains id r.seen)
    then ok (id, record r { seen = insert id r.seen })
    else replaced e r (take_available_id r.used r.next max)

-- A `for` loop over items that it mutates, with `?` in its body.
unfoldable pub for_each :
    {E A : Type 0} → (A → Round → Result E (A × Round)) → List A → Round → Result E (List A × Round)
for_each body [] r = ok ([], r)
for_each body (x ∷ xs) r = body x r >>= λ p. for_each body xs p.1 >>= λ q. ok (p.0 ∷ q.0, q.1)

-- The body of a loop, at a number of the item.
unfoldable pub repair_item :
    {F A : Type 0}
    → (ℕ → Bool)
    → ℕ
    → IdAllocationError F
    → (A → ℕ)
    → (ℕ → A → A)
    → A
    → Round
    → Result (IdAllocationError F) (A × Round)
repair_item valid max e id with_id x r =
    repair_id valid max e (id x) r >>= λ p. ok (with_id p.0 x, p.1)

unfoldable pub repair_workspace :
    {F : Type 0} → Workspace → Round → Result (IdAllocationError F) (Workspace × Round)
repair_workspace =
    repair_item is_nonzero u64_max workspace_ids (λ (w : Workspace). w.id)
      (λ i w. record w { id = i })

unfoldable pub repair_chats :
    {F : Type 0} → Workspace → Round → Result (IdAllocationError F) (Workspace × Round)
repair_chats w r =
    for_each
      (repair_item is_valid_durable_session_id max_durable_session_id chat_ids_spent
        (λ (c : ChatSession). c.id) (λ i c. record c { id = i }))
      w.chats r
    >>= λ p. ok (record w { chats = p.0 }, p.1)

unfoldable pub repair_terminals :
    {F : Type 0} → Workspace → Round → Result (IdAllocationError F) (Workspace × Round)
repair_terminals w r =
    for_each
      (repair_item is_valid_durable_session_id max_durable_session_id terminal_ids_spent
        (λ (t : TerminalSession). t.id) (λ i t. record t { id = i }))
      w.terminals r
    >>= λ p. ok (record w { terminals = p.0 }, p.1)

abbrev pub first_round : List ℕ → Round
first_round ids = record { used = of_list ids; seen = []; next = 1; changed = false }

abbrev pub with_workspaces : ProjectState → List Workspace → ProjectState
with_workspaces s ws = record s { workspaces = ws }

-- The three loops, one after another, each on what the one before left.
unfoldable pub normalize_existing_ids :
    {F : Type 0} → ProjectState → Result (IdAllocationError F) (ProjectState × Bool)
normalize_existing_ids s =
    for_each repair_workspace s.workspaces
      (first_round (nonzero_only (workspace_numbers s.workspaces)))
    >>= λ p.
        for_each repair_chats p.0 (first_round (durable (chat_ids (with_workspaces s p.0))))
        >>= λ q.
            for_each repair_terminals q.0
              (first_round (durable (terminal_ids (with_workspaces s q.0))))
            >>= λ t. ok (with_workspaces s t.0, p.1.changed || (q.1.changed || t.1.changed))

-- A fold with the `saturating_add` of `u128`.
unfoldable pub saturating_count : (Workspace → ℕ) → List Workspace → ℕ → ℕ
saturating_count count [] total = total
saturating_count count (w ∷ ws) total =
    saturating_count count ws (min (total + count w) (2 ^ 128 - 1))

unfoldable pub ensure_id_capacity :
    {F : Type 0} → ProjectState → Result (IdAllocationError F) (Unit {0})
ensure_id_capacity s =
    if ltb max_durable_session_id (saturating_count (λ w. length w.chats) s.workspaces 0)
    then err chat_ids_spent
    else if ltb max_durable_session_id (saturating_count (λ w. length w.terminals) s.workspaces 0)
    then err terminal_ids_spent
    else ok tt

-- The hints of a state, normalized.
unfoldable pub with_hints : ProjectState → ProjectState
with_hints s = record s {
  next_workspace_id =
      normalized_allocator_hint s.next_workspace_id (of_list (workspace_numbers s.workspaces))
        u64_max;
  next_chat_id =
      normalized_allocator_hint s.next_chat_id (of_list (chat_ids s)) max_durable_session_id;
  next_terminal_id =
      normalized_allocator_hint s.next_terminal_id (of_list (terminal_ids s))
        max_durable_session_id;
}

abbrev pub differs : ℕ → ℕ → Bool
differs a b = not (a == b)

unfoldable pub hints_changed : ProjectState → ProjectState → Bool
hints_changed s now =
    differs s.next_workspace_id now.next_workspace_id
    || (differs s.next_chat_id now.next_chat_id || differs s.next_terminal_id now.next_terminal_id)

unfoldable pub normalize_next_ids :
    {F : Type 0} → ProjectState → Result (IdAllocationError F) (ProjectState × Bool)
normalize_next_ids s = ensure_id_capacity s >>= λ u.
    normalize_existing_ids s >>= λ p. ok (with_hints p.0, p.1 || hints_changed p.0 (with_hints p.0))
