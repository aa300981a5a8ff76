-- ===== src/Model/Repair/Total.antt =====
-- src/model.rs, `normalize_next_ids`: the repair succeeds on every state with few enough sessions,
-- and what it leaves has valid numbers and free hints.
use mult.Base.{
  ℕ, ◌+◌, ◌-◌, ◌^◌, ◌≤◌, ◌≡◌, refl, sym, ◌∙◌, ap, subst, Bool, true, false, ◌||◌, List, [], ◌∷◌,
  ◌++◌, length, arith, ◌==◌, if◌then◌else◌, inl, inr, Bool-cases, ==→eq, min, map,
}
use mult.Base.OrdSet.{contains, of_list, IsUnique, of_list-IsSorted}
use mult.Base.OrdSet.Count.{flat, flat_single, map_view, flat_view}
use mult.Base.Result.{ok}
use mult.Model.Ids.{is_valid_durable_session_id, max_durable_session_id, u64_max}
use mult.Model.Ids.Taken.{IsHint, normalized_allocator_hint-IsHint}
use mult.Model.Data.{Workspace, ProjectState, workspace_numbers, chat_numbers, terminal_numbers}
use mult.Model.State.{chat_ids, terminal_ids, durable}
use mult.Model.Valid.{AreDurable}
use mult.Model.Validate.{sum_of}
use mult.Model.Validate.Checks.{length-map}
use mult.Model.Validate.Sound.{chats_length, terminals_length}
use mult.Model.Repair.{
  is_nonzero, nonzero_only, repair_workspace, repair_chats, repair_terminals, first_round,
  with_workspaces, normalize_existing_ids, saturating_count, ensure_id_capacity, with_hints,
  hints_changed, normalize_next_ids,
}
use mult.Model.Repair.Rounds.{IsRound, for_each-IsRepair, first_round-IsRound}
use mult.Model.Repair.Numbers.{
  but_number, but_chats, but_terminals, erase, repair_workspace-IsRepair, repair_chats-IsRepair,
  repair_terminals-IsRepair,
}

-- The numbers of a state are those that `validate_session_identities` asks for.
pub record AreNumbered (s : ProjectState) : Type 0 where
  pub workspaces_unique : IsUnique (workspace_numbers s.workspaces)
  pub workspaces_nonzero : contains 0 (workspace_numbers s.workspaces) ≡ false
  pub chats_unique : IsUnique (chat_ids s)
  pub chats_durable : AreDurable (chat_ids s)
  pub terminals_unique : IsUnique (terminal_ids s)
  pub terminals_durable : AreDurable (terminal_ids s)

-- Few enough workspaces and sessions for their numbers.
pub record HasRoom (s : ProjectState) : Type 0 where
  pub workspaces_fit : length s.workspaces ≤ u64_max
  pub chats_fit : length (chat_ids s) ≤ max_durable_session_id
  pub terminals_fit : length (terminal_ids s) ≤ max_durable_session_id

nonzero_kept :
    (k : ℕ) (ids : List ℕ)
    → contains k (nonzero_only ids) ≡ (if is_nonzero k then contains k ids else false)
unfolding contains nonzero_only
nonzero_kept k [] = ground arith
nonzero_kept k (id ∷ ids) = ground (arith, nonzero_kept k ids)

pub durable_kept :
    (k : ℕ) (ids : List ℕ)
    → contains k (durable ids) ≡ (if is_valid_durable_session_id k then contains k ids else false)
unfolding contains durable
durable_kept k [] = ground arith
durable_kept k (id ∷ ids) = elim (Bool-cases (id == k)) [
  | inl same ↦ ground (arith, durable_kept k ids, ap is_valid_durable_session_id (==→eq id k same))
  | inr other ↦ ground (arith, durable_kept k ids)
]

append_nil : (xs : List ℕ) → xs ++ [] ≡ xs
append_nil [] = refl
append_nil (x ∷ xs) = ap (λ l. x ∷ l) (append_nil xs)

-- The start of the round over the workspaces, and of those over the durable sessions.
workspace_start :
    (ws : List Workspace)
    → length ws ≤ u64_max
    → IsRound is_nonzero u64_max
        (first_round (nonzero_only (workspace_numbers ws)))
        (flat (λ (w : Workspace). w.id ∷ []) ws ++ [])
workspace_start ws h =
    subst (IsRound is_nonzero u64_max (first_round (nonzero_only (workspace_numbers ws))))
      (sym (flat_single (λ (w : Workspace). w.id) ws) ∙ sym (append_nil _))
      (first_round-IsRound is_nonzero u64_max (workspace_numbers ws) _
        (λ k. nonzero_kept k (workspace_numbers ws))
        (omega (arith, h, length-map (λ (w : Workspace). w.id) ws)))

durable_start :
    (ids : List ℕ)
    → length ids ≤ max_durable_session_id
    → IsRound is_valid_durable_session_id max_durable_session_id
        (first_round (durable ids))
        (ids ++ [])
durable_start ids h =
    subst (IsRound is_valid_durable_session_id max_durable_session_id (first_round (durable ids)))
      (sym (append_nil ids))
      (first_round-IsRound is_valid_durable_session_id max_durable_session_id ids _
        (λ k. durable_kept k ids) h)

nonzero_numbers :
    (ids : List ℕ)
    → ((k : ℕ) → contains k ids ≡ true → is_nonzero k ≡ true)
    → contains 0 ids ≡ false
nonzero_numbers ids h = elim (Bool-cases (contains 0 ids)) [
  | inl there ↦ absurd (ground (arith, h 0 there))
  | inr absent ↦ absent
]

-- The same fields, but for the workspaces and the hints.
pub record IsSameBut (now s : ProjectState) : Type 0 where
  pub version : now.version ≡ s.version
  pub namespace : now.namespace ≡ s.namespace
  pub identities : now.session_identities ≡ s.session_identities
  pub generations : now.agent_generations ≡ s.agent_generations

-- What the three loops leave.
pub existing_total :
    {F : Type 0} (s : ProjectState)
    → HasRoom s
    → (now : ProjectState) × (changed : Bool) × (normalize_existing_ids {F = F} s
        ≡ ok (now, changed))
      × AreNumbered now
      × IsSameBut now s
      × (map erase now.workspaces ≡ map erase s.workspaces)
unfolding normalize_existing_ids
existing_total {F = F} s room =
    let (ws1, r1, ran1, same1, num1, end1) =
      for_each-IsRepair is_nonzero u64_max _ but_number repair_workspace
        (repair_workspace-IsRepair F) s.workspaces []
        (first_round (nonzero_only (workspace_numbers s.workspaces)))
        (workspace_start s.workspaces room.workspaces_fit) in
    let chats1 = flat_view but_number chat_numbers s.workspaces ws1 same1 in
    let terminals1 = flat_view but_number terminal_numbers s.workspaces ws1 same1 in
    let (ws2, r2, ran2, same2, num2, end2) =
      for_each-IsRepair is_valid_durable_session_id max_durable_session_id chat_numbers but_chats
        repair_chats (repair_chats-IsRepair F) ws1 []
        (first_round (durable (chat_ids (with_workspaces s ws1))))
        (durable_start (flat chat_numbers ws1) (omega (arith, room.chats_fit, ap length chats1))) in
    let numbers2 = map_view but_chats (λ (w : Workspace). w.id) ws1 ws2 same2 in
    let terminals2 = flat_view but_chats terminal_numbers ws1 ws2 same2 in
    let (ws3, r3, ran3, same3, num3, end3) =
      for_each-IsRepair is_valid_durable_session_id max_durable_session_id terminal_numbers
        but_terminals repair_terminals (repair_terminals-IsRepair F) ws2 []
        (first_round (durable (terminal_ids (with_workspaces s ws2))))
        (durable_start (flat terminal_numbers ws2)
          (omega (arith, room.terminals_fit, ap length terminals1, ap length terminals2))) in
    let numbers3 = map_view but_terminals (λ (w : Workspace). w.id) ws2 ws3 same3 in
    let chats3 = flat_view but_terminals chat_numbers ws2 ws3 same3 in
    let numbers = flat_single (λ (w : Workspace). w.id) ws1 ∙ sym (numbers3 ∙ numbers2) in
    (
      with_workspaces s ws3,
      r1.changed || (r2.changed || r3.changed),
      rw (ran1, ran2, ran3, normalize_existing_ids) refl,
      record {
        workspaces_unique = subst IsUnique numbers num1.apart;
        workspaces_nonzero =
            nonzero_numbers _
              (subst (λ l. (k : ℕ) → contains k l ≡ true → is_nonzero k ≡ true) numbers num1.fine);
        chats_unique = subst IsUnique (sym chats3) num2.apart;
        chats_durable = subst AreDurable (sym chats3) num2.fine;
        terminals_unique = num3.apart;
        terminals_durable = num3.fine;
      },
      record { version = refl; namespace = refl; identities = refl; generations = refl },
      map_view but_terminals (λ u. but_number (but_chats u)) ws2 ws3 same3
          ∙ map_view but_chats (λ u. but_number (but_terminals u)) ws1 ws2 same2
          ∙ map_view but_number (λ u. but_chats (but_terminals u)) s.workspaces ws1 same1,
    )

saturating_count_le :
    (count : Workspace → ℕ) (ws : List Workspace) (total : ℕ)
    → saturating_count count ws total ≤ total + sum_of count ws
unfolding saturating_count sum_of
saturating_count_le count [] total = omega arith
saturating_count_le count (w ∷ ws) total =
    omega (arith, saturating_count_le count ws (min (total + count w) (2 ^ 128 - 1)))

ensure_id_capacity-ok :
    {F : Type 0} (s : ProjectState) → HasRoom s → ensure_id_capacity {F = F} s ≡ ok tt
unfolding ensure_id_capacity
ensure_id_capacity-ok s room = ground (
  arith,
  saturating_count_le (λ w. length w.chats) s.workspaces 0,
  chats_length s,
  saturating_count_le (λ w. length w.terminals) s.workspaces 0,
  terminals_length s,
  room.chats_fit,
  room.terminals_fit,
)

-- The hints of a state are free numbers, or zero where none is left.
pub record AreHinted (s : ProjectState) : Type 0 where
  pub workspace_hint : IsHint (of_list (workspace_numbers s.workspaces)) u64_max s.next_workspace_id
  pub chat_hint : IsHint (of_list (chat_ids s)) max_durable_session_id s.next_chat_id
  pub terminal_hint : IsHint (of_list (terminal_ids s)) max_durable_session_id s.next_terminal_id

with_hints-AreHinted : (s : ProjectState) → AreHinted (with_hints s)
unfolding with_hints
with_hints-AreHinted s = record {
  workspace_hint =
      normalized_allocator_hint-IsHint s.next_workspace_id u64_max _ (of_list-IsSorted _)
        (omega arith);
  chat_hint =
      normalized_allocator_hint-IsHint s.next_chat_id max_durable_session_id _ (of_list-IsSorted _)
        (omega arith);
  terminal_hint =
      normalized_allocator_hint-IsHint s.next_terminal_id max_durable_session_id _
        (of_list-IsSorted _) (omega arith);
}

with_hints-AreNumbered : (s : ProjectState) → AreNumbered s → AreNumbered (with_hints s)
unfolding with_hints
with_hints-AreNumbered s a = record {
  workspaces_unique = a.workspaces_unique;
  workspaces_nonzero = a.workspaces_nonzero;
  chats_unique = a.chats_unique;
  chats_durable = a.chats_durable;
  terminals_unique = a.terminals_unique;
  terminals_durable = a.terminals_durable;
}

with_hints-IsSameBut : (now s : ProjectState) → IsSameBut now s → IsSameBut (with_hints now) s
unfolding with_hints
with_hints-IsSameBut now s same = record {
  version = same.version;
  namespace = same.namespace;
  identities = same.identities;
  generations = same.generations;
}

-- On a state with at most as many workspaces and sessions as there are numbers the repair of the
-- numbers succeeds. Then all numbers are unique and in range, each hint is a free number, or zero
-- where none is free, and nothing but numbers and hints changed.
pub normalize_next_ids_total :
    (F : Type 0) (s : ProjectState)
    → HasRoom s
    → (now : ProjectState) × (changed : Bool) × (normalize_next_ids {F = F} s ≡ ok (now, changed))
      × AreNumbered now
      × AreHinted now
      × IsSameBut now s
      × (map erase now.workspaces ≡ map erase s.workspaces)
unfolding normalize_next_ids
normalize_next_ids_total F s room =
    let (now, changed, ran, numbered, same, erased) = existing_total {F = F} s room in
    (
      with_hints now,
      changed || hints_changed now (with_hints now),
      rw (ensure_id_capacity-ok {F = F} s room, ran, normalize_next_ids) refl,
      with_hints-AreNumbered now numbered,
      with_hints-AreHinted now,
      with_hints-IsSameBut now s same,
      hinted now ∙ erased,
    )
  where
    hinted : (x : ProjectState) → map erase (with_hints x).workspaces ≡ map erase x.workspaces
    hinted x = unfold with_hints in refl
