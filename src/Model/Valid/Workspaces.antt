-- ===== src/Model/Valid/Workspaces.antt =====
-- src/model.rs: adding and removing a workspace keeps a state well formed.
use mult.Base.{ℕ, ◌+◌, ◌≤◌, ◌≡◌, false, Option, some, List, [], ◌∷◌, arith, ◌==◌, if◌then◌else◌}
use mult.Base.OrdSet.{contains}
use mult.Base.OrdSet.Count.{count, count-append, contains-count, flat}
use mult.Base.Find.{remove_first, push, count-remove_first}
use mult.Model.Data.{
  Workspace, ProjectState, workspace_numbers, chat_numbers, terminal_numbers, Text, RemoteTarget,
}
use mult.Model.State.{values, tokens, is_workspace, workspace, new_workspace}
use mult.Model.Sessions.{remove_all}
use mult.Model.Valid.{IsWellFormed}
use mult.Model.Valid.Kept.{
  IsKept-remove, IsKept-same, AreKnown-remove, AreKnown-more, apart_more, apart_fewer, chats_part,
  terminals_part, generations_part, assemble,
}
use mult.Model.Valid.Steps.{count-push, count-numbers-remove_first}
use mult.Model.Valid.Tables.{count-values-remove_all_le}

flat-push :
    (numbers : Workspace → List ℕ) (w : Workspace) (ws : List Workspace) (k : ℕ)
    → count k (flat numbers (push w ws)) ≡ count k (flat numbers ws) + count k (numbers w)
flat-push numbers w [] k = omega (arith, count-append k (numbers w) [])
flat-push numbers w (x ∷ ws) k = omega (
  arith,
  count-append k (numbers x) (flat numbers (push w ws)),
  count-append k (numbers x) (flat numbers ws),
  flat-push numbers w ws k,
)

pub push-IsWellFormed :
    (s : ProjectState) (id next : ℕ) (name : Text) (dir : Option Text)
    (target : Option RemoteTarget)
    → 1 ≤ id
    → contains id (workspace_numbers s.workspaces) ≡ false
    → IsWellFormed s
    → IsWellFormed (record s {
      next_workspace_id = next;
      workspaces = push (new_workspace id name dir target) s.workspaces;
    })
push-IsWellFormed s id next name dir target h fresh good =
    assemble _
      (apart_more (workspace_numbers s.workspaces) _ id numbers fresh good.1.workspaces_unique)
      (ground (
        arith,
        numbers 0,
        good.1.workspaces_nonzero,
        contains-count 0 (workspace_numbers s.workspaces),
        contains-count 0 (workspace_numbers (push (new_workspace id name dir target) s.workspaces)),
      ))
      (IsKept-same _ _ _ (λ k. omega (arith, flat-push chat_numbers added s.workspaces k))
        (chats_part s good))
      (IsKept-same _ _ _ (λ k. omega (arith, flat-push terminal_numbers added s.workspaces k))
        (terminals_part s good))
      good.1.tokens_unique
      (AreKnown-more _ [] _ _ (λ k. omega (arith, flat-push chat_numbers added s.workspaces k))
        (generations_part s good))
  where
    added : Workspace
    added = new_workspace id name dir target

    numbers :
        (n : ℕ)
        → count n (workspace_numbers (push (new_workspace id name dir target) s.workspaces))
          ≡ count n (workspace_numbers s.workspaces) + (if id == n then 1 else 0)
    numbers n = omega (
      arith,
      count-push (λ (w : Workspace). w.id) n (new_workspace id name dir target) s.workspaces,
    )

-- The state without a workspace and without the entries of its sessions.
pub remove-IsWellFormed :
    (s : ProjectState) (wid : ℕ) (w : Workspace)
    → workspace s wid ≡ some w
    → IsWellFormed s
    → IsWellFormed (record s {
      workspaces = remove_first (is_workspace wid) s.workspaces;
      session_identities = record {
        chats = remove_all (chat_numbers w) s.session_identities.chats;
        terminals = remove_all (terminal_numbers w) s.session_identities.terminals;
      };
      agent_generations = remove_all (chat_numbers w) s.agent_generations;
    })
unfolding workspace
remove-IsWellFormed s wid w found good =
    assemble _ (apart_fewer (workspace_numbers s.workspaces) _ fewer good.1.workspaces_unique)
      (ground (
        arith,
        fewer 0,
        good.1.workspaces_nonzero,
        contains-count 0 (workspace_numbers s.workspaces),
        contains-count 0 (workspace_numbers (remove_first (is_workspace wid) s.workspaces)),
      ))
      (IsKept-remove _ (chat_numbers w) _ s.session_identities.chats
        (λ k.
          omega (arith, count-remove_first chat_numbers (is_workspace wid) k w s.workspaces found))
        (chats_part s good))
      (IsKept-remove _ (terminal_numbers w) _ s.session_identities.terminals
        (λ k.
          omega
            (arith, count-remove_first terminal_numbers (is_workspace wid) k w s.workspaces found))
        (terminals_part s good))
      (apart_fewer (tokens s) _
        (λ n. omega (
          arith,
          count-append n (values s.session_identities.chats)
              (values s.session_identities.terminals),
          count-append n (values (remove_all (chat_numbers w) s.session_identities.chats))
              (values (remove_all (terminal_numbers w) s.session_identities.terminals)),
          count-values-remove_all_le (chat_numbers w) n s.session_identities.chats,
          count-values-remove_all_le (terminal_numbers w) n s.session_identities.terminals,
        ))
        good.1.tokens_unique)
      (AreKnown-remove _ (chat_numbers w) _ s.agent_generations
        (λ k.
          omega (arith, count-remove_first chat_numbers (is_workspace wid) k w s.workspaces found))
        good.1.chats_unique (generations_part s good))
  where
    fewer :
        (n : ℕ)
        → count n (workspace_numbers (remove_first (is_workspace wid) s.workspaces))
          ≤ count n (workspace_numbers s.workspaces)
    fewer n =
        omega
          (arith, count-numbers-remove_first (λ (w : Workspace). w.id) n wid w s.workspaces found)
