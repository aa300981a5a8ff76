-- ===== src/Model/Steps/Sound.antt =====
-- src/model.rs: every change keeps a state well formed.
use mult.Base.{
  ℕ, ◌≡◌, refl, concat, ==→eq, ◌∙◌, sym, ap, subst, true, false, List, [], ◌∷◌, arith, inl, inr,
  Bool-cases, ◌==◌, map,
}
use mult.Base.OrdSet.{contains, IsUnique}
use mult.Base.OrdSet.Count.{contains-count, IsUnique→count, count→IsUnique, flat-concat}
use mult.Base.Find.{update_first}
use mult.Base.OrdMap.{OrdMap, put, remove, remove-IsSorted, put-IsSorted}
use mult.Model.Data.{
  ChatSession, Workspace, ProjectState, workspace_numbers, chat_numbers, terminal_numbers,
}
use mult.Model.State.{values, chat_ids, terminal_ids, is_workspace, is_chat, workspace}
use mult.Model.Valid.{IsWellFormed}
use mult.Model.Valid.Kept.{
  IsKept, AreKnown, apart_fewer, chats_part, terminals_part, generations_part, assemble,
}
use mult.Model.Valid.Tables.{
  count-values-put_le, count-values-remove_le, contains-keys-put, contains-keys-remove,
}
use mult.Model.Valid.Steps.{
  insert_chat-IsWellFormed, insert_terminal-IsWellFormed, without_chat-IsWellFormed,
  without_terminal-IsWellFormed,
}
use mult.Model.Valid.Workspaces.{push-IsWellFormed, remove-IsWellFormed}
use mult.Model.Messages.{update_chat}
use mult.Model.Steps.{
  Change, Step, unchanged, workspace_added, chat_added, terminal_added, generation_begun,
  generation_cleared, workspace_removed, chat_removed, terminal_removed, chat_edited,
}

-- Hints do not matter.
next_chat-IsWellFormed :
    (s : ProjectState) (next : ℕ) → IsWellFormed s → IsWellFormed (record s { next_chat_id = next })
next_chat-IsWellFormed s next good =
    assemble _ good.1.workspaces_unique good.1.workspaces_nonzero (chats_part s good)
      (terminals_part s good) good.1.tokens_unique (generations_part s good)

next_terminal-IsWellFormed :
    (s : ProjectState) (next : ℕ)
    → IsWellFormed s
    → IsWellFormed (record s { next_terminal_id = next })
next_terminal-IsWellFormed s next good =
    assemble _ good.1.workspaces_unique good.1.workspaces_nonzero (chats_part s good)
      (terminals_part s good) good.1.tokens_unique (generations_part s good)

begun-AreKnown :
    (ids : List ℕ) (chat_id generation : ℕ) (gens : OrdMap ℕ)
    → contains chat_id ids ≡ true
    → contains generation (values gens) ≡ false
    → AreKnown ids gens
    → AreKnown ids (put chat_id generation gens)
begun-AreKnown ids chat_id generation gens there fresh a = record {
  known = λ k e. elim (Bool-cases (chat_id == k)) [
    | inl same ↦ subst (λ n. contains n ids ≡ true) (==→eq chat_id k same) there
    | inr other ↦ a.known k (ground (arith, contains-keys-put chat_id k generation gens))
  ];
  apart = count→IsUnique (values (put chat_id generation gens)) (λ n.
      elim (Bool-cases (generation == n)) [
        | inl same ↦ ground (
          arith,
          count-values-put_le chat_id generation n gens,
          contains-count n (values gens),
          subst (λ m. contains m (values gens) ≡ false) (==→eq generation n same) fresh,
        )
        | inr other ↦ ground (
          arith,
          count-values-put_le chat_id generation n gens,
          IsUnique→count n (values gens) a.apart,
        )
      ]);
  sorted = put-IsSorted chat_id generation gens a.sorted;
}

cleared-AreKnown :
    (ids : List ℕ) (chat_id : ℕ) (gens : OrdMap ℕ)
    → AreKnown ids gens
    → AreKnown ids (remove chat_id gens)
cleared-AreKnown ids chat_id gens a = record {
  known = λ k e. a.known k (ground (arith, contains-keys-remove chat_id k gens));
  apart =
      apart_fewer (values gens) (values (remove chat_id gens))
        (λ n. count-values-remove_le chat_id n gens) a.apart;
  sorted = remove-IsSorted chat_id gens a.sorted;
}

-- An edit of a chat changes no number.
edited_numbers :
    (chat_id : ℕ) (f : ChatSession → ChatSession)
    → ((c : ChatSession) → (f c).id ≡ c.id)
    → (cs : List ChatSession)
    → map (λ (c : ChatSession). c.id) (update_first (is_chat chat_id) f cs)
      ≡ map (λ (c : ChatSession). c.id) cs
unfolding update_first
edited_numbers chat_id f h [] = refl
edited_numbers chat_id f h (c ∷ cs) = elim (Bool-cases (c.id == chat_id)) [
  | inl hit ↦ rw (hit, update_first) (ap (λ i. i ∷ map (λ (c : ChatSession). c.id) cs) (h c))
  | inr miss ↦ rw (miss, update_first) (ap (λ l. c.id ∷ l) (edited_numbers chat_id f h cs))
]

edited_workspaces :
    {B : Type 0} (view : Workspace → B) (wid : ℕ) (f : Workspace → Workspace)
    → ((w : Workspace) → view (f w) ≡ view w)
    → (ws : List Workspace) → map view (update_first (is_workspace wid) f ws) ≡ map view ws
unfolding update_first
edited_workspaces view wid f h [] = refl
edited_workspaces view wid f h (w ∷ ws) = elim (Bool-cases (w.id == wid)) [
  | inl hit ↦ rw (hit, update_first) (ap (λ v. v ∷ map view ws) (h w))
  | inr miss ↦ rw (miss, update_first) (ap (λ l. view w ∷ l) (edited_workspaces view wid f h ws))
]

edited-IsWellFormed :
    (s : ProjectState) (wid chat_id : ℕ) (f : ChatSession → ChatSession)
    → ((c : ChatSession) → (f c).id ≡ c.id)
    → IsWellFormed s
    → IsWellFormed (update_chat s wid chat_id f)
edited-IsWellFormed s wid chat_id f h good =
    assemble _ (subst IsUnique (sym numbers) good.1.workspaces_unique)
      (subst (λ l. contains 0 l ≡ false) (sym numbers) good.1.workspaces_nonzero)
      (subst (λ l. IsKept l s.session_identities.chats) (sym chats) (chats_part s good))
      (subst (λ l. IsKept l s.session_identities.terminals) (sym terminals) (terminals_part s good))
      good.1.tokens_unique
      (subst (λ l. AreKnown l s.agent_generations) (sym chats) (generations_part s good))
  where
    numbers :
        workspace_numbers (update_chat s wid chat_id f).workspaces ≡ workspace_numbers s.workspaces
    numbers = edited_workspaces (λ (w : Workspace). w.id) wid _ (λ w. refl) s.workspaces

    chats : chat_ids (update_chat s wid chat_id f) ≡ chat_ids s
    chats =
        flat-concat chat_numbers (update_chat s wid chat_id f).workspaces
        ∙ ap concat (
            edited_workspaces chat_numbers wid _ (λ w. edited_numbers chat_id f h w.chats)
              s.workspaces)
        ∙ sym (flat-concat chat_numbers s.workspaces)

    terminals : terminal_ids (update_chat s wid chat_id f) ≡ terminal_ids s
    terminals =
        flat-concat terminal_numbers (update_chat s wid chat_id f).workspaces
        ∙ ap concat (edited_workspaces terminal_numbers wid _ (λ w. refl) s.workspaces)
        ∙ sym (flat-concat terminal_numbers s.workspaces)

pub Step-IsWellFormed :
    (s : ProjectState) {c : Change} {now : ProjectState}
    → Step s c now
    → IsWellFormed s
    → IsWellFormed now
Step-IsWellFormed s unchanged good = good
Step-IsWellFormed s (workspace_added id next name dir target h fresh) good =
    push-IsWellFormed s id next name dir target h fresh good
Step-IsWellFormed s (chat_added next wid token w added found fresh fine nonzero unused) good =
    insert_chat-IsWellFormed (record s { next_chat_id = next }) wid w (unfold workspace in found)
      added token fresh fine unused (next_chat-IsWellFormed s next good)
Step-IsWellFormed s (terminal_added next wid token w added found fresh fine nonzero unused) good =
    insert_terminal-IsWellFormed (record s { next_terminal_id = next }) wid w
      (unfold workspace in found) added token fresh fine unused
      (next_terminal-IsWellFormed s next good)
Step-IsWellFormed s (generation_begun chat_id generation there fresh) good =
    assemble _ good.1.workspaces_unique good.1.workspaces_nonzero (chats_part s good)
      (terminals_part s good) good.1.tokens_unique
      (begun-AreKnown _ chat_id generation _ there fresh (generations_part s good))
Step-IsWellFormed s (generation_cleared chat_id) good =
    assemble _ good.1.workspaces_unique good.1.workspaces_nonzero (chats_part s good)
      (terminals_part s good) good.1.tokens_unique
      (cleared-AreKnown _ chat_id _ (generations_part s good))
Step-IsWellFormed s (workspace_removed wid w found) good = remove-IsWellFormed s wid w found good
Step-IsWellFormed s (chat_removed wid chat_id w c found there) good =
    without_chat-IsWellFormed s wid w found chat_id c there good
Step-IsWellFormed s (terminal_removed wid terminal_id w t found there) good =
    without_terminal-IsWellFormed s wid w found terminal_id t there good
Step-IsWellFormed s (chat_edited wid chat_id f h) good = edited-IsWellFormed s wid chat_id f h good
