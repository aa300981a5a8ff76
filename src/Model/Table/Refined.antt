-- ===== src/Model/Table/Refined.antt =====
-- src/model.rs: the changes of a well-formed state are steps of the abstract map.
use mult.Base.{
  ℕ, ◌≡◌, ◌≢◌, refl, ◌∙◌, ap, subst, true, false, inl, inr, none, some, List, [], ◌∷◌, arith,
  Bool-cases, Bool-clash, Option-clash, if◌then◌else◌, ==→eq,
}
use mult.Base.OrdSet.{contains, contains-append}
use mult.Base.OrdMap.{OrdMap, get, remove, get-put, get-remove}
use mult.Model.Data.{
  ProjectState, PtyKey, terminal_key, chat_agent_key, chat_numbers, terminal_numbers,
}
use mult.Model.State.{values, tokens, token_of}
use mult.Model.Sessions.{remove_all}
use mult.Model.Validate.{keys}
use mult.Model.Valid.{IsWellFormed}
use mult.Model.Table.{
  Table, key_beq, TableStep, Issues, kept, chat_issued, terminal_issued, revoked, table,
}
use mult.Model.Steps.{
  Change, Step, unchanged, workspace_added, chat_added, terminal_added, generation_begun,
  generation_cleared, workspace_removed, chat_removed, terminal_removed, chat_edited,
}

get_absent : (k : ℕ) (m : OrdMap ℕ) → contains k (keys m) ≡ false → get k m ≡ none
unfolding contains get
get_absent k [] e = refl
get_absent k ((j, w) ∷ m) e = ground (arith, get_absent k m)

get-value : (k v : ℕ) (m : OrdMap ℕ) → get k m ≡ some v → contains v (values m) ≡ true
unfolding contains get
get-value k v [] e = absurd (ground arith)
get-value k v ((j, w) ∷ m) e = ground (arith, get-value k v m)

get-remove_all :
    (ids : List ℕ) (j : ℕ) (m : OrdMap ℕ)
    → get j (remove_all ids m) ≡ (if contains j ids then none else get j m)
unfolding contains remove_all
get-remove_all [] j m = refl
get-remove_all (id ∷ ids) j m =
    ground (arith, get-remove_all ids j (remove id m), get-remove id j m)

token_of-value :
    (s : ProjectState) (key : PtyKey) (t : ℕ)
    → token_of s key ≡ some t
    → contains t (tokens s) ≡ true
unfolding token_of
token_of-value s (terminal_key id) t e = ground (
  arith,
  get-value id t s.session_identities.terminals e,
  contains-append t (values s.session_identities.chats) (values s.session_identities.terminals),
)
token_of-value s (chat_agent_key id) t e = ground (
  arith,
  get-value id t s.session_identities.chats e,
  contains-append t (values s.session_identities.chats) (values s.session_identities.terminals),
)

unused_anywhere :
    (s : ProjectState) (t : ℕ)
    → contains t (tokens s) ≡ false
    → (j : PtyKey) → token_of s j ≢ some t
unused_anywhere s t unused j e = Bool-clash (token_of-value s j t e) unused

by_key :
    (t u : Table)
    → ((k : ℕ) → t (terminal_key k) ≡ u (terminal_key k))
    → ((k : ℕ) → t (chat_agent_key k) ≡ u (chat_agent_key k))
    → (j : PtyKey) → t j ≡ u j
by_key t u terminals chats (terminal_key k) = terminals k
by_key t u terminals chats (chat_agent_key k) = chats k

pub Step-TableStep :
    (s : ProjectState) {c : Change} {now : ProjectState}
    → Step s c now
    → IsWellFormed s
    → TableStep (table s) (table now) c
unfolding token_of key_beq contains remove_all
Step-TableStep s unchanged good = kept (λ j. refl)
Step-TableStep s (workspace_added id next name dir target h fresh) good =
    kept (by_key _ _ (λ k. refl) (λ k. refl))
Step-TableStep s (chat_added next wid token w added found fresh fine nonzero unused) good =
    chat_issued added.id token (record {
      absent = get_absent added.id s.session_identities.chats (good.1.chat_table added.id ∙ fresh);
      nonzero = nonzero;
      fresh = unused_anywhere s token unused;
      after = by_key _ _ (λ k. refl) (λ k. get-put added.id k token s.session_identities.chats);
    })
Step-TableStep s (terminal_added next wid token w added found fresh fine nonzero unused) good =
    terminal_issued added.id token (record {
      absent =
          get_absent added.id s.session_identities.terminals
            (good.1.terminal_table added.id ∙ fresh);
      nonzero = nonzero;
      fresh = unused_anywhere s token unused;
      after = by_key _ _ (λ k. get-put added.id k token s.session_identities.terminals) (λ k. refl);
    })
Step-TableStep s (generation_begun chat_id generation there fresh) good =
    kept (by_key _ _ (λ k. refl) (λ k. refl))
Step-TableStep s (generation_cleared chat_id) good = kept (by_key _ _ (λ k. refl) (λ k. refl))
Step-TableStep s (workspace_removed wid w found) good =
    revoked (chat_numbers w) (terminal_numbers w) (
      by_key _ _ (λ k. get-remove_all (terminal_numbers w) k s.session_identities.terminals)
        (λ k. get-remove_all (chat_numbers w) k s.session_identities.chats))
Step-TableStep s (chat_removed wid chat_id w c found there) good = revoked (chat_id ∷ []) [] (
    by_key _ _ (λ k. get-remove_all [] k s.session_identities.terminals)
      (λ k. get-remove_all (chat_id ∷ []) k s.session_identities.chats))
Step-TableStep s (terminal_removed wid terminal_id w t found there) good =
    revoked [] (terminal_id ∷ []) (
      by_key _ _ (λ k. get-remove_all (terminal_id ∷ []) k s.session_identities.terminals)
        (λ k. get-remove_all [] k s.session_identities.chats))
Step-TableStep s (chat_edited wid chat_id f h) good = kept (by_key _ _ (λ k. refl) (λ k. refl))

key_beq→eq : (a b : PtyKey) → key_beq a b ≡ true → a ≡ b
unfolding key_beq
key_beq→eq (terminal_key a) (terminal_key b) e = ap terminal_key (==→eq a b e)
key_beq→eq (terminal_key a) (chat_agent_key b) e = absurd (ground arith)
key_beq→eq (chat_agent_key a) (terminal_key b) e = absurd (ground arith)
key_beq→eq (chat_agent_key a) (chat_agent_key b) e = ap chat_agent_key (==→eq a b e)

Issues-stable :
    (before now : Table) (k key : PtyKey) (token a b : ℕ)
    → Issues k token before now
    → before key ≡ some a
    → now key ≡ some b
    → a ≡ b
Issues-stable before now k key token a b i e f = elim (Bool-cases (key_beq k key)) [
  | inl same ↦
      absurd (Option-clash (subst (λ j. before j ≡ none) (key_beq→eq k key same) i.absent) e)
  | inr other ↦ ground (arith, i.after key, e, f)
]

-- No step replaces a token.
pub TableStep-stable :
    (before now : Table) {c : Change} (key : PtyKey) (a b : ℕ)
    → TableStep before now c
    → before key ≡ some a
    → now key ≡ some b
    → a ≡ b
TableStep-stable before now key a b (kept same) e f = ground (arith, same key, e, f)
TableStep-stable before now key a b (chat_issued id token i) e f =
    Issues-stable before now (chat_agent_key id) key token a b i e f
TableStep-stable before now key a b (terminal_issued id token i) e f =
    Issues-stable before now (terminal_key id) key token a b i e f
TableStep-stable before now key a b (revoked cs ts after) e f = ground (arith, after key, e, f)
