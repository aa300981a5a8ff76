-- ===== src/Model/Messages/Bound.antt =====
-- src/model.rs: every message of a state stays within the cap, whatever is appended.
use mult.Base.{
  ℕ, ◌≤◌, Bool, List, [], ◌∷◌, All, All-append, arith, inl, inr, Bool-cases, Option-cases, length,
  is_empty,
}
use mult.Base.Find.{update_first, push, last, update_last}
use mult.Model.Data.{
  Text, ChatMessage, ChatMessageRole, ChatSession, Workspace, ProjectState, role_beq,
}
use mult.Model.State.{is_workspace, is_chat}
use mult.Model.Messages.{
  max_chat_message_bytes, chat, update_chat, new_message, add_message, append_chat_message,
  extend_message, append_delta, append_chat_delta,
}
use mult.Model.Messages.Capped.{length-push_capped}

abbrev pub IsBounded : ChatMessage → Type 0
IsBounded m = length m.text ≤ max_chat_message_bytes

-- Every message of every chat is within the cap.
abbrev pub AreBounded : ProjectState → Type 0
AreBounded s =
    All (λ (w : Workspace). All (λ (c : ChatSession). All IsBounded c.messages) w.chats)
      s.workspaces

All-update_first :
    {A : Type 0} (P : A → Type 0) (test : A → Bool) (f : A → A) (xs : List A)
    → ((x : A) → P x → P (f x))
    → All P xs
    → All P (update_first test f xs)
unfolding update_first
All-update_first P test f [] h a = tt
All-update_first P test f (x ∷ xs) h a = elim (Bool-cases (test x)) [
  | inl hit ↦ rw (hit, update_first) (h x a.0, a.1)
  | inr miss ↦ rw (miss, update_first) (a.0, All-update_first P test f xs h a.1)
]

All-update_last :
    {A : Type 0} (P : A → Type 0) (f : A → A) (xs : List A)
    → ((x : A) → P x → P (f x))
    → All P xs
    → All P (update_last f xs)
unfolding update_last
All-update_last P f [] h a = tt
All-update_last P f (x ∷ []) h a = (h x a.0, tt)
All-update_last P f (x ∷ y ∷ xs) h a = (a.0, All-update_last P f (y ∷ xs) h a.1)

new_message-IsBounded :
    (author : ChatMessageRole) (words : Text) → IsBounded (new_message author words)
unfolding new_message
new_message-IsBounded author words = length-push_capped [] words (omega arith)

append_delta-bound :
    (author : ChatMessageRole) (words : Text) (messages : List ChatMessage)
    → All IsBounded messages
    → All IsBounded (append_delta author words messages).0
unfolding append_delta
append_delta-bound author words messages a = elim (Option-cases (last messages)) [
  | inl nothing ↦ rw (nothing, append_delta) (added a)
  | inr (m, there) ↦ elim (Bool-cases (role_beq m.role author)) [
    | inl same ↦
        rw (there, same, append_delta)
          (All-update_last IsBounded (extend_message words) messages
            (λ m h. length-push_capped m.text words h) a)
    | inr other ↦ rw (there, other, append_delta) (added a)
  ]
]
  where
    added : All IsBounded messages → All IsBounded (push (new_message author words) messages)
    added a = All-append IsBounded messages _ a (new_message-IsBounded author words, tt)

update_chat-bound :
    (s : ProjectState) (wid cid : ℕ) (f : ChatSession → ChatSession)
    → ((c : ChatSession) → All IsBounded c.messages → All IsBounded (f c).messages)
    → AreBounded s
    → AreBounded (update_chat s wid cid f)
update_chat-bound s wid cid f h a =
    All-update_first _ (is_workspace wid) _ s.workspaces
      (λ w b. All-update_first _ (is_chat cid) f w.chats h b) a

pub append_chat_message-AreBounded :
    (s : ProjectState) (wid cid : ℕ) (author : ChatMessageRole) (words : Text)
    → AreBounded s
    → AreBounded (append_chat_message s wid cid author words).0
unfolding append_chat_message
append_chat_message-AreBounded s wid cid author words a = elim (Bool-cases (is_empty words)) [
  | inl nothing ↦ rw (nothing, append_chat_message) a
  | inr more ↦ elim (Option-cases (chat s wid cid)) [
    | inl missing ↦ rw (more, missing, append_chat_message) a
    | inr (c, there) ↦
        rw (more, there, append_chat_message)
          (update_chat-bound s wid cid (add_message author words)
            (λ c b. All-append IsBounded c.messages _ b (new_message-IsBounded author words, tt)) a)
  ]
]

-- Where every message of the state is within 64 KiB, every message is so after a delta.
pub append_chat_delta-AreBounded :
    (s : ProjectState) (wid cid : ℕ) (author : ChatMessageRole) (words : Text)
    → AreBounded s
    → AreBounded (append_chat_delta s wid cid author words).0
unfolding append_chat_delta
append_chat_delta-AreBounded s wid cid author words a = elim (Bool-cases (is_empty words)) [
  | inl nothing ↦ rw (nothing, append_chat_delta) a
  | inr more ↦ elim (Option-cases (chat s wid cid)) [
    | inl missing ↦ rw (more, missing, append_chat_delta) a
    | inr (c, there) ↦
        rw (more, there, append_chat_delta)
          (update_chat-bound s wid cid _ (λ c b. append_delta-bound author words c.messages b) a)
  ]
]
