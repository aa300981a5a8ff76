-- ===== src/Model/Messages.antt =====
-- src/model.rs: chat messages and the cap of their text. Text is its UTF-8 bytes.
pub mod Capped
pub mod Characters
pub mod Bound
use mult.Base.{
  ℕ, zero, suc, ◌+◌, ◌-◌, ◌*◌, Bool, true, false, not, ◌&&◌, ◌||◌, Option, none, some, List, [],
  ◌∷◌, ◌++◌, is_empty, length, take, drop, leb, ltb, ◌==◌, if◌then◌else◌,
}
use mult.Base.Find.{find, update_first, push, last, update_last}
use mult.Model.Data.{
  Text, ChatMessage, ChatMessageRole, ChatSession, Workspace, ProjectState, role_beq,
}
use mult.Model.State.{workspace, is_workspace, is_chat}

abbrev pub max_chat_message_bytes : ℕ
max_chat_message_bytes = 64 * 1024

-- A line feed and `[truncated]`.
abbrev pub chat_message_truncation_notice : Text
chat_message_truncation_notice =
    10 ∷ 91 ∷ 116 ∷ 114 ∷ 117 ∷ 110 ∷ 99 ∷ 97 ∷ 116 ∷ 101 ∷ 100 ∷ 93 ∷ []

abbrev pub content_limit : ℕ
content_limit = max_chat_message_bytes - length chat_message_truncation_notice

-- A byte that does not begin a character.
unfoldable pub is_continuation : ℕ → Bool
is_continuation byte = leb 128 byte && ltb byte 192

abbrev pub starts_character : Text → Bool
starts_character [] = true
starts_character (byte ∷ text) = not (is_continuation byte)

-- `str::is_char_boundary`: the ends, and before a byte that begins a character.
unfoldable pub is_char_boundary : Text → ℕ → Bool
is_char_boundary text index =
    if index == 0
    then true
    else if leb index (length text)
    then starts_character (drop index text)
    else false

-- The loop that looks for a boundary.
unfoldable pub retreat : Text → ℕ → ℕ
retreat text zero = zero
retreat text (suc keep) = elim (is_char_boundary text (suc keep)) [
  | true ↦ suc keep
  | false ↦ retreat text keep
]

-- The text that is left in the message, and whether anything was appended.
unfoldable pub push_capped_message_text : Text → Text → Text × Bool
push_capped_message_text existing text =
    let budget = content_limit - length existing in
    if leb content_limit (length existing)
    then (existing, false)
    else if leb (length text) budget
    then (existing ++ text, true)
    else (existing ++ take (retreat text budget) text ++ chat_message_truncation_notice, true)

-- `chat_mut`, as a lookup and as a mutation of what it finds.
unfoldable pub chat : ProjectState → ℕ → ℕ → Option ChatSession
chat s workspace_id chat_id = elim (workspace s workspace_id) [
  | none ↦ none
  | some w ↦ find (is_chat chat_id) w.chats
]

abbrev pub update_chat : ProjectState → ℕ → ℕ → (ChatSession → ChatSession) → ProjectState
update_chat s workspace_id chat_id f = record s {
  workspaces =
      update_first (is_workspace workspace_id)
        (λ w. record w { chats = update_first (is_chat chat_id) f w.chats }) s.workspaces;
}

unfoldable pub new_message : ChatMessageRole → Text → ChatMessage
new_message author words = record { role = author; text = (push_capped_message_text [] words).0 }

abbrev pub add_message : ChatMessageRole → Text → ChatSession → ChatSession
add_message author words c = record c { messages = push (new_message author words) c.messages }

unfoldable pub append_chat_message :
    ProjectState → ℕ → ℕ → ChatMessageRole → Text → ProjectState × Bool
append_chat_message s workspace_id chat_id author words =
    if is_empty words then (s, false) else elim (chat s workspace_id chat_id) [
      | none ↦ (s, false)
      | some c ↦ (update_chat s workspace_id chat_id (add_message author words), true)
    ]

abbrev pub extend_message : Text → ChatMessage → ChatMessage
extend_message words m = record m { text = (push_capped_message_text m.text words).0 }

-- The messages after a delta, and whether they changed: the last message grows when it has the
-- same role, else a message is added.
unfoldable pub append_delta : ChatMessageRole → Text → List ChatMessage → List ChatMessage × Bool
append_delta author words messages = elim (last messages) [
  | none ↦ (push (new_message author words) messages, true)
  | some m ↦
      if role_beq m.role author
      then (update_last (extend_message words) messages, (push_capped_message_text m.text words).1)
      else (push (new_message author words) messages, true)
]

unfoldable pub append_chat_delta :
    ProjectState → ℕ → ℕ → ChatMessageRole → Text → ProjectState × Bool
append_chat_delta s workspace_id chat_id author words =
    if is_empty words then (s, false) else elim (chat s workspace_id chat_id) [
      | none ↦ (s, false)
      | some c ↦ (
        update_chat s workspace_id chat_id
            (λ c. record c { messages = (append_delta author words c.messages).0 }),
        (append_delta author words c.messages).1,
      )
    ]
