-- ===== src/Model/Messages/Capped.antt =====
-- src/model.rs, `push_capped_message_text`: what is appended, where a text is cut, and when a
-- message is full.
use mult.Base.{
  ℕ, zero, suc, ◌+◌, ◌-◌, ◌≤◌, ◌<◌, ◌≡◌, refl, Bool, true, false, ◌++◌, arith, inl, inr, Bool-cases,
  leb, leb→le, ==→eq, subst, sym, ◌==◌, length, take, length-append, length-take,
}
use mult.Model.Data.{Text}
use mult.Model.Messages.{
  max_chat_message_bytes, chat_message_truncation_notice, content_limit, is_char_boundary, retreat,
  push_capped_message_text,
}

retreat_le : (text : Text) (keep : ℕ) → retreat text keep ≤ keep
unfolding retreat
retreat_le text zero = omega arith
retreat_le text (suc keep) = ground (arith, retreat_le text keep)

retreat-is_char_boundary :
    (text : Text) (keep : ℕ) → is_char_boundary text (retreat text keep) ≡ true
unfolding retreat
retreat-is_char_boundary text zero = unfold is_char_boundary in refl
retreat-is_char_boundary text (suc keep) = elim (Bool-cases (is_char_boundary text (suc keep))) [
  | inl here ↦ rw (here, retreat) here
  | inr within ↦ rw (within, retreat) (retreat-is_char_boundary text keep)
]

-- No boundary lies between the cut and the budget.
retreat_last :
    (text : Text) (keep i : ℕ) → retreat text keep < i → i ≤ keep → is_char_boundary text i ≡ false
unfolding retreat
retreat_last text zero i low high = absurd (omega arith)
retreat_last text (suc keep) i low high = elim (Bool-cases (is_char_boundary text (suc keep))) [
  | inl here ↦ absurd (ground arith)
  | inr within ↦ elim (Bool-cases (i == suc keep)) [
    | inl same ↦ subst (λ n. is_char_boundary text n ≡ false) (sym (==→eq i (suc keep) same)) within
    | inr other ↦ retreat_last text keep i (ground arith) (ground arith)
  ]
]

-- What an append does: nothing to a full message, all of a text that fits, or the cut text and the
-- notice.
pub data Pushed (existing text : Text) : Text × Bool → Type 0 where
  swallowed : content_limit ≤ length existing → Pushed existing text (existing, false)
  whole :
      length existing < content_limit
      → length existing + length text ≤ content_limit
      → Pushed existing text (existing ++ text, true)
  cut :
      (keep : ℕ)
      → length existing < content_limit
      → content_limit < length existing + length text
      → length existing + keep ≤ content_limit
      → is_char_boundary text keep ≡ true
      → ((i : ℕ) → keep < i → length existing + i ≤ content_limit → is_char_boundary text i ≡ false)
      → Pushed existing text (existing ++ take keep text ++ chat_message_truncation_notice, true)

pub push_capped-Pushed :
    (existing text : Text) → Pushed existing text (push_capped_message_text existing text)
unfolding push_capped_message_text
push_capped-Pushed existing text = elim (Bool-cases (leb content_limit (length existing))) [
  | inl full ↦ rw (full, push_capped_message_text) (swallowed (leb→le _ _ full))
  | inr room ↦ elim (Bool-cases (leb (length text) (content_limit - length existing))) [
    | inl fits ↦ rw (room, fits, push_capped_message_text) (whole (ground arith) (ground arith))
    | inr over ↦
        rw (room, over, push_capped_message_text)
          (cut (retreat text (content_limit - length existing)) (ground arith) (ground arith)
            (ground (arith, retreat_le text (content_limit - length existing)))
            (retreat-is_char_boundary text (content_limit - length existing))
            (λ i low high.
              retreat_last text (content_limit - length existing) i low (ground arith)))
  ]
]

Pushed-length :
    (existing text : Text) {r : Text × Bool}
    → Pushed existing text r
    → length existing ≤ max_chat_message_bytes
    → length r.0 ≤ max_chat_message_bytes
Pushed-length existing text (swallowed full) h = h
Pushed-length existing text (whole room fits) h = omega (arith, length-append existing text)
Pushed-length existing text (cut keep room over within here later) h = omega (
  arith,
  length-append (existing ++ take keep text) chat_message_truncation_notice,
  length-append existing (take keep text),
  length-take keep text,
)

-- The text of a message stays within the cap.
pub length-push_capped :
    (existing text : Text)
    → length existing ≤ max_chat_message_bytes
    → length (push_capped_message_text existing text).0 ≤ max_chat_message_bytes
length-push_capped existing text h =
    Pushed-length existing text (push_capped-Pushed existing text) h
